-- ===== src/Master/Equipment/Guards.antt =====
-- operation_runtime.py: what the guards of a reset are.

use ai_vision_inspection.Base.{true, false, ◌&&◌, some, ◌≡◌, refl, arith, ◌↔◌}
use ai_vision_inspection.Master.Equipment.{
  EquipmentSnapshot, mark_all_stopped, mark_all_running, all_conveyors_stopped, all_sensors_clear,
  line_clear_guards_satisfied, in_place_guards_satisfied, clear_operator_confirmation,
}

-- The guards of an empty-line reset are those of an in-place reset, the operator's confirmation and
-- three clear sensors; no running line and no line whose confirmation was cleared satisfies them,
-- and a stopped line satisfies the in-place guards exactly when its actuator is known to be safe
-- and no emergency stop is asserted.
guards_of_reset :
    (s : EquipmentSnapshot)
    → (line_clear_guards_satisfied s
        ≡ (in_place_guards_satisfied s && s.line_clear_confirmed && all_sensors_clear s))
      × (in_place_guards_satisfied (mark_all_running s) ≡ false)
      × (line_clear_guards_satisfied (mark_all_running s) ≡ false)
      × (line_clear_guards_satisfied (clear_operator_confirmation s) ≡ false)
      × ((in_place_guards_satisfied (mark_all_stopped s) ≡ true)
          ↔ ((s.actuator_safe ≡ some true) × (s.estop_asserted ≡ false)))
unfolding line_clear_guards_satisfied in_place_guards_satisfied mark_all_running mark_all_stopped
    clear_operator_confirmation all_conveyors_stopped all_sensors_clear
guards_of_reset s =
    (ground arith, refl, ground arith, refl, (λ h. (ground arith, ground arith), λ h. ground arith))
