-- ===== src/Master/Operation/Recovery.antt =====
-- master_node.py: faults, the entry into a reset and its end, and the confirmation of an empty line.
use ai_vision_inspection.Base.{
  ℕ, ◌+◌, ◌*◌, String, Bool, true, false, ◌&&◌, ◌||◌, not, is_empty, equals, if◌then◌else◌, Option,
  none, some, map,
}
use ai_vision_inspection.Constants.{
  degraded, SystemState, SystemState-discrete, run_sys, pausing, paused, fault_stop, operator,
  fault_recovery, device_recovery_auto,
}
use ai_vision_inspection.Constants
use ai_vision_inspection.Master.SystemFsm.{
  critical_fault, estop_asserted, pause_failed, pause_timeout, reset_request,
  reset_succeeded_empty_line, reset_succeeded_in_place, reset_failed, reset_timeout,
}
use ai_vision_inspection.Master.Equipment.{
  EquipmentSnapshot, ByConveyor, BySensor, line_clear_guards_satisfied, in_place_guards_satisfied,
  clear_operator_confirmation,
}
use ai_vision_inspection.Master.Worker.{schedule_retry}
use ai_vision_inspection.Master.Operation.{
  RecoveryPolicy, no_recovery, line_clear_required, equipment_check_required, retry_in_place,
  MasterNode, apply_event, request_all_conveyors_stop, publish_system_command, fifo_aligned, reset,
}

abbrev stopping : ℕ → MasterNode × Bool → MasterNode × Bool
stopping now (m, false) = (m, false)
stopping now (m, true) = (request_all_conveyors_stop m now, true)

-- The policy is set before the event is decided.
unfoldable pub report_pause_failed : MasterNode → Bool → ℕ → MasterNode × Bool
report_pause_failed m timed_out now = stopping now (
    apply_event (record m { recovery_policy = equipment_check_required })
      (if timed_out then pause_timeout else pause_failed))

-- `_request_line_clear`
abbrev request_line_clear : RecoveryPolicy → MasterNode → MasterNode
request_line_clear line_clear_required m = record m {
  equipment = clear_operator_confirmation m.equipment;
}
request_line_clear _ m = m

abbrev line_clear_requested : RecoveryPolicy → MasterNode × Bool → MasterNode × Bool
line_clear_requested policy (m, false) = (m, false)
line_clear_requested policy (m, true) = (request_line_clear policy m, true)

unfoldable pub latched : MasterNode → RecoveryPolicy → ℕ → MasterNode × Bool
latched m policy now = line_clear_requested policy (
    stopping now (
      apply_event (record m { recovery_policy = policy; pending_run_confirmation = false })
        critical_fault))

-- The policy NONE raises a ValueError, which is `none`.
unfoldable pub report_critical_fault : MasterNode → RecoveryPolicy → ℕ → Option (MasterNode × Bool)
unfolding latched
report_critical_fault m no_recovery now = none
report_critical_fault m policy now = some (latched m policy now)

-- `_fault_stop`
abbrev pub fault_stopped : MasterNode → ℕ → MasterNode
fault_stopped m now = (latched m line_clear_required now).0

unfoldable pub report_estop_asserted : MasterNode → ℕ → MasterNode × Bool
report_estop_asserted m now = stopping now (
    apply_event
      (record m { recovery_policy = equipment_check_required; pending_run_confirmation = false })
      estop_asserted)

-- `_verify_reset_entry_conditions`
unfoldable pub verify_reset_entry_conditions : MasterNode → Bool
verify_reset_entry_conditions m =
    if not (equals SystemState-discrete m.system_state fault_stop)
    then false
    else elim m.recovery_policy [
      | line_clear_required ↦ line_clear_guards_satisfied m.equipment
      | equipment_check_required ↦ in_place_guards_satisfied m.equipment && fifo_aligned m
      | retry_in_place ↦ in_place_guards_satisfied m.equipment && fifo_aligned m
      | no_recovery ↦ false
    ]

-- `_advance_command_epoch` at a reset: every worker is initialized again.
unfoldable pub advance_command_epoch : MasterNode → ℕ → MasterNode
advance_command_epoch m now = record m {
  command_epoch = m.command_epoch + 1;
  worker_states =
      map
        (λ w.
          schedule_retry w now (m.settings.init_retry_interval_ms * 1000000) 9002
            "reinitialize after command epoch change: reset sequence started" false)
        m.worker_states;
}

abbrev resetting_started : ℕ → MasterNode × Bool → MasterNode × Bool
resetting_started now (m, false) = (m, false)
resetting_started now (m, true) = (publish_system_command (advance_command_epoch m now) reset, true)

unfoldable pub request_reset : MasterNode → ℕ → MasterNode × Bool
request_reset m now =
    if not (verify_reset_entry_conditions m)
    then (m, false)
    else resetting_started now (apply_event m reset_request)

abbrev recovered : Bool → MasterNode × Bool → MasterNode × Bool
recovered line_cleared (m, false) = (m, false)
recovered true (m, true) = (record m { recovery_policy = no_recovery; pause_reason = none }, true)
recovered false (m, true) = (
  record m {
    recovery_policy = no_recovery;
    pause_reason = some fault_recovery;
    health_state = Constants.NodeHealthState.ready;
  },
  true,
)

unfoldable pub report_reset_succeeded : MasterNode → Bool → MasterNode × Bool
report_reset_succeeded m line_cleared =
    recovered line_cleared (
      apply_event m (if line_cleared then reset_succeeded_empty_line else reset_succeeded_in_place))

unfoldable pub report_reset_failed : MasterNode → Bool → MasterNode × Bool
report_reset_failed m timed_out = apply_event m (if timed_out then reset_timeout else reset_failed)

-- The arguments of `update_equipment_snapshot`; `none` is one that is not given.
pub record EquipmentUpdate : Type 0 where
  pub running : ByConveyor
  pub stopped : ByConveyor
  pub sensors : BySensor
  pub actuator : Option Bool
  pub estop : Option Bool

abbrev updated : Option Bool → Option Bool → Option Bool
updated old none = old
updated old (some v) = some v

abbrev updated_conveyors : ByConveyor → ByConveyor → ByConveyor
updated_conveyors old u = record {
  upper_value = updated old.upper_value u.upper_value;
  lower_value = updated old.lower_value u.lower_value;
}

unfoldable pub updated_equipment : EquipmentSnapshot → EquipmentUpdate → EquipmentSnapshot
updated_equipment e u = record e {
  conveyor_running = updated_conveyors e.conveyor_running u.running;
  conveyor_stopped = updated_conveyors e.conveyor_stopped u.stopped;
  sensor_clear = record {
    sensor1 = updated e.sensor_clear.sensor1 u.sensors.sensor1;
    sensor2 = updated e.sensor_clear.sensor2 u.sensors.sensor2;
    sensor3 = updated e.sensor_clear.sensor3 u.sensors.sensor3;
  };
  actuator_safe = updated e.actuator_safe u.actuator;
  estop_asserted = elim u.estop [ none ↦ e.estop_asserted | some b ↦ b ];
}

unfoldable pub update_equipment_snapshot : MasterNode → EquipmentUpdate → ℕ → MasterNode
update_equipment_snapshot m u now =
    let n = record m { equipment = updated_equipment m.equipment u } in
    elim u.estop [
      | none ↦ n
      | some asserted ↦ if asserted then (report_estop_asserted n now).0 else n
    ]

abbrev accepts_confirmation : SystemState → Bool
accepts_confirmation Constants.SystemState.ready = true
accepts_confirmation fault_stop = true
accepts_confirmation _ = false

unfoldable pub confirm_line_cleared : MasterNode → String → MasterNode × Bool
confirm_line_cleared m operator_id =
    if is_empty operator_id || not (accepts_confirmation m.system_state)
    then (m, false)
    else let equipment = record m.equipment {
      line_clear_confirmed = true;
      operator_id = operator_id;
    } in
      (record m { equipment = equipment }, line_clear_guards_satisfied equipment)
