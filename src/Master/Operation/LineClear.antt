-- ===== src/Master/Operation/LineClear.antt =====
-- master_node.py: a fault that asks for an empty line, and what lifts it.
use ai_vision_inspection.Base.{
  ℕ, Bool, true, false, none, some, equals, is_nil, refl, ap, if◌then◌else◌, ◌≡◌, ◌↔◌, arith,
}
use ai_vision_inspection.Constants.{SystemState, SystemState-discrete, fault_stop, resetting}
use ai_vision_inspection.Constants
use ai_vision_inspection.Master.SystemFsm.{
  SystemEvent-discrete, SystemTransition, decide_system_transition, find_rule, from_rule,
  fault_rule, transitions, critical_fault, reset_request, start_request,
}
use ai_vision_inspection.Master.Equipment.{
  is_true, all_conveyors_stopped, all_sensors_clear, line_clear_guards_satisfied,
  in_place_guards_satisfied, clear_operator_confirmation,
}
use ai_vision_inspection.Master.Ledger.{active_size}
use ai_vision_inspection.Master.Operation.{
  RecoveryPolicy, RecoveryPolicy-discrete, line_clear_required, equipment_check_required,
  MasterNode, apply_event, request_all_conveyors_stop, all_workers_ready, fifo_aligned,
}
use ai_vision_inspection.Master.Operation.Requests.{
  start_guard_failures, request_run, verify_resume_conditions, request_resume,
}
use ai_vision_inspection.Master.Operation.Recovery.{
  latched, verify_reset_entry_conditions, request_reset, EquipmentUpdate, updated_equipment,
  update_equipment_snapshot,
}

decide-critical_fault :
    (s : SystemState)
    → (t : SystemTransition) × (decide_system_transition s critical_fault "" ≡ some t)
      × (t.current ≡ fault_stop)
unfolding decide_system_transition fault_rule
decide-critical_fault s = (_, refl, refl)

decide-reset_request :
    (t : SystemTransition) × (decide_system_transition fault_stop reset_request "" ≡ some t)
    × (t.current ≡ resetting)
unfolding decide_system_transition fault_rule find_rule from_rule transitions SystemState-discrete
    SystemEvent-discrete
decide-reset_request = (_, refl, refl)

decide-start_request :
    (t : SystemTransition) × (decide_system_transition Constants.SystemState.ready start_request ""
      ≡ some t)
unfolding decide_system_transition fault_rule find_rule from_rule transitions SystemState-discrete
    SystemEvent-discrete
decide-start_request = (_, refl)

-- What a fault leaves.
pub latched-state :
    (m : MasterNode) (policy : RecoveryPolicy) (now : ℕ)
    → ((latched m policy now).0.system_state ≡ fault_stop)
      × ((latched m policy now).0.recovery_policy ≡ policy)
      × ((latched m policy now).0.ledger ≡ m.ledger)
      × ((latched m policy now).0.equipment ≡ (
          if equals RecoveryPolicy-discrete policy line_clear_required
          then clear_operator_confirmation m.equipment
          else m.equipment))
unfolding latched apply_event request_all_conveyors_stop
latched-state m policy now = ground (arith, decide-critical_fault m.system_state)

-- In FAULT_STOP the guard alone decides on a reset.
request_reset-fault_stop :
    (m : MasterNode) (now : ℕ)
    → m.system_state ≡ fault_stop
    → (request_reset m now).1 ≡ verify_reset_entry_conditions m
unfolding request_reset apply_event
request_reset-fault_stop m now s = ground (arith, decide-reset_request)

start_guard_failures-state :
    (m : MasterNode) (now : ℕ)
    → m.system_state ≡ fault_stop
    → is_nil (start_guard_failures m now) ≡ false
unfolding start_guard_failures
start_guard_failures-state m now s = ground arith

request_run-fault_stop :
    (m : MasterNode) (now : ℕ) → m.system_state ≡ fault_stop → (request_run m now).1 ≡ false
unfolding request_run
request_run-fault_stop m now s = ground (arith, start_guard_failures-state m now s)

request_resume-fault_stop :
    (m : MasterNode) (automatic : Bool) (now : ℕ)
    → m.system_state ≡ fault_stop
    → (request_resume m automatic now).1 ≡ false
unfolding request_resume verify_resume_conditions
request_resume-fault_stop m automatic now s = ground arith

update_equipment_snapshot-reported :
    (m : MasterNode) (u : EquipmentUpdate) (now : ℕ)
    → u.estop ≡ none
    → update_equipment_snapshot m u now ≡ record m { equipment = updated_equipment m.equipment u }
unfolding update_equipment_snapshot
update_equipment_snapshot-reported m u now e = ground arith

unconfirmed :
    (m : MasterNode) (u : EquipmentUpdate)
    → m.recovery_policy ≡ line_clear_required
    → m.equipment.line_clear_confirmed ≡ false
    → verify_reset_entry_conditions (record m { equipment = updated_equipment m.equipment u })
      ≡ false
unfolding verify_reset_entry_conditions line_clear_guards_satisfied updated_equipment
unconfirmed m u p c = ground arith

-- After a fault that asks for an empty line, and after the equipment has reported anything but an E-stop,
-- a reset, a run and a resumption are refused: no report stands for the operator's confirmation.
pub latched-refuses :
    (m : MasterNode) (u : EquipmentUpdate) (now later : ℕ) (automatic : Bool)
    → u.estop ≡ none
    → ((request_reset
          (update_equipment_snapshot (latched m line_clear_required now).0 u later)
          later).1
        ≡ false)
      × ((request_run
            (update_equipment_snapshot (latched m line_clear_required now).0 u later)
            later).1
          ≡ false)
      × ((request_resume
            (update_equipment_snapshot (latched m line_clear_required now).0 u later)
            automatic
            later).1
          ≡ false)
unfolding RecoveryPolicy-discrete clear_operator_confirmation
latched-refuses m u now later automatic e =
    let n = (latched m line_clear_required now).0 in
    let l = latched-state m line_clear_required now in
    let k = record n { equipment = updated_equipment n.equipment u } in
    ground (
      arith,
      l,
      update_equipment_snapshot-reported n u later e,
      request_reset-fault_stop k later l.0,
      request_run-fault_stop k later l.0,
      request_resume-fault_stop k automatic later l.0,
      unconfirmed n u l.1 (ap (λ q. q.line_clear_confirmed) l.3),
    )

-- In FAULT_STOP with the policy LINE_CLEAR_REQUIRED a reset is accepted exactly when the line was
-- confirmed to be empty and its guards hold. A further fault with a weaker policy replaces the latched
-- one: the reset is accepted then without that confirmation.
pub latched-weakens :
    (m : MasterNode) (now later : ℕ)
    → m.system_state ≡ fault_stop
    → m.recovery_policy ≡ line_clear_required
    → in_place_guards_satisfied m.equipment ≡ true
    → fifo_aligned m ≡ true
    → ((request_reset m later).1 ≡ line_clear_guards_satisfied m.equipment)
      × ((request_reset (latched m equipment_check_required now).0 later).1 ≡ true)
unfolding verify_reset_entry_conditions fifo_aligned
latched-weakens m now later s p g a =
    let n = (latched m equipment_check_required now).0 in
    let l = latched-state m equipment_check_required now in
    ground (arith, l, request_reset-fault_stop m later s, request_reset-fault_stop n later l.0)

-- A run is accepted exactly when no start guard fails, which is when the state is READY, the workers
-- are ready, the mappings are complete, the spool is open, no product is on the line, the operator
-- has confirmed that the line is empty, and the equipment is stopped, clear and safe.
request_run-guards :
    (m : MasterNode) (now : ℕ)
    → ((request_run m now).1 ≡ true) ↔ (
        (m.system_state ≡ Constants.SystemState.ready)
        × (all_workers_ready m now ≡ true)
        × (m.settings.hardware_mapping_confirmed ≡ true)
        × (m.settings.station_a_cameras ≡ 3)
        × (m.settings.station_b_cameras ≡ 1)
        × (m.log_spool_open ≡ true)
        × (active_size m.ledger ≡ 0)
        × (m.equipment.line_clear_confirmed ≡ true)
        × (all_conveyors_stopped m.equipment ≡ true)
        × (all_sensors_clear m.equipment ≡ true)
        × (is_true m.equipment.actuator_safe ≡ true)
        × (m.equipment.estop_asserted ≡ false))
unfolding request_run start_guard_failures apply_event
request_run-guards m now = ground (arith, decide-start_request)
