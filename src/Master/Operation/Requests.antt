-- ===== src/Master/Operation/Requests.antt =====
-- master_node.py: running, pausing and resuming the line, with the guards of each.
use ai_vision_inspection.Base.{
  ℕ, Bool, true, false, ◌&&◌, not, nat_eq, equals, if◌then◌else◌, List, [], ◌∷◌, ◌++◌, Option, none,
  some, is_nil,
}
use ai_vision_inspection.Constants.{
  degraded, SystemState, SystemState-discrete, run_sys, pausing, paused, fault_stop, PauseReason,
  PauseReason-discrete, operator, device_recovery_auto, device_recovery_manual, fault_recovery,
  storage_recovery,
}
use ai_vision_inspection.Constants
use ai_vision_inspection.Master.SystemFsm.{
  SystemEvent, start_request, start_failed, all_conveyors_running, pause_request,
  recoverable_device_fault, resume_request, device_recovered, resume_failed,
}
use ai_vision_inspection.Master.Equipment.{
  EquipmentSnapshot, is_true, mark_all_running, all_conveyors_stopped, all_sensors_clear,
  in_place_guards_satisfied, clear_operator_confirmation,
}
use ai_vision_inspection.Master.Ledger.{active_size}
use ai_vision_inspection.Master.Operation.{
  RecoveryPolicy-discrete, line_clear_required, MasterNode, apply_event, request_all_conveyors_stop,
  request_conveyor_run, all_workers_ready, fifo_aligned,
}

pub data StartFailure : Type 0 where
  system_state_differs workers_not_ready hardware_mapping_unconfirmed : StartFailure
  camera_mapping_incomplete master_log_spool_unavailable active_products : StartFailure
  line_clear_not_confirmed conveyors_not_stopped sensors_not_clear : StartFailure
  actuator_not_safe estop_is_asserted : StartFailure

abbrev failure_if : Bool → StartFailure → List StartFailure
failure_if true f = f ∷ []
failure_if false f = []

-- `_start_guard_failures`
unfoldable pub start_guard_failures : MasterNode → ℕ → List StartFailure
start_guard_failures m now =
    let e = m.equipment in
    failure_if (not (equals SystemState-discrete m.system_state Constants.SystemState.ready))
      system_state_differs
    ++ failure_if (not (all_workers_ready m now)) workers_not_ready
    ++ failure_if (not m.settings.hardware_mapping_confirmed) hardware_mapping_unconfirmed
    ++ failure_if
        (not (nat_eq m.settings.station_a_cameras 3 && nat_eq m.settings.station_b_cameras 1))
        camera_mapping_incomplete
    ++ failure_if (not m.log_spool_open) master_log_spool_unavailable
    ++ failure_if (not (nat_eq (active_size m.ledger) 0)) active_products
    ++ failure_if (not e.line_clear_confirmed) line_clear_not_confirmed
    ++ failure_if (not (all_conveyors_stopped e)) conveyors_not_stopped
    ++ failure_if (not (all_sensors_clear e)) sensors_not_clear
    ++ failure_if (not (is_true e.actuator_safe)) actuator_not_safe
    ++ failure_if e.estop_asserted estop_is_asserted

-- The run that an accepted request waits for.
abbrev run_requested : ℕ → MasterNode × Bool → MasterNode × Bool
run_requested now (m, false) = (m, false)
run_requested now (m, true) =
    (request_conveyor_run (record m { pending_run_confirmation = true }) now, true)

unfoldable pub request_run : MasterNode → ℕ → MasterNode × Bool
request_run m now =
    if not (is_nil (start_guard_failures m now))
    then (m, false)
    else run_requested now (apply_event m start_request)

-- The confirmation of an empty line is used up by a new run.
abbrev running_equipment : SystemState → EquipmentSnapshot → EquipmentSnapshot
running_equipment Constants.SystemState.ready e = clear_operator_confirmation (mark_all_running e)
running_equipment _ e = mark_all_running e

abbrev running : SystemState → MasterNode × Bool → MasterNode × Bool
running previous (m, false) = (m, false)
running previous (m, true) = (
  record m {
    pending_run_confirmation = false;
    run_confirmation_deadline_ns = 0;
    equipment = running_equipment previous m.equipment;
    pause_reason = none;
  },
  true,
)

-- The operations of products that a pause has deferred start afterwards and are left out.
unfoldable pub confirm_all_conveyors_running : MasterNode → MasterNode × Bool
confirm_all_conveyors_running m =
    if not m.pending_run_confirmation
    then (m, false)
    else running m.system_state (apply_event m all_conveyors_running)

abbrev not_pending : MasterNode × Bool → MasterNode × Bool
not_pending (m, false) = (m, false)
not_pending (m, true) = (record m { pending_run_confirmation = false }, true)

abbrev run_failure : SystemState → SystemEvent
run_failure Constants.SystemState.ready = start_failed
run_failure _ = resume_failed

unfoldable pub report_run_failed : MasterNode → MasterNode × Bool
report_run_failed m = not_pending (apply_event m (run_failure m.system_state))

abbrev pausing_by_operator : ℕ → MasterNode × Bool → MasterNode × Bool
pausing_by_operator now (m, false) = (m, false)
pausing_by_operator now (m, true) = (
  request_all_conveyors_stop
      (record m { pause_reason = some operator; pending_run_confirmation = false }) now,
  true,
)

unfoldable pub request_pause : MasterNode → ℕ → MasterNode × Bool
request_pause m now = pausing_by_operator now (apply_event m pause_request)

abbrev pub pausing_for_device : PauseReason → ℕ → MasterNode × Bool → MasterNode × Bool
pausing_for_device reason now (m, false) = (m, false)
pausing_for_device reason now (m, true) = (
  request_all_conveyors_stop
      (record m {
        pause_reason = some reason;
        pending_run_confirmation = false;
        health_state = degraded;
      })
      now,
  true,
)

-- Another reason raises a ValueError, which is `none`.
unfoldable pub request_recoverable_device_pause :
    MasterNode → PauseReason → ℕ → Option (MasterNode × Bool)
request_recoverable_device_pause m operator now = none
request_recoverable_device_pause m fault_recovery now = none
request_recoverable_device_pause m reason now =
    some (pausing_for_device reason now (apply_event m recoverable_device_fault))

-- `_verify_resume_conditions`
unfoldable pub verify_resume_conditions : MasterNode → ℕ → Bool
verify_resume_conditions m now =
    equals SystemState-discrete m.system_state paused
    && all_workers_ready m now
    && in_place_guards_satisfied m.equipment
    && fifo_aligned m
    && not (equals RecoveryPolicy-discrete m.recovery_policy line_clear_required)
    && not (m.paused_by_queue && not m.queue_recovered_pending)

abbrev paused_automatically : Option PauseReason → Bool
paused_automatically none = false
paused_automatically (some r) = equals PauseReason-discrete r device_recovery_auto

unfoldable pub request_resume : MasterNode → Bool → ℕ → MasterNode × Bool
request_resume m automatic now =
    if automatic && not (paused_automatically m.pause_reason)
    then (m, false)
    else if not (verify_resume_conditions m now)
    then (m, false)
    else run_requested now (apply_event m (if automatic then device_recovered else resume_request))
