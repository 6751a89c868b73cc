-- ===== src/Master/Operation/Running/Waiting.antt =====
-- master_node.py: the wait for the confirmation of a run, along every call.
use ai_vision_inspection.Base.{
  ℕ, String, Bool, true, false, List, [], ◌∷◌, Option, none, some, ◌≡◌, inl, inr, refl, arith,
}
use ai_vision_inspection.Constants.{SystemState, SystemState-discrete, run_sys, paused, PauseReason}
use ai_vision_inspection.Constants
use ai_vision_inspection.Master.SystemFsm
use ai_vision_inspection.Master.SystemFsm.{
  SystemEvent, SystemEvent-discrete, SystemTransition, decide_system_transition, find_rule,
  from_rule, fault_rule, transitions, all_conveyors_running, critical_fault, estop_asserted,
  start_request, resume_request, device_recovered,
}
use ai_vision_inspection.Master.Operation.{
  MasterNode, RecoveryPolicy, equipment_check_required, line_clear_required, blocked, apply_event,
  request_all_conveyors_stop, request_conveyor_run,
}
use ai_vision_inspection.Master.Operation.Requests.{
  request_run, confirm_all_conveyors_running, report_run_failed, request_pause,
  request_recoverable_device_pause, request_resume,
}
use ai_vision_inspection.Master.Operation.Recovery.{
  report_pause_failed, latched, report_critical_fault, report_estop_asserted, request_reset,
  advance_command_epoch, report_reset_succeeded, report_reset_failed, EquipmentUpdate,
  updated_equipment, update_equipment_snapshot, confirm_line_cleared,
}
use ai_vision_inspection.Master.Operation.Deadlines.{
  resume_after_queue_recovery, finalize_shutdown_sequence, confirm_all_conveyors_stopped,
  after_stop, stop_entered, waiting, pause_line, begin_shutdown_sequence, request_shutdown,
  check_pause_deadline, check_run_deadline, check_shutdown_deadline, check_line_deadlines,
}
use ai_vision_inspection.Master.Operation.Steps.{
  Call, call, calls, kept, asks_run, asks_pause, asks_reset, asks_shutdown, asks_resume,
  asks_device_pause, confirms_running, confirms_stopped, run_failed, pause_failed, reset_failed,
  reset_succeeded, faults, estop, pauses, queue_recovered, deadlines, equipment,
  confirms_line_cleared,
}
use ai_vision_inspection.Master.Equipment.{mark_all_stopped}
use ai_vision_inspection.Master.Operation.Running.{
  WaitsWell, apply_event-WaitsWell, apply_event-rejected, apply_event-LeadsTo,
  start_request-LeadsTo, resume_request-LeadsTo, device_recovered-LeadsTo,
}

confirm_all_conveyors_running-WaitsWell :
    (m : MasterNode) → WaitsWell m → WaitsWell (confirm_all_conveyors_running m).0
unfolding confirm_all_conveyors_running
confirm_all_conveyors_running-WaitsWell m w =
    ground (arith, apply_event-rejected m all_conveyors_running)

report_run_failed-WaitsWell : (m : MasterNode) → WaitsWell m → WaitsWell (report_run_failed m).0
unfolding report_run_failed
report_run_failed-WaitsWell m w = ground (
  arith,
  apply_event-WaitsWell m SystemFsm.start_failed w (inr refl),
  apply_event-WaitsWell m SystemFsm.resume_failed w (inr refl),
)

request_pause-WaitsWell :
    (m : MasterNode) (now : ℕ) → WaitsWell m → WaitsWell (request_pause m now).0
unfolding request_pause request_all_conveyors_stop
request_pause-WaitsWell m now w =
    ground (arith, apply_event-WaitsWell m SystemFsm.pause_request w (inr refl))

report_pause_failed-WaitsWell :
    (m : MasterNode) (timed_out : Bool) (now : ℕ)
    → WaitsWell m
    → WaitsWell (report_pause_failed m timed_out now).0
unfolding report_pause_failed request_all_conveyors_stop
report_pause_failed-WaitsWell m timed_out now w = ground (
  arith,
  apply_event-WaitsWell (record m { recovery_policy = equipment_check_required })
      SystemFsm.pause_timeout w (inr refl),
  apply_event-WaitsWell (record m { recovery_policy = equipment_check_required })
      SystemFsm.pause_failed w (inr refl),
)

report_estop_asserted-WaitsWell :
    (m : MasterNode) (now : ℕ) → WaitsWell m → WaitsWell (report_estop_asserted m now).0
unfolding report_estop_asserted request_all_conveyors_stop
report_estop_asserted-WaitsWell m now w = ground (
  arith,
  apply_event-WaitsWell
      (record m { recovery_policy = equipment_check_required; pending_run_confirmation = false })
      estop_asserted (inl refl) (inl refl),
)

latched-WaitsWell :
    (m : MasterNode) (policy : RecoveryPolicy) (now : ℕ)
    → WaitsWell m
    → WaitsWell (latched m policy now).0
unfolding latched request_all_conveyors_stop
latched-WaitsWell m policy now w = ground (
  arith,
  apply_event-WaitsWell (record m { recovery_policy = policy; pending_run_confirmation = false })
      critical_fault (inl refl) (inl refl),
)

request_reset-WaitsWell :
    (m : MasterNode) (now : ℕ) → WaitsWell m → WaitsWell (request_reset m now).0
unfolding request_reset advance_command_epoch
request_reset-WaitsWell m now w =
    ground (arith, apply_event-WaitsWell m SystemFsm.reset_request w (inr refl))

report_reset_succeeded-WaitsWell :
    (m : MasterNode) (line_cleared : Bool)
    → WaitsWell m
    → WaitsWell (report_reset_succeeded m line_cleared).0
unfolding report_reset_succeeded
report_reset_succeeded-WaitsWell m line_cleared w = ground (
  arith,
  apply_event-WaitsWell m SystemFsm.reset_succeeded_empty_line w (inr refl),
  apply_event-WaitsWell m SystemFsm.reset_succeeded_in_place w (inr refl),
)

report_reset_failed-WaitsWell :
    (m : MasterNode) (timed_out : Bool)
    → WaitsWell m
    → WaitsWell (report_reset_failed m timed_out).0
unfolding report_reset_failed
report_reset_failed-WaitsWell m timed_out w = ground (
  arith,
  apply_event-WaitsWell m SystemFsm.reset_timeout w (inr refl),
  apply_event-WaitsWell m SystemFsm.reset_failed w (inr refl),
)

pause_line-WaitsWell : (m : MasterNode) (now : ℕ) → WaitsWell m → WaitsWell (pause_line m now)
unfolding pause_line request_all_conveyors_stop
pause_line-WaitsWell m now w =
    ground (arith, apply_event-WaitsWell m SystemFsm.recoverable_device_fault w (inr refl))

confirm_line_cleared-WaitsWell :
    (m : MasterNode) (operator_id : String)
    → WaitsWell m
    → WaitsWell (confirm_line_cleared m operator_id).0
unfolding confirm_line_cleared
confirm_line_cleared-WaitsWell m operator_id w = ground (arith)

request_run-WaitsWell : (m : MasterNode) (now : ℕ) → WaitsWell m → WaitsWell (request_run m now).0
unfolding request_run request_conveyor_run
request_run-WaitsWell m now w = ground (
  arith,
  apply_event-rejected m start_request,
  apply_event-LeadsTo m start_request Constants.SystemState.ready start_request-LeadsTo,
)

request_resume-WaitsWell :
    (m : MasterNode) (automatic : Bool) (now : ℕ)
    → WaitsWell m
    → WaitsWell (request_resume m automatic now).0
unfolding request_resume request_conveyor_run
request_resume-WaitsWell m automatic now w = ground (
  arith,
  apply_event-rejected m resume_request,
  apply_event-LeadsTo m resume_request paused resume_request-LeadsTo,
  apply_event-rejected m device_recovered,
  apply_event-LeadsTo m device_recovered paused device_recovered-LeadsTo,
)

device_pause-WaitsWell :
    (m n : MasterNode) (reason : PauseReason) (now : ℕ) (done : Bool)
    → WaitsWell m
    → request_recoverable_device_pause m reason now ≡ some (n, done)
    → WaitsWell n
unfolding request_recoverable_device_pause request_all_conveyors_stop
device_pause-WaitsWell m n reason now done w h =
    ground (arith, apply_event-WaitsWell m SystemFsm.recoverable_device_fault w (inr refl))

report_critical_fault-WaitsWell :
    (m n : MasterNode) (policy : RecoveryPolicy) (now : ℕ) (done : Bool)
    → WaitsWell m
    → report_critical_fault m policy now ≡ some (n, done)
    → WaitsWell n
unfolding report_critical_fault
report_critical_fault-WaitsWell m n policy now done w h =
    ground (arith, latched-WaitsWell m policy now w)

update_equipment_snapshot-WaitsWell :
    (m : MasterNode) (u : EquipmentUpdate) (now : ℕ)
    → WaitsWell m
    → WaitsWell (update_equipment_snapshot m u now)
unfolding update_equipment_snapshot
update_equipment_snapshot-WaitsWell m u now w = ground (
  arith,
  report_estop_asserted-WaitsWell (record m { equipment = updated_equipment m.equipment u }) now w,
)

resume_after_queue_recovery-WaitsWell :
    (m : MasterNode) (now : ℕ) → WaitsWell m → WaitsWell (resume_after_queue_recovery m now)
unfolding resume_after_queue_recovery
resume_after_queue_recovery-WaitsWell m now w =
    ground (arith, request_resume-WaitsWell m true now w)

after_stop-WaitsWell : (m : MasterNode) (now : ℕ) → WaitsWell m → WaitsWell (after_stop m now)
unfolding finalize_shutdown_sequence
after_stop-WaitsWell m now w = ground (arith, resume_after_queue_recovery-WaitsWell m now w)

stop_entered-WaitsWell :
    (m : MasterNode) (now : ℕ)
    → WaitsWell m
    → WaitsWell (stop_entered now (apply_event m SystemFsm.all_conveyors_stopped))
stop_entered-WaitsWell m now w =
    let n = (apply_event m SystemFsm.all_conveyors_stopped).0 in
    let v = apply_event-WaitsWell m SystemFsm.all_conveyors_stopped w (inr refl) in
    ground (
      arith,
      v,
      after_stop-WaitsWell n now v,
      after_stop-WaitsWell (record n { health_state = Constants.NodeHealthState.ready }) now v,
    )

confirm_all_conveyors_stopped-WaitsWell :
    (m : MasterNode) (now : ℕ) → WaitsWell m → WaitsWell (confirm_all_conveyors_stopped m now)
unfolding confirm_all_conveyors_stopped
confirm_all_conveyors_stopped-WaitsWell m now w =
    let n = record m { equipment = mark_all_stopped m.equipment; pause_deadline_ns = 0 } in
    ground (
      arith,
      latched-WaitsWell n line_clear_required now w,
      stop_entered-WaitsWell n now w,
      after_stop-WaitsWell n now w,
    )

begin_shutdown_sequence-WaitsWell :
    (m : MasterNode) (now : ℕ) → WaitsWell m → WaitsWell (begin_shutdown_sequence m now)
unfolding begin_shutdown_sequence finalize_shutdown_sequence request_all_conveyors_stop
begin_shutdown_sequence-WaitsWell m now w =
    ground (arith, request_pause-WaitsWell (waiting m now) now w)

check_pause_deadline-WaitsWell :
    (m : MasterNode) (now : ℕ) → WaitsWell m → WaitsWell (check_pause_deadline m now)
unfolding check_pause_deadline
check_pause_deadline-WaitsWell m now w =
    ground (arith, report_pause_failed-WaitsWell (record m { pause_deadline_ns = 0 }) true now w)

check_run_deadline-WaitsWell :
    (m : MasterNode) (now : ℕ) → WaitsWell m → WaitsWell (check_run_deadline m now)
unfolding check_run_deadline
check_run_deadline-WaitsWell m now w =
    ground (arith, report_run_failed-WaitsWell (record m { run_confirmation_deadline_ns = 0 }) w)

check_shutdown_deadline-WaitsWell :
    (m : MasterNode) (now : ℕ) → WaitsWell m → WaitsWell (check_shutdown_deadline m now)
unfolding check_shutdown_deadline
check_shutdown_deadline-WaitsWell m now w = ground (
  arith,
  latched-WaitsWell (record m { shutdown_deadline_ns = 0; shutdown_phase = blocked })
      equipment_check_required now w,
)

check_line_deadlines-WaitsWell :
    (m : MasterNode) (now : ℕ) → WaitsWell m → WaitsWell (check_line_deadlines m now)
unfolding check_line_deadlines
check_line_deadlines-WaitsWell m now w =
    let v = check_pause_deadline-WaitsWell m now w in
    check_shutdown_deadline-WaitsWell (check_run_deadline (check_pause_deadline m now) now) now
      (check_run_deadline-WaitsWell (check_pause_deadline m now) now v)

request_shutdown-WaitsWell :
    (m : MasterNode) (now : ℕ) → WaitsWell m → WaitsWell (request_shutdown m now).0
unfolding request_shutdown
request_shutdown-WaitsWell m now w =
    ground (arith, begin_shutdown_sequence-WaitsWell (record m { shutdown_requested = true }) now w)

kept-WaitsWell :
    (m : MasterNode) (o : Option (MasterNode × Bool))
    → WaitsWell m
    → ((n : MasterNode) (done : Bool) → o ≡ some (n, done) → WaitsWell n)
    → WaitsWell (kept m o)
kept-WaitsWell m none w f = w
kept-WaitsWell m (some (n, done)) w f = f n done refl

pub call-WaitsWell : (m : MasterNode) (c : Call) (now : ℕ) → WaitsWell m → WaitsWell (call m c now)
unfolding call
call-WaitsWell m asks_run now w = request_run-WaitsWell m now w
call-WaitsWell m asks_pause now w = request_pause-WaitsWell m now w
call-WaitsWell m asks_reset now w = request_reset-WaitsWell m now w
call-WaitsWell m asks_shutdown now w = request_shutdown-WaitsWell m now w
call-WaitsWell m (asks_resume automatic) now w = request_resume-WaitsWell m automatic now w
call-WaitsWell m (asks_device_pause reason) now w =
    kept-WaitsWell m _ w (λ n done h. device_pause-WaitsWell m n reason now done w h)
call-WaitsWell m confirms_running now w = confirm_all_conveyors_running-WaitsWell m w
call-WaitsWell m confirms_stopped now w = confirm_all_conveyors_stopped-WaitsWell m now w
call-WaitsWell m run_failed now w = report_run_failed-WaitsWell m w
call-WaitsWell m (pause_failed timed_out) now w = report_pause_failed-WaitsWell m timed_out now w
call-WaitsWell m (reset_failed timed_out) now w = report_reset_failed-WaitsWell m timed_out w
call-WaitsWell m (reset_succeeded line_cleared) now w =
    report_reset_succeeded-WaitsWell m line_cleared w
call-WaitsWell m (faults policy) now w =
    kept-WaitsWell m _ w (λ n done h. report_critical_fault-WaitsWell m n policy now done w h)
call-WaitsWell m estop now w = report_estop_asserted-WaitsWell m now w
call-WaitsWell m pauses now w = pause_line-WaitsWell m now w
call-WaitsWell m queue_recovered now w = resume_after_queue_recovery-WaitsWell m now w
call-WaitsWell m deadlines now w = check_line_deadlines-WaitsWell m now w
call-WaitsWell m (equipment update) now w = update_equipment_snapshot-WaitsWell m update now w
call-WaitsWell m (confirms_line_cleared operator_id) now w =
    confirm_line_cleared-WaitsWell m operator_id w

-- Whatever calls the master gets, it waits for the confirmation of a run only in READY and in PAUSED,
-- if it does so at first.
pub calls-WaitsWell : (m : MasterNode) (cs : List (Call × ℕ)) → WaitsWell m → WaitsWell (calls m cs)
unfolding calls
calls-WaitsWell m [] w = w
calls-WaitsWell m ((c, now) ∷ cs) w = calls-WaitsWell (call m c now) cs (call-WaitsWell m c now w)
