-- ===== src/Master/Operation/Frame.antt =====
-- master_node.py: the requests and the faults of the line leave its products alone.
use ai_vision_inspection.Base.{ℕ, Bool, true, ◌≡◌, arith}
use ai_vision_inspection.Master.Operation.{
  MasterNode, apply_event, request_all_conveyors_stop, request_conveyor_run,
}
use ai_vision_inspection.Master.Operation.Requests.{
  request_run, confirm_all_conveyors_running, report_run_failed, request_pause,
  request_recoverable_device_pause, request_resume,
}
use ai_vision_inspection.Master.Operation.Recovery.{
  report_pause_failed, latched, report_critical_fault, report_estop_asserted, request_reset,
  advance_command_epoch, report_reset_succeeded, report_reset_failed, update_equipment_snapshot,
  confirm_line_cleared, EquipmentUpdate,
}
use ai_vision_inspection.Master.Operation.Deadlines.{
  resume_after_queue_recovery, finalize_shutdown_sequence, confirm_all_conveyors_stopped,
  pause_line, begin_shutdown_sequence, request_shutdown, check_pause_deadline, check_run_deadline,
  check_shutdown_deadline, check_line_deadlines,
}
use ai_vision_inspection.Master.Operation.Steps.{Call, call}
use ai_vision_inspection.Master.SystemFsm.{SystemEvent}
use ai_vision_inspection.Master.Operation.{RecoveryPolicy}

apply_event-ledger : (m : MasterNode) (e : SystemEvent) → (apply_event m e).0.ledger ≡ m.ledger
unfolding apply_event
apply_event-ledger m e = ground arith

stop-ledger : (m : MasterNode) (now : ℕ) → (request_all_conveyors_stop m now).ledger ≡ m.ledger
unfolding request_all_conveyors_stop
stop-ledger m now = ground arith

run-ledger : (m : MasterNode) (now : ℕ) → (request_conveyor_run m now).ledger ≡ m.ledger
unfolding request_conveyor_run
run-ledger m now = ground arith

pub latched-ledger :
    (m : MasterNode) (policy : RecoveryPolicy) (now : ℕ)
    → (latched m policy now).0.ledger ≡ m.ledger
unfolding latched apply_event request_all_conveyors_stop
latched-ledger m policy now = ground arith

request_resume-ledger :
    (m : MasterNode) (automatic : Bool) (now : ℕ)
    → (request_resume m automatic now).0.ledger ≡ m.ledger
unfolding request_resume apply_event request_conveyor_run
request_resume-ledger m automatic now = ground arith

pub resume_after-ledger :
    (m : MasterNode) (now : ℕ) → (resume_after_queue_recovery m now).ledger ≡ m.ledger
unfolding resume_after_queue_recovery
resume_after-ledger m now = ground (arith, request_resume-ledger m true now)

pub pause_line-ledger : (m : MasterNode) (now : ℕ) → (pause_line m now).ledger ≡ m.ledger
unfolding pause_line apply_event request_all_conveyors_stop
pause_line-ledger m now = ground arith

pub report_pause_failed-ledger :
    (m : MasterNode) (timed_out : Bool) (now : ℕ)
    → (report_pause_failed m timed_out now).0.ledger ≡ m.ledger
unfolding report_pause_failed apply_event request_all_conveyors_stop
report_pause_failed-ledger m timed_out now = ground arith

report_run_failed-ledger : (m : MasterNode) → (report_run_failed m).0.ledger ≡ m.ledger
unfolding report_run_failed apply_event
report_run_failed-ledger m = ground arith

request_pause-ledger : (m : MasterNode) (now : ℕ) → (request_pause m now).0.ledger ≡ m.ledger
unfolding request_pause apply_event request_all_conveyors_stop
request_pause-ledger m now = ground arith

finalize-ledger : (m : MasterNode) → (finalize_shutdown_sequence m).ledger ≡ m.ledger
unfolding finalize_shutdown_sequence
finalize-ledger m = ground arith

begin_shutdown-ledger :
    (m : MasterNode) (now : ℕ) → (begin_shutdown_sequence m now).ledger ≡ m.ledger
unfolding begin_shutdown_sequence
begin_shutdown-ledger m now = grind (arith, request_pause-ledger, stop-ledger, finalize-ledger)

pub confirm_stopped-ledger :
    (m : MasterNode) (now : ℕ) → (confirm_all_conveyors_stopped m now).ledger ≡ m.ledger
unfolding confirm_all_conveyors_stopped
confirm_stopped-ledger m now =
    grind (arith, finalize-ledger, resume_after-ledger, apply_event-ledger, latched-ledger)

check_pause-ledger : (m : MasterNode) (now : ℕ) → (check_pause_deadline m now).ledger ≡ m.ledger
unfolding check_pause_deadline
check_pause-ledger m now =
    ground (arith, report_pause_failed-ledger (record m { pause_deadline_ns = 0 }) true now)

check_run-ledger : (m : MasterNode) (now : ℕ) → (check_run_deadline m now).ledger ≡ m.ledger
unfolding check_run_deadline
check_run-ledger m now =
    ground (arith, report_run_failed-ledger (record m { run_confirmation_deadline_ns = 0 }))

check_shutdown-ledger :
    (m : MasterNode) (now : ℕ) → (check_shutdown_deadline m now).ledger ≡ m.ledger
unfolding check_shutdown_deadline
check_shutdown-ledger m now = grind (arith, latched-ledger)

pub check_line-ledger : (m : MasterNode) (now : ℕ) → (check_line_deadlines m now).ledger ≡ m.ledger
unfolding check_line_deadlines
check_line-ledger m now = ground (
  arith,
  check_pause-ledger m now,
  check_run-ledger (check_pause_deadline m now) now,
  check_shutdown-ledger (check_run_deadline (check_pause_deadline m now) now) now,
)

pub snapshot-ledger :
    (m : MasterNode) (u : EquipmentUpdate) (now : ℕ)
    → (update_equipment_snapshot m u now).ledger ≡ m.ledger
unfolding update_equipment_snapshot report_estop_asserted apply_event request_all_conveyors_stop
snapshot-ledger m u now = ground arith

pub confirm_running-ledger :
    (m : MasterNode) → (confirm_all_conveyors_running m).0.ledger ≡ m.ledger
unfolding confirm_all_conveyors_running apply_event
confirm_running-ledger m = ground arith

pub reset_succeeded-ledger :
    (m : MasterNode) (line_cleared : Bool)
    → (report_reset_succeeded m line_cleared).0.ledger ≡ m.ledger
unfolding report_reset_succeeded apply_event
reset_succeeded-ledger m line_cleared = ground arith

pub reset_failed-ledger :
    (m : MasterNode) (timed_out : Bool) → (report_reset_failed m timed_out).0.ledger ≡ m.ledger
unfolding report_reset_failed apply_event
reset_failed-ledger m timed_out = ground arith

request_run-ledger : (m : MasterNode) (now : ℕ) → (request_run m now).0.ledger ≡ m.ledger
unfolding request_run apply_event request_conveyor_run
request_run-ledger m now = ground arith

request_reset-ledger : (m : MasterNode) (now : ℕ) → (request_reset m now).0.ledger ≡ m.ledger
unfolding request_reset apply_event advance_command_epoch
request_reset-ledger m now = ground arith

-- No call of the operation touches the ledger.
pub call-ledger : (m : MasterNode) (c : Call) (now : ℕ) → (call m c now).ledger ≡ m.ledger
unfolding call request_shutdown request_recoverable_device_pause report_critical_fault
    report_estop_asserted confirm_line_cleared apply_event request_all_conveyors_stop
call-ledger m Call.asks_run now = request_run-ledger m now
call-ledger m Call.asks_pause now = request_pause-ledger m now
call-ledger m Call.asks_reset now = request_reset-ledger m now
call-ledger m Call.asks_shutdown now =
    ground (arith, begin_shutdown-ledger (record m { shutdown_requested = true }) now)
call-ledger m (Call.asks_resume automatic) now = request_resume-ledger m automatic now
call-ledger m (Call.asks_device_pause reason) now = ground arith
call-ledger m Call.confirms_running now = confirm_running-ledger m
call-ledger m Call.confirms_stopped now = confirm_stopped-ledger m now
call-ledger m Call.run_failed now = report_run_failed-ledger m
call-ledger m (Call.pause_failed timed_out) now = report_pause_failed-ledger m timed_out now
call-ledger m (Call.reset_failed timed_out) now = reset_failed-ledger m timed_out
call-ledger m (Call.reset_succeeded line_cleared) now = reset_succeeded-ledger m line_cleared
call-ledger m (Call.faults policy) now =
    ground (arith, λ (p : RecoveryPolicy). latched-ledger m p now)
call-ledger m Call.estop now = ground arith
call-ledger m Call.pauses now = pause_line-ledger m now
call-ledger m Call.queue_recovered now = resume_after-ledger m now
call-ledger m Call.deadlines now = check_line-ledger m now
call-ledger m (Call.equipment update) now = snapshot-ledger m update now
call-ledger m (Call.confirms_line_cleared operator_id) now = ground arith
