-- ===== src/Master/Operation/Cancels.antt =====
-- master_node.py: only the end of a shutdown asks for the goals of the Actions to be cancelled, among the
-- calls that move the line between its states.
use ai_vision_inspection.Base.{ℕ, Bool, true, ◌≡◌, ◌⊎◌, inl, arith}
use ai_vision_inspection.Master.SystemFsm.{SystemEvent}
use ai_vision_inspection.Master.Operation.{
  RecoveryPolicy, ready_to_exit, MasterNode, apply_event, request_all_conveyors_stop,
  request_conveyor_run,
}
use ai_vision_inspection.Master.Operation.Requests.{
  request_run, confirm_all_conveyors_running, report_run_failed, request_pause,
  request_recoverable_device_pause, request_resume,
}
use ai_vision_inspection.Master.Operation.Recovery.{
  report_pause_failed, latched, report_critical_fault, report_estop_asserted, request_reset,
  advance_command_epoch, report_reset_succeeded, report_reset_failed, update_equipment_snapshot,
  confirm_line_cleared, EquipmentUpdate,
}
use ai_vision_inspection.Master.Operation.Deadlines.{
  resume_after_queue_recovery, finalize_shutdown_sequence, confirm_all_conveyors_stopped,
  pause_line, begin_shutdown_sequence, request_shutdown, check_pause_deadline, check_run_deadline,
  check_shutdown_deadline, check_line_deadlines,
}
use ai_vision_inspection.Master.Operation.Steps.{Call, call}

-- Nothing more is to be cancelled, unless the shutdown has ended.
abbrev pub AsksAtExit : MasterNode → MasterNode → Type 0
AsksAtExit m m' =
    (m'.goal_cancellations ≡ m.goal_cancellations) ⊎ (m'.shutdown_phase ≡ ready_to_exit)

latched-cancels :
    (m : MasterNode) (policy : RecoveryPolicy) (now : ℕ)
    → (latched m policy now).0.goal_cancellations ≡ m.goal_cancellations
unfolding latched apply_event request_all_conveyors_stop
latched-cancels m policy now = ground arith

request_resume-cancels :
    (m : MasterNode) (automatic : Bool) (now : ℕ)
    → (request_resume m automatic now).0.goal_cancellations ≡ m.goal_cancellations
unfolding request_resume apply_event request_conveyor_run
request_resume-cancels m automatic now = ground arith

resume_after-cancels :
    (m : MasterNode) (now : ℕ)
    → (resume_after_queue_recovery m now).goal_cancellations ≡ m.goal_cancellations
unfolding resume_after_queue_recovery
resume_after-cancels m now = ground (arith, request_resume-cancels m true now)

report_run_failed-cancels :
    (m : MasterNode) → (report_run_failed m).0.goal_cancellations ≡ m.goal_cancellations
unfolding report_run_failed apply_event
report_run_failed-cancels m = ground arith

report_pause_failed-cancels :
    (m : MasterNode) (timed_out : Bool) (now : ℕ)
    → (report_pause_failed m timed_out now).0.goal_cancellations ≡ m.goal_cancellations
unfolding report_pause_failed apply_event request_all_conveyors_stop
report_pause_failed-cancels m timed_out now = ground arith

request_pause-cancels :
    (m : MasterNode) (now : ℕ) → (request_pause m now).0.goal_cancellations ≡ m.goal_cancellations
unfolding request_pause apply_event request_all_conveyors_stop
request_pause-cancels m now = ground arith

snapshot-cancels :
    (m : MasterNode) (u : EquipmentUpdate) (now : ℕ)
    → (update_equipment_snapshot m u now).goal_cancellations ≡ m.goal_cancellations
unfolding update_equipment_snapshot report_estop_asserted apply_event request_all_conveyors_stop
snapshot-cancels m u now = ground arith

apply_event-cancels :
    (m : MasterNode) (e : SystemEvent)
    → (apply_event m e).0.goal_cancellations ≡ m.goal_cancellations
unfolding apply_event
apply_event-cancels m e = ground arith

check_line-cancels :
    (m : MasterNode) (now : ℕ)
    → (check_line_deadlines m now).goal_cancellations ≡ m.goal_cancellations
unfolding check_line_deadlines check_pause_deadline check_run_deadline check_shutdown_deadline
check_line-cancels m now =
    grind (arith, report_pause_failed-cancels, report_run_failed-cancels, latched-cancels)

finalize-AsksAtExit :
    (m : MasterNode) → (finalize_shutdown_sequence m).shutdown_phase ≡ ready_to_exit
unfolding finalize_shutdown_sequence
finalize-AsksAtExit m = ground arith

pub confirm_stopped-AsksAtExit :
    (m : MasterNode) (now : ℕ) → AsksAtExit m (confirm_all_conveyors_stopped m now)
unfolding confirm_all_conveyors_stopped
confirm_stopped-AsksAtExit m now =
    grind (arith, finalize-AsksAtExit, resume_after-cancels, apply_event-cancels, latched-cancels)

begin_shutdown-AsksAtExit :
    (m : MasterNode) (now : ℕ) → AsksAtExit m (begin_shutdown_sequence m now)
unfolding begin_shutdown_sequence request_all_conveyors_stop
begin_shutdown-AsksAtExit m now = grind (arith, request_pause-cancels, finalize-AsksAtExit)

-- A call of the operation asks for cancellations only when the shutdown ends in it.
pub call-AsksAtExit : (m : MasterNode) (c : Call) (now : ℕ) → AsksAtExit m (call m c now)
unfolding call request_run request_reset advance_command_epoch request_shutdown
    request_recoverable_device_pause confirm_all_conveyors_running pause_line report_reset_succeeded
    report_reset_failed report_critical_fault report_estop_asserted confirm_line_cleared apply_event
    request_all_conveyors_stop request_conveyor_run
call-AsksAtExit m Call.asks_run now = inl (ground arith)
call-AsksAtExit m Call.asks_pause now = inl (request_pause-cancels m now)
call-AsksAtExit m Call.asks_reset now = inl (ground arith)
call-AsksAtExit m Call.asks_shutdown now =
    ground (arith, begin_shutdown-AsksAtExit (record m { shutdown_requested = true }) now)
call-AsksAtExit m (Call.asks_resume automatic) now = inl (request_resume-cancels m automatic now)
call-AsksAtExit m (Call.asks_device_pause reason) now = inl (ground arith)
call-AsksAtExit m Call.confirms_running now = inl (ground arith)
call-AsksAtExit m Call.confirms_stopped now = confirm_stopped-AsksAtExit m now
call-AsksAtExit m Call.run_failed now = inl (report_run_failed-cancels m)
call-AsksAtExit m (Call.pause_failed timed_out) now =
    inl (report_pause_failed-cancels m timed_out now)
call-AsksAtExit m (Call.reset_failed timed_out) now = inl (ground arith)
call-AsksAtExit m (Call.reset_succeeded line_cleared) now = inl (ground arith)
call-AsksAtExit m (Call.faults policy) now =
    inl (ground (arith, λ (p : RecoveryPolicy). latched-cancels m p now))
call-AsksAtExit m Call.estop now = inl (ground arith)
call-AsksAtExit m Call.pauses now = inl (ground arith)
call-AsksAtExit m Call.queue_recovered now = inl (resume_after-cancels m now)
call-AsksAtExit m Call.deadlines now = inl (check_line-cancels m now)
call-AsksAtExit m (Call.equipment update) now = inl (snapshot-cancels m update now)
call-AsksAtExit m (Call.confirms_line_cleared operator_id) now = inl (ground arith)
