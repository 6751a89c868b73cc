-- ===== src/Master/Operation/Ending.antt =====
-- master_node.py: the shutdown does not end without the cancellation of the goals of the Actions, among the
-- calls that move the line between its states.
use ai_vision_inspection.Base.{ℕ, Bool, true, false, Option, refl, ◌+◌, ◌≡◌, ◌≢◌, ◌⊎◌, inl, arith}
use ai_vision_inspection.Constants.{PauseReason}
use ai_vision_inspection.Master.SystemFsm
use ai_vision_inspection.Master.SystemFsm.{SystemEvent}
use ai_vision_inspection.Master.Equipment.{mark_all_stopped}
use ai_vision_inspection.Master.Operation.{
  RecoveryPolicy, line_clear_required, ready_to_exit, MasterNode, apply_event,
  request_all_conveyors_stop, request_conveyor_run,
}
use ai_vision_inspection.Master.Operation.Requests.{
  request_run, confirm_all_conveyors_running, report_run_failed, request_pause,
  request_recoverable_device_pause, request_resume,
}
use ai_vision_inspection.Master.Operation.Recovery.{
  report_pause_failed, latched, report_critical_fault, report_estop_asserted, request_reset,
  advance_command_epoch, report_reset_succeeded, report_reset_failed, update_equipment_snapshot,
  confirm_line_cleared, EquipmentUpdate,
}
use ai_vision_inspection.Master.Operation.Deadlines.{
  resume_after_queue_recovery, after_stop, stop_healthy, stop_entered, finalize_shutdown_sequence,
  confirm_all_conveyors_stopped, pause_line, begin_shutdown_sequence, request_shutdown,
  check_pause_deadline, check_run_deadline, check_shutdown_deadline, check_line_deadlines,
}
use ai_vision_inspection.Master.Operation.Steps.{Call, call}

-- The shutdown has not ended, or the goals were cancelled once.
abbrev pub EndsCancelled : MasterNode → MasterNode → Type 0
EndsCancelled m m' =
    (m'.shutdown_phase ≢ ready_to_exit) ⊎ (m'.goal_cancellations ≡ m.goal_cancellations + 1)

latched-phase :
    (m : MasterNode) (policy : RecoveryPolicy) (now : ℕ)
    → (latched m policy now).0.shutdown_phase ≡ m.shutdown_phase
unfolding latched apply_event request_all_conveyors_stop
latched-phase m policy now = ground arith

request_resume-phase :
    (m : MasterNode) (automatic : Bool) (now : ℕ)
    → (request_resume m automatic now).0.shutdown_phase ≡ m.shutdown_phase
unfolding request_resume apply_event request_conveyor_run
request_resume-phase m automatic now = ground arith

resume_after-phase :
    (m : MasterNode) (now : ℕ)
    → (resume_after_queue_recovery m now).shutdown_phase ≡ m.shutdown_phase
unfolding resume_after_queue_recovery
resume_after-phase m now = ground (arith, request_resume-phase m true now)

report_run_failed-phase :
    (m : MasterNode) → (report_run_failed m).0.shutdown_phase ≡ m.shutdown_phase
unfolding report_run_failed apply_event
report_run_failed-phase m = ground arith

report_pause_failed-phase :
    (m : MasterNode) (timed_out : Bool) (now : ℕ)
    → (report_pause_failed m timed_out now).0.shutdown_phase ≡ m.shutdown_phase
unfolding report_pause_failed apply_event request_all_conveyors_stop
report_pause_failed-phase m timed_out now = ground arith

request_pause-phase :
    (m : MasterNode) (now : ℕ) → (request_pause m now).0.shutdown_phase ≡ m.shutdown_phase
unfolding request_pause apply_event request_all_conveyors_stop
request_pause-phase m now = ground arith

snapshot-phase :
    (m : MasterNode) (u : EquipmentUpdate) (now : ℕ)
    → (update_equipment_snapshot m u now).shutdown_phase ≡ m.shutdown_phase
unfolding update_equipment_snapshot report_estop_asserted apply_event request_all_conveyors_stop
snapshot-phase m u now = ground arith

apply_event-phase :
    (m : MasterNode) (e : SystemEvent) → (apply_event m e).0.shutdown_phase ≡ m.shutdown_phase
unfolding apply_event
apply_event-phase m e = ground arith

check_line-EndsCancelled :
    (m : MasterNode) (now : ℕ)
    → m.shutdown_phase ≢ ready_to_exit
    → EndsCancelled m (check_line_deadlines m now)
unfolding check_line_deadlines check_pause_deadline check_run_deadline check_shutdown_deadline
check_line-EndsCancelled m now h =
    inl (grind (arith, report_pause_failed-phase, report_run_failed-phase, latched-phase))

finalize-cancels :
    (m : MasterNode)
    → m.shutdown_phase ≢ ready_to_exit
    → (finalize_shutdown_sequence m).goal_cancellations ≡ m.goal_cancellations + 1
unfolding finalize_shutdown_sequence
finalize-cancels m h = ground arith

apply_event-cancels :
    (m : MasterNode) (e : SystemEvent)
    → (apply_event m e).0.goal_cancellations ≡ m.goal_cancellations
unfolding apply_event
apply_event-cancels m e = ground arith

-- The calls before have changed neither the phase nor the goals.
abbrev SameEnd : MasterNode → MasterNode → Type 0
SameEnd m m' =
    (m'.shutdown_phase ≡ m.shutdown_phase) × (m'.goal_cancellations ≡ m.goal_cancellations)

after_stop-EndsCancelled :
    (m m' : MasterNode) (now : ℕ)
    → m.shutdown_phase ≢ ready_to_exit
    → SameEnd m m'
    → EndsCancelled m (after_stop m' now)
unfolding finalize_shutdown_sequence
after_stop-EndsCancelled m m' now h s = ground (arith, resume_after-phase m' now)

stop_healthy-SameEnd :
    (m m' : MasterNode) (r : Option PauseReason) → SameEnd m m' → SameEnd m (stop_healthy r m')
stop_healthy-SameEnd m m' r s = ground arith

stop_entered-EndsCancelled :
    (m : MasterNode) (x : MasterNode × Bool) (now : ℕ)
    → m.shutdown_phase ≢ ready_to_exit
    → SameEnd m x.0
    → EndsCancelled m (stop_entered now x)
stop_entered-EndsCancelled m (m', false) now h s = inl (ground arith)
stop_entered-EndsCancelled m (m', true) now h s =
    after_stop-EndsCancelled m (stop_healthy m'.pause_reason m') now h
      (stop_healthy-SameEnd m m' m'.pause_reason s)

confirm_stopped-EndsCancelled :
    (m : MasterNode) (now : ℕ)
    → m.shutdown_phase ≢ ready_to_exit
    → EndsCancelled m (confirm_all_conveyors_stopped m now)
unfolding confirm_all_conveyors_stopped
confirm_stopped-EndsCancelled m now h =
    let n = record m { equipment = mark_all_stopped m.equipment; pause_deadline_ns = 0 } in
    let x = apply_event n SystemFsm.all_conveyors_stopped in
    ground (
      arith,
      latched-phase n line_clear_required now,
      after_stop-EndsCancelled m n now h (refl, refl),
      stop_entered-EndsCancelled m x now h (
        apply_event-phase n SystemFsm.all_conveyors_stopped,
        apply_event-cancels n SystemFsm.all_conveyors_stopped,
      ),
    )

begin_shutdown-EndsCancelled :
    (m : MasterNode) (now : ℕ)
    → m.shutdown_phase ≢ ready_to_exit
    → EndsCancelled m (begin_shutdown_sequence m now)
unfolding begin_shutdown_sequence request_all_conveyors_stop
begin_shutdown-EndsCancelled m now h = grind (arith, request_pause-phase, finalize-cancels)

-- A call in which the shutdown ends cancels the goals.
pub call-EndsCancelled :
    (m : MasterNode) (c : Call) (now : ℕ)
    → m.shutdown_phase ≢ ready_to_exit
    → EndsCancelled m (call m c now)
unfolding call request_run request_reset advance_command_epoch request_shutdown
    request_recoverable_device_pause confirm_all_conveyors_running pause_line report_reset_succeeded
    report_reset_failed report_critical_fault report_estop_asserted confirm_line_cleared apply_event
    request_all_conveyors_stop request_conveyor_run
call-EndsCancelled m Call.asks_run now h = inl (ground arith)
call-EndsCancelled m Call.asks_pause now h = inl (ground (arith, request_pause-phase m now))
call-EndsCancelled m Call.asks_reset now h = inl (ground arith)
call-EndsCancelled m Call.asks_shutdown now h =
    ground (arith, begin_shutdown-EndsCancelled (record m { shutdown_requested = true }) now h)
call-EndsCancelled m (Call.asks_resume automatic) now h =
    inl (ground (arith, request_resume-phase m automatic now))
call-EndsCancelled m (Call.asks_device_pause reason) now h = inl (ground arith)
call-EndsCancelled m Call.confirms_running now h = inl (ground arith)
call-EndsCancelled m Call.confirms_stopped now h = confirm_stopped-EndsCancelled m now h
call-EndsCancelled m Call.run_failed now h = inl (ground (arith, report_run_failed-phase m))
call-EndsCancelled m (Call.pause_failed timed_out) now h =
    inl (ground (arith, report_pause_failed-phase m timed_out now))
call-EndsCancelled m (Call.reset_failed timed_out) now h = inl (ground arith)
call-EndsCancelled m (Call.reset_succeeded line_cleared) now h = inl (ground arith)
call-EndsCancelled m (Call.faults policy) now h =
    inl (ground (arith, λ (p : RecoveryPolicy). latched-phase m p now))
call-EndsCancelled m Call.estop now h = inl (ground arith)
call-EndsCancelled m Call.pauses now h = inl (ground arith)
call-EndsCancelled m Call.queue_recovered now h = inl (ground (arith, resume_after-phase m now))
call-EndsCancelled m Call.deadlines now h = check_line-EndsCancelled m now h
call-EndsCancelled m (Call.equipment update) now h =
    inl (ground (arith, snapshot-phase m update now))
call-EndsCancelled m (Call.confirms_line_cleared operator_id) now h = inl (ground arith)
