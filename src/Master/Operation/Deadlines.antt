-- ===== src/Master/Operation/Deadlines.antt =====
-- master_node.py: the confirmed stop of the line, the shutdown of the program and the deadlines of both.
-- The goals that the end of a shutdown cancels are those of Master/Flow, which compares a count. The
-- log events and flushing the log spool are left out.
use ai_vision_inspection.Base.{
  ℕ, ◌+◌, ◌*◌, Bool, true, false, ◌&&◌, ◌||◌, not, nat_eq, ltb, equals, if◌then◌else◌, Option, some,
}
use ai_vision_inspection.Constants.{
  degraded, SystemState, SystemState-discrete, run_sys, pausing, paused, fault_stop, PauseReason,
  operator, device_recovery_auto,
}
use ai_vision_inspection.Constants
use ai_vision_inspection.Master.SystemFsm
use ai_vision_inspection.Master.Equipment.{mark_all_stopped, all_conveyors_stopped}
use ai_vision_inspection.Master.Operation.{
  equipment_check_required, ShutdownPhase, ShutdownPhase-discrete, idle, waiting_stop,
  ready_to_exit, blocked, MasterNode, apply_event, request_all_conveyors_stop, fifo_aligned,
}
use ai_vision_inspection.Master.Operation.Requests.{
  report_run_failed, request_pause, pausing_for_device, request_resume,
}
use ai_vision_inspection.Master.Operation.Recovery.{report_pause_failed, latched, fault_stopped}

abbrev in_state : MasterNode → SystemState → Bool
in_state m s = equals SystemState-discrete m.system_state s

abbrev queue_resumed : MasterNode × Bool → MasterNode
queue_resumed (m, false) = m
queue_resumed (m, true) = record m { paused_by_queue = false; queue_recovered_pending = false }

unfoldable pub resume_after_queue_recovery : MasterNode → ℕ → MasterNode
resume_after_queue_recovery m now =
    if not (in_state m paused) then m else queue_resumed (request_resume m true now)

-- `_finalize_shutdown_sequence`
unfoldable pub finalize_shutdown_sequence : MasterNode → MasterNode
finalize_shutdown_sequence m = record m {
  shutdown_phase = ready_to_exit;
  shutdown_deadline_ns = elim (ShutdownPhase-discrete m.shutdown_phase ready_to_exit) [
    | yes _ ↦ m.shutdown_deadline_ns
    | no _ ↦ 0
  ];
  goal_cancellations = elim (ShutdownPhase-discrete m.shutdown_phase ready_to_exit) [
    | yes _ ↦ m.goal_cancellations
    | no _ ↦ m.goal_cancellations + 1
  ];
}

-- What follows the stop, whatever the state was.
abbrev pub after_stop : MasterNode → ℕ → MasterNode
after_stop m now =
    if m.shutdown_requested
    then finalize_shutdown_sequence m
    else if not (in_state m paused)
    then m
    else if m.paused_by_queue && m.queue_recovered_pending
    then resume_after_queue_recovery m now
    else m

abbrev pub stop_healthy : Option PauseReason → MasterNode → MasterNode
stop_healthy (some operator) m = record m { health_state = Constants.NodeHealthState.ready }
stop_healthy _ m = m

abbrev pub stop_entered : ℕ → MasterNode × Bool → MasterNode
stop_entered now (m, false) = m
stop_entered now (m, true) = after_stop (stop_healthy m.pause_reason m) now

unfoldable pub confirm_all_conveyors_stopped : MasterNode → ℕ → MasterNode
confirm_all_conveyors_stopped m now =
    let n = record m { equipment = mark_all_stopped m.equipment; pause_deadline_ns = 0 } in
    if in_state n pausing
    then (if not (fifo_aligned n)
        then fault_stopped n now
        else stop_entered now (apply_event n SystemFsm.all_conveyors_stopped))
    else after_stop n now

-- `_pause`
unfoldable pub pause_line : MasterNode → ℕ → MasterNode
pause_line m now =
    if in_state m pausing || in_state m paused || in_state m fault_stop
    then m
    else if in_state m run_sys
    then (pausing_for_device device_recovery_auto now
        (apply_event m SystemFsm.recoverable_device_fault)).0
    else record m { health_state = degraded }

abbrev pub waiting : MasterNode → ℕ → MasterNode
waiting m now = record m {
  shutdown_phase = waiting_stop;
  shutdown_deadline_ns = now + m.settings.shutdown_stop_timeout_ms * 1000000;
}

abbrev pause_or_blocked : MasterNode × Bool → MasterNode
pause_or_blocked (m, true) = m
pause_or_blocked (m, false) = record m { shutdown_phase = blocked }

-- `_begin_shutdown_sequence`
unfoldable pub begin_shutdown_sequence : MasterNode → ℕ → MasterNode
begin_shutdown_sequence m now = elim (ShutdownPhase-discrete m.shutdown_phase idle) [
  | no _ ↦ m
  | yes _ ↦
      if in_state m run_sys
      then pause_or_blocked (request_pause (waiting m now) now)
      else if in_state m pausing || not (all_conveyors_stopped m.equipment)
      then request_all_conveyors_stop (waiting m now) now
      else finalize_shutdown_sequence m
]

unfoldable pub request_shutdown : MasterNode → ℕ → MasterNode × Bool
request_shutdown m now =
    if m.shutdown_requested
    then (m, false)
    else (begin_shutdown_sequence (record m { shutdown_requested = true }) now, true)

-- A deadline of 0 is none.
abbrev passed : ℕ → ℕ → Bool
passed deadline now = not (nat_eq deadline 0) && ltb deadline now

unfoldable pub check_pause_deadline : MasterNode → ℕ → MasterNode
check_pause_deadline m now =
    if passed m.pause_deadline_ns now && in_state m pausing
    then (report_pause_failed (record m { pause_deadline_ns = 0 }) true now).0
    else m

unfoldable pub check_run_deadline : MasterNode → ℕ → MasterNode
check_run_deadline m now =
    if passed m.run_confirmation_deadline_ns now && m.pending_run_confirmation
    then (report_run_failed (record m { run_confirmation_deadline_ns = 0 })).0
    else m

abbrev is_waiting : ShutdownPhase → Bool
is_waiting waiting_stop = true
is_waiting _ = false

unfoldable pub check_shutdown_deadline : MasterNode → ℕ → MasterNode
check_shutdown_deadline m now =
    if passed m.shutdown_deadline_ns now && is_waiting m.shutdown_phase
    then (latched (record m { shutdown_deadline_ns = 0; shutdown_phase = blocked })
        equipment_check_required now).0
    else m

-- The deadlines of the line in `_check_operation_deadlines`, before those of the products.
unfoldable pub check_line_deadlines : MasterNode → ℕ → MasterNode
check_line_deadlines m now =
    check_shutdown_deadline (check_run_deadline (check_pause_deadline m now) now) now
