-- ===== src/Master/Operation/Steps.antt =====
-- master_node.py: the calls that move the line between its states, as one step function.
use ai_vision_inspection.Base.{ℕ, String, Bool, List, [], ◌∷◌, Option, none, some}
use ai_vision_inspection.Constants.{PauseReason}
use ai_vision_inspection.Master.Operation.{RecoveryPolicy, MasterNode}
use ai_vision_inspection.Master.Operation.Requests.{
  request_run, confirm_all_conveyors_running, report_run_failed, request_pause,
  request_recoverable_device_pause, request_resume,
}
use ai_vision_inspection.Master.Operation.Recovery.{
  report_pause_failed, report_critical_fault, report_estop_asserted, request_reset,
  report_reset_succeeded, report_reset_failed, EquipmentUpdate, update_equipment_snapshot,
  confirm_line_cleared,
}
use ai_vision_inspection.Master.Operation.Deadlines.{
  resume_after_queue_recovery, confirm_all_conveyors_stopped, pause_line, request_shutdown,
  check_line_deadlines,
}

pub data Call : Type 0 where
  asks_run asks_pause asks_reset asks_shutdown : Call
  asks_resume : (automatic : Bool) → Call
  asks_device_pause : PauseReason → Call
  confirms_running confirms_stopped run_failed : Call
  pause_failed reset_failed : (timed_out : Bool) → Call
  reset_succeeded : (line_cleared : Bool) → Call
  faults : RecoveryPolicy → Call
  estop pauses queue_recovered deadlines : Call
  equipment : EquipmentUpdate → Call
  confirms_line_cleared : String → Call

-- The state after a call; one that raises changes nothing.
abbrev pub kept : MasterNode → Option (MasterNode × Bool) → MasterNode
kept m none = m
kept m (some r) = r.0

unfoldable pub call : MasterNode → Call → ℕ → MasterNode
call m asks_run now = (request_run m now).0
call m asks_pause now = (request_pause m now).0
call m asks_reset now = (request_reset m now).0
call m asks_shutdown now = (request_shutdown m now).0
call m (asks_resume automatic) now = (request_resume m automatic now).0
call m (asks_device_pause reason) now = kept m (request_recoverable_device_pause m reason now)
call m confirms_running now = (confirm_all_conveyors_running m).0
call m confirms_stopped now = confirm_all_conveyors_stopped m now
call m run_failed now = (report_run_failed m).0
call m (pause_failed timed_out) now = (report_pause_failed m timed_out now).0
call m (reset_failed timed_out) now = (report_reset_failed m timed_out).0
call m (reset_succeeded line_cleared) now = (report_reset_succeeded m line_cleared).0
call m (faults policy) now = kept m (report_critical_fault m policy now)
call m estop now = (report_estop_asserted m now).0
call m pauses now = pause_line m now
call m queue_recovered now = resume_after_queue_recovery m now
call m deadlines now = check_line_deadlines m now
call m (equipment update) now = update_equipment_snapshot m update now
call m (confirms_line_cleared operator_id) now = (confirm_line_cleared m operator_id).0

-- Calls, each with the time of the clock.
unfoldable pub calls : MasterNode → List (Call × ℕ) → MasterNode
calls m [] = m
calls m ((c, now) ∷ cs) = calls (call m c now) cs
