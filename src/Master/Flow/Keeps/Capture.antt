-- ===== src/Master/Flow/Keeps/Capture.antt =====
-- master_node.py: the ledger after the answers of a capture and after a cancellation of Station B.
use ai_vision_inspection.Base.{ℕ, String, Option, Bool, arith}
use ai_vision_inspection.Constants.{StationId}
use ai_vision_inspection.Master.Ledger.{Ledger}
use ai_vision_inspection.Master.Operation.{MasterNode}
use ai_vision_inspection.Master.Operation.Frame.{pause_line-ledger}
use ai_vision_inspection.Master.Flow.{FlowNode, StationCycle}
use ai_vision_inspection.Master.Flow.Cancel.{
  cancel_cycle, bypass_waiting, cancel_active, cancel_station_b_after_a_terminal,
}
use ai_vision_inspection.Master.Flow.Capture.{
  handle_capture_feedback, GoalResponse, capture_accepted, handle_capture_goal_response,
  CaptureResult, capture_failure_applied, finish_capture_failure, capture_success, capture_finished,
  handle_capture_result, resume_cycle, confirm_conveyor_resumed,
}
use ai_vision_inspection.Master.Flow.Keeps.{IsKept, update-kept, faulted-kept, device_paused-kept}
use ai_vision_inspection.Master.Flow.Keeps.Station.{
  resume_conveyor_after_capture-kept, pause_station_for_recovery-kept,
}

module _ (P : Ledger → Type 0) (k : IsKept P) where
  cancel_cycle-kept :
      (n : FlowNode) (id : String) (cycle : StationCycle) (reason : String) (now : ℕ)
      → P n.master.ledger
      → P (cancel_cycle n id cycle reason now).master.ledger
  unfolding cancel_cycle
  cancel_cycle-kept n id cycle reason now h =
      grind (arith, update-kept P k, resume_conveyor_after_capture-kept P k)

  bypass_waiting-kept :
      (n : FlowNode) (id : String) (reason : String)
      → P n.master.ledger
      → P (bypass_waiting n id reason).master.ledger
  unfolding bypass_waiting
  bypass_waiting-kept n id reason h = grind (arith, update-kept P k)

  cancel_active-kept :
      (n : FlowNode) (id : String) (reason : String) (now : ℕ)
      → P n.master.ledger
      → P (cancel_active n id reason now).master.ledger
  unfolding cancel_active
  cancel_active-kept n id reason now h = grind (arith, bypass_waiting-kept, cancel_cycle-kept)

  pub cancel_station_b_after_a_terminal-kept :
      (n : FlowNode) (id : String) (reason : String) (now : ℕ)
      → P n.master.ledger
      → P (cancel_station_b_after_a_terminal n id reason now).master.ledger
  unfolding cancel_station_b_after_a_terminal
  cancel_station_b_after_a_terminal-kept n id reason now h =
      grind (arith, update-kept P k, cancel_active-kept)

  pub handle_capture_feedback-kept :
      (n : FlowNode) (s : StationId) (capture : String) (blocked : Bool) (now : ℕ)
      → P n.master.ledger
      → P (handle_capture_feedback n s capture blocked now).master.ledger
  unfolding handle_capture_feedback
  handle_capture_feedback-kept n s capture blocked now h =
      grind (arith, λ (m : MasterNode) (t : ℕ). pause_line-ledger m t)

  capture_accepted-kept :
      (n : FlowNode) (cycle : StationCycle) (s : StationId)
      → P n.master.ledger
      → P (capture_accepted n cycle s).master.ledger
  unfolding capture_accepted
  capture_accepted-kept n cycle s h = grind (arith)

  pub handle_capture_goal_response-kept :
      (n : FlowNode) (s : StationId) (capture : String) (response : GoalResponse) (now : ℕ)
      → P n.master.ledger
      → P (handle_capture_goal_response n s capture response now).master.ledger
  unfolding handle_capture_goal_response
  handle_capture_goal_response-kept n s capture response now h =
      grind (arith, capture_accepted-kept, pause_station_for_recovery-kept P k)

  capture_failure_applied-kept :
      (n : FlowNode) (cycle : StationCycle) (s : StationId) (reason : String) (error_code : ℕ)
      (now : ℕ)
      → P n.master.ledger
      → P (capture_failure_applied n cycle s reason error_code now).master.ledger
  unfolding capture_failure_applied
  capture_failure_applied-kept n cycle s reason error_code now h = grind (
    arith,
    device_paused-kept P k,
    resume_conveyor_after_capture-kept P k,
    cancel_station_b_after_a_terminal-kept,
  )

  pub finish_capture_failure-kept :
      (n : FlowNode) (cycle : StationCycle) (s : StationId) (reason : String) (error_code : ℕ)
      (now : ℕ)
      → P n.master.ledger
      → P (finish_capture_failure n cycle s reason error_code now).master.ledger
  unfolding finish_capture_failure
  finish_capture_failure-kept n cycle s reason error_code now h =
      grind (arith, update-kept P k, faulted-kept P k, capture_failure_applied-kept)

  capture_success-kept :
      (n : FlowNode) (cycle : StationCycle) (s : StationId) (r : CaptureResult) (now : ℕ)
      → P n.master.ledger
      → P (capture_success n cycle s r now).master.ledger
  unfolding capture_success
  capture_success-kept n cycle s r now h = grind (
    arith,
    update-kept P k,
    faulted-kept P k,
    resume_conveyor_after_capture-kept P k,
    finish_capture_failure-kept,
  )

  capture_finished-kept :
      (n : FlowNode) (cycle : StationCycle) (s : StationId) (r : CaptureResult) (now : ℕ)
      → P n.master.ledger
      → P (capture_finished n cycle s r now).master.ledger
  unfolding capture_finished
  capture_finished-kept n cycle s r now h = grind (
    arith,
    faulted-kept P k,
    resume_conveyor_after_capture-kept P k,
    finish_capture_failure-kept,
    capture_success-kept,
  )

  pub handle_capture_result-kept :
      (n : FlowNode) (s : StationId) (capture : String) (result : Option CaptureResult) (now : ℕ)
      → P n.master.ledger
      → P (handle_capture_result n s capture result now).master.ledger
  unfolding handle_capture_result
  handle_capture_result-kept n s capture result now h =
      grind (arith, pause_station_for_recovery-kept P k, capture_finished-kept)

  resume_cycle-kept :
      (n : FlowNode) (cycle : StationCycle) (s : StationId) (now : ℕ)
      → P n.master.ledger
      → P (resume_cycle n cycle s now).master.ledger
  unfolding resume_cycle
  resume_cycle-kept n cycle s now h = grind (arith, update-kept P k, faulted-kept P k)

  pub confirm_conveyor_resumed-kept :
      (n : FlowNode) (id : String) (s : StationId) (now : ℕ)
      → P n.master.ledger
      → P (confirm_conveyor_resumed n id s now).master.ledger
  unfolding confirm_conveyor_resumed
  confirm_conveyor_resumed-kept n id s now h = grind (arith, resume_cycle-kept)
