-- ===== src/Master/Flow/Cancel.antt =====
-- master_node.py: what a terminal result of Station A means for Station B.
use ai_vision_inspection.Base.{
  ℕ, String, Option, none, some, Bool, false, ◌&&◌, not, if◌then◌else◌, Result, ok, raise,
}
use ai_vision_inspection.Constants.{b, station_b_wait}
use ai_vision_inspection.Master.Product.{ProductContext, ProductError, result_completed}
use ai_vision_inspection.Master.Product.Cycle.{same, state_is}
use ai_vision_inspection.Master.Product.Skip.{mark_station_b_skipped}
use ai_vision_inspection.Master.Product.Command.{request_skip, skip, bypass, promote}
use ai_vision_inspection.Master.Flow.{
  StationCycle, resume_pending, FlowNode, station_a_terminal_ng, inference_canceled,
  capture_goal_canceled, cycle_at, phase_is, emit, context, applied,
}
use ai_vision_inspection.Master.Flow.Station.{resume_conveyor_after_capture}

-- `_publish_inference_cancellation` for Station B
abbrev cancel_inference : FlowNode → String → Option ProductContext → FlowNode
cancel_inference n id none = n
cancel_inference n id (some c) =
    emit n (inference_canceled id c.fifo_sequence (some b) station_a_terminal_ng)

abbrev says_true : Result ProductError Bool → Bool
says_true (ok v) = v
says_true (raise e) = false

abbrev skips : Option ProductContext → String → Bool
skips none reason = false
skips (some c) reason = says_true (mark_station_b_skipped c reason).1

abbrev has_result : Option ProductContext → Bool
has_result none = false
has_result (some c) = result_completed c.station_b

abbrev cancel_goal : FlowNode → StationCycle → FlowNode
cancel_goal n cycle =
    if cycle.has_goal_handle then emit n (capture_goal_canceled cycle.capture_id) else n

-- The product is in its cycle at Station B: it is skipped there, or keeps the result that it has.
unfoldable pub cancel_cycle : FlowNode → String → StationCycle → String → ℕ → FlowNode
cancel_cycle n id cycle reason now =
    let c = context n id in
    let n' = applied (cancel_goal n cycle) id (skip reason) in
    if skips c reason
    then resume_conveyor_after_capture n' id b now
    else if not (phase_is cycle resume_pending) && has_result c
    then resume_conveyor_after_capture (applied n' id (promote b)) id b now
    else n'

abbrev waits_at_b : Option ProductContext → Bool
waits_at_b none = false
waits_at_b (some c) = state_is c station_b_wait

unfoldable pub bypass_waiting : FlowNode → String → String → FlowNode
bypass_waiting n id reason = if waits_at_b (context n id) then applied n id (bypass reason) else n

unfoldable pub cancel_active : FlowNode → String → String → ℕ → FlowNode
cancel_active n id reason now = elim (cycle_at n b) [
  | none ↦ bypass_waiting n id reason
  | some cycle ↦
      if same cycle.product_id id
      then cancel_cycle n id cycle reason now
      else bypass_waiting n id reason
]

-- `_cancel_station_b_after_a_terminal`, for the product with the identifier.
unfoldable pub cancel_station_b_after_a_terminal : FlowNode → String → String → ℕ → FlowNode
cancel_station_b_after_a_terminal n id reason now =
    if not n.flow.skip_station_b_after_station_a_ng
    then n
    else let n' = applied n id (request_skip reason) in
      cancel_active (cancel_inference n' id (context n' id)) id reason now
