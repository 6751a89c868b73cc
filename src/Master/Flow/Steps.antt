-- ===== src/Master/Flow/Steps.antt =====
-- master_node.py: what can happen to the line, as one step function.
use ai_vision_inspection.Base.{ℕ, String, List, [], ◌∷◌, Option, Bool}
use ai_vision_inspection.Constants.{StationId}
use ai_vision_inspection.Master.Operation.Steps as Operation
use ai_vision_inspection.Master.Flow.{FlowNode}
use ai_vision_inspection.Master.Flow.Station.{PositionSettled, Sending, handle_position_settled}
use ai_vision_inspection.Master.Flow.Capture.{
  GoalResponse, CaptureResult, handle_capture_feedback, handle_capture_goal_response,
  handle_capture_result, confirm_conveyor_resumed,
}
use ai_vision_inspection.Master.Flow.Report.{
  StationMessage, handle_station_result, handle_station_failure,
}
use ai_vision_inspection.Master.Flow.Actuation.{
  ActuationResult, handle_actuation_goal_response, handle_actuation_result,
}
use ai_vision_inspection.Master.Flow.Entry.{SensorEvent, Fresh, handle_sensor_event}
use ai_vision_inspection.Master.Flow.Recovery.{Supply, confirm_running, operated}
use ai_vision_inspection.Master.Flow.Reset.{confirm_reset_completed, record_residency}
use ai_vision_inspection.Master.Flow.Timeout.{
  EquipmentState, QueueState, handle_equipment_state, handle_queue_state, check_operation_deadlines,
}

pub data Event (Score : Type 0) : Type 0 where
  sensor_event : SensorEvent → Fresh → Event Score
  position_settled : PositionSettled → String → Sending → Event Score
  capture_feedback : StationId → String → Bool → Event Score
  capture_response : StationId → String → GoalResponse → Event Score
  capture_result : StationId → String → Option CaptureResult → Event Score
  conveyor_resumed : String → StationId → Event Score
  station_result : StationMessage Score → Event Score
  station_failure : StationMessage Score → Event Score
  actuation_response : String → String → GoalResponse → Event Score
  actuation_result : String → String → Option ActuationResult → Event Score
  equipment_state : EquipmentState → Supply → Sending → Event Score
  queue_state : String → QueueState → Event Score
  all_running : Supply → Sending → Event Score
  reset_completed : Event Score
  vision_outage : Event Score
  deadlines : Event Score
  operation : Operation.Call → Event Score

-- The part of the node in Master/Operation changes by a call of its own, and a shutdown that ends
-- in it cancels the goals.
abbrev operate : FlowNode → Operation.Call → ℕ → FlowNode
operate n c now = operated n (Operation.call n.master c now)

module _ {Score : Type 0} where
  unfoldable pub step : FlowNode → Event Score → ℕ → FlowNode
  step n (sensor_event e fresh) now = handle_sensor_event n e fresh now
  step n (position_settled m command sending) now = handle_position_settled n m command sending now
  step n (capture_feedback s capture blocked) now = handle_capture_feedback n s capture blocked now
  step n (capture_response s capture r) now = handle_capture_goal_response n s capture r now
  step n (capture_result s capture r) now = handle_capture_result n s capture r now
  step n (conveyor_resumed id s) now = confirm_conveyor_resumed n id s now
  step n (station_result m) now = handle_station_result n m now
  step n (station_failure m) now = handle_station_failure n m now
  step n (actuation_response job command r) now = handle_actuation_goal_response n job command r now
  step n (actuation_result job command r) now = handle_actuation_result n job command r now
  step n (equipment_state e supply sending) now = handle_equipment_state n e supply sending now
  step n (queue_state session state) now = handle_queue_state n session state now
  step n (all_running supply sending) now = confirm_running n supply sending now
  step n reset_completed now = (confirm_reset_completed n now).0
  step n vision_outage now = record_residency n n.station_cycles
  step n deadlines now = check_operation_deadlines n now
  step n (operation c) now = operate n c now

  -- Events, each with the time of the clock.
  unfoldable pub steps : FlowNode → List (Event Score × ℕ) → FlowNode
  steps n [] = n
  steps n ((e, now) ∷ es) = steps (step n e now) es
