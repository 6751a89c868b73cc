-- ===== src/Master/Flow/Latched.antt =====
-- master_node.py: the handlers of the products in FAULT_STOP.
use ai_vision_inspection.Base.{ℕ, String, ◌≡◌, arith}
use ai_vision_inspection.Constants.{fault_stop}
use ai_vision_inspection.Master.Flow.{FlowNode}
use ai_vision_inspection.Master.Flow.Station.{PositionSettled, Sending, handle_position_settled}
use ai_vision_inspection.Master.Flow.Capture.{
  handle_capture_feedback, handle_capture_goal_response, handle_capture_result,
  confirm_conveyor_resumed,
}
use ai_vision_inspection.Master.Flow.Report.{handle_station_result, handle_station_failure}
use ai_vision_inspection.Master.Flow.Actuation.{
  handle_actuation_goal_response, handle_actuation_result,
}
use ai_vision_inspection.Master.Flow.Entry.{
  SensorEvent, Fresh, handle_sensor1_entry, handle_sensor2_entry, handle_sensor3_entry,
  sensor_entry, handle_sensor_event,
}
use ai_vision_inspection.Master.Flow.Reset.{confirm_reset_completed, record_residency}
use ai_vision_inspection.Master.Flow.Timeout.{handle_queue_state}
use ai_vision_inspection.Master.Flow.Steps.{Event, step}
use ai_vision_inspection.Master.Flow.Frozen.{
  record_residency-Frozen, Frozen, faulted-Frozen, confirm_running-Frozen,
}
use ai_vision_inspection.Master.Flow.Preserved.{
  Preserved, Preserved-Frozen, operation-Preserved, check_operation_deadlines-Preserved,
  handle_equipment_state-Preserved,
}

handle_position_settled-Frozen :
    (n : FlowNode) (m : PositionSettled) (command : String) (sending : Sending) (now : ℕ)
    → n.master.system_state ≡ fault_stop
    → Frozen n (handle_position_settled n m command sending now)
unfolding handle_position_settled
handle_position_settled-Frozen n m command sending now h = ground (arith, faulted-Frozen n now)

sensor_entry-Frozen :
    (n : FlowNode) (index : ℕ) (e : SensorEvent) (fresh : Fresh) (now : ℕ)
    → n.master.system_state ≡ fault_stop
    → Frozen n (sensor_entry n index e fresh now)
unfolding sensor_entry handle_sensor1_entry handle_sensor2_entry handle_sensor3_entry
sensor_entry-Frozen n index e fresh now h = ground arith

handle_sensor_event-Frozen :
    (n : FlowNode) (e : SensorEvent) (fresh : Fresh) (now : ℕ)
    → n.master.system_state ≡ fault_stop
    → Frozen n (handle_sensor_event n e fresh now)
unfolding handle_sensor_event
handle_sensor_event-Frozen n e fresh now h = grind (arith, faulted-Frozen, sensor_entry-Frozen)

-- In FAULT_STOP no event changes the line, the cycles, what was put off or the buffer of verdicts. The
-- ledger stays as it is or is pruned of the contexts whose retention is over. No goal, verdict or
-- command to one conveyor is sent. If anything is sent for a product, the shutdown has ended, and it
-- is one cancellation for each capture whose goal the node holds, and for each actuation whose goal it
-- holds and that is not completed.
pub step-Preserved :
    {Score : Type 0} (n : FlowNode) (e : Event Score) (now : ℕ)
    → n.master.system_state ≡ fault_stop
    → Preserved n now (step n e now)
unfolding step handle_capture_feedback handle_capture_goal_response handle_capture_result
    confirm_conveyor_resumed handle_station_result handle_station_failure
    handle_actuation_goal_response handle_actuation_result handle_queue_state
    confirm_reset_completed
step-Preserved n (Event.sensor_event e fresh) now h =
    Preserved-Frozen n now (handle_sensor_event n e fresh now)
      (handle_sensor_event-Frozen n e fresh now h)
step-Preserved n (Event.position_settled m command sending) now h =
    Preserved-Frozen n now (handle_position_settled n m command sending now)
      (handle_position_settled-Frozen n m command sending now h)
step-Preserved n (Event.capture_feedback s capture blocked) now h = ground arith
step-Preserved n (Event.capture_response s capture r) now h = ground arith
step-Preserved n (Event.capture_result s capture r) now h = ground arith
step-Preserved n (Event.conveyor_resumed id s) now h = ground arith
step-Preserved n (Event.station_result m) now h = ground arith
step-Preserved n (Event.station_failure m) now h = ground arith
step-Preserved n (Event.actuation_response job command r) now h = ground arith
step-Preserved n (Event.actuation_result job command r) now h = ground arith
step-Preserved n (Event.equipment_state e supply sending) now h =
    handle_equipment_state-Preserved n e supply sending now h
step-Preserved n (Event.queue_state session state) now h = ground arith
step-Preserved n (Event.all_running supply sending) now h =
    ground (arith, confirm_running-Frozen n supply sending now h)
step-Preserved n Event.reset_completed now h = ground arith
step-Preserved n Event.vision_outage now h =
    Preserved-Frozen n now (record_residency n n.station_cycles)
      (record_residency-Frozen n.station_cycles n)
step-Preserved n Event.deadlines now h = check_operation_deadlines-Preserved n now h
step-Preserved n (Event.operation x) now h = operation-Preserved n x now
