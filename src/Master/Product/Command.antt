-- ===== src/Master/Product/Command.antt =====
-- The calls that the master makes on one product, as data, and the context that each leaves
-- (product_flow.py; the recovery of a station is MasterNode._pause_station_for_recovery).
use ai_vision_inspection.Base.{ℕ, String, ℤ, List, [], ◌∷◌, if◌then◌else◌}
use ai_vision_inspection.Constants.{StationId}
use ai_vision_inspection.Master.Product.{
  ProductContext, StationDecision, Outcome, station, result_completed,
}
use ai_vision_inspection.Master.Product.Cycle.{
  record_sensor, begin_station_cycle, mark_position_settled, mark_capture_requested,
  reset_unfinished_station_cycle, mark_capture_succeeded, mark_capture_failed,
  promote_capture_completion_from_vision, mark_conveyor_resumed_after_capture,
}
use ai_vision_inspection.Master.Product.Skip.{
  request_station_b_skip, accept_sensor2, mark_station_b_skipped, bypass_station_b,
}
use ai_vision_inspection.Master.Product.Verdicts.{
  apply_station_result, record_station_failure, record_station_contract_failure, lock_at_sensor3,
  begin_actuation, mark_actuation_accepted, mark_actuation_completed,
}

pub data Command : Type 0 where
  sensor : ℕ → String → ℤ → Command
  begin_cycle : StationId → String → String → Command
  position_settled : StationId → String → Command
  capture_requested : StationId → String → String → Command
  recover : StationId → Command
  capture_succeeded : StationId → String → String → String → Command
  capture_failed : StationId → String → String → Command
  promote : StationId → Command
  resume : StationId → Command
  sensor2 : String → ℤ → Command
  request_skip : String → Command
  skip : String → Command
  bypass : String → Command
  result : StationDecision → Command
  failure : StationId → String → String → String → ℕ → String → Command
  contract_failure : StationId → String → Command
  lock : String → ℤ → Command
  actuate : String → String → Command
  actuation_accepted : String → Command
  actuation_completed : String → String → Command

-- After a station was interrupted: a station with a result counts as captured, any other starts
-- its cycle again.
unfoldable pub recover_station : ProductContext → StationId → Outcome (Unit {0})
unfolding promote_capture_completion_from_vision reset_unfinished_station_cycle
recover_station c id =
    if result_completed (station c id)
    then promote_capture_completion_from_vision c id
    else reset_unfinished_station_cycle c id

-- The context after a call, whether the call returns or raises.
unfoldable pub step : ProductContext → Command → ProductContext
unfolding record_sensor begin_station_cycle mark_position_settled mark_capture_requested
    recover_station mark_capture_succeeded mark_capture_failed
    promote_capture_completion_from_vision mark_conveyor_resumed_after_capture accept_sensor2
    request_station_b_skip mark_station_b_skipped bypass_station_b apply_station_result
    record_station_failure record_station_contract_failure lock_at_sensor3 begin_actuation
    mark_actuation_accepted mark_actuation_completed
step c (sensor index event_id at) = (record_sensor c index event_id at).0
step c (begin_cycle id command_id capture_id) = (begin_station_cycle c id command_id capture_id).0
step c (position_settled id command_id) = (mark_position_settled c id command_id).0
step c (capture_requested id capture_id command_id) =
    (mark_capture_requested c id capture_id command_id).0
step c (recover id) = (recover_station c id).0
step c (capture_succeeded id capture_id batch_id job_id) =
    (mark_capture_succeeded c id capture_id batch_id job_id).0
step c (capture_failed id capture_id reason) = (mark_capture_failed c id capture_id reason).0
step c (promote id) = (promote_capture_completion_from_vision c id).0
step c (resume id) = (mark_conveyor_resumed_after_capture c id).0
step c (sensor2 event_id at) = (accept_sensor2 c event_id at).0
step c (request_skip reason) = (request_station_b_skip c reason).0
step c (skip reason) = (mark_station_b_skipped c reason).0
step c (bypass reason) = (bypass_station_b c reason).0
step c (result d) = (apply_station_result c d).0
step c (failure id capture_id batch_id job_id revision reason) =
    (record_station_failure c id capture_id batch_id job_id revision reason).0
step c (contract_failure id reason) = (record_station_contract_failure c id reason).0
step c (lock event_id at) = (lock_at_sensor3 c event_id at).0
step c (actuate job_id command_id) = (begin_actuation c job_id command_id).0
step c (actuation_accepted command_id) = (mark_actuation_accepted c command_id).0
step c (actuation_completed command_id actuation_id) =
    (mark_actuation_completed c command_id actuation_id).0

unfoldable pub run : ProductContext → List Command → ProductContext
run c [] = c
run c (x ∷ xs) = run (step c x) xs
