-- ===== src/Master/Product/Cycle.antt =====
-- The methods of ProductContext that move a product along the line (product_flow.py).
use ai_vision_inspection.Base.{
  ℕ, String, String-discrete, ℕ_discrete, ℤ, Option, none, some, Bool, true, ◌&&◌, ◌||◌, not,
  is_some, is_empty, equals, if◌then◌else◌, ok, raise,
}
use ai_vision_inspection.Base.Dict
use ai_vision_inspection.Constants.{
  ProductPhysicalState, ProductPhysicalState-discrete, station_a_wait, station_a_done, flipping,
  station_b_wait, station_b_done, sensor3_wait, flip_transfer, lower_to_sensor3, StationId, a, b,
}
use ai_vision_inspection.Master.Product.{
  ProductContext, StationInspection, StationProcessState, StationProcessState-discrete, pending,
  positioning, position_settled, capture_requested, capture_completed, failed, flow_error,
  identity_conflict, Outcome, touch, station, set_station, new_station, result_completed,
}

abbrev pub phase_is : StationInspection → StationProcessState → Bool
phase_is s p = equals StationProcessState-discrete s.process_state p

abbrev pub state_is : ProductContext → ProductPhysicalState → Bool
state_is c p = equals ProductPhysicalState-discrete c.physical_state p

abbrev pub same : String → String → Bool
same = equals String-discrete

abbrev waiting_at : StationId → ProductPhysicalState
waiting_at a = station_a_wait
waiting_at b = station_b_wait

abbrev pub done_at : StationId → ProductPhysicalState
done_at a = station_a_done
done_at b = station_b_done

noted : ProductContext → ℕ → String → ℤ → Option String → Outcome (Unit {0})
noted c index event step (some previous) =
    if same previous event then (c, ok tt) else (c, raise identity_conflict)
noted c index event step none = (
  touch (record c {
    sensor_event_ids = Dict.put ℕ_discrete index event c.sensor_event_ids;
    sensor_steps = Dict.put ℕ_discrete index step c.sensor_steps;
  }),
  ok tt,
)

unfoldable pub record_sensor : ProductContext → ℕ → String → ℤ → Outcome (Unit {0})
unfolding noted
record_sensor c index event step =
    noted c index event step (Dict.get ℕ_discrete index c.sensor_event_ids)

unfoldable pub begin_station_cycle :
    ProductContext → StationId → String → String → Outcome (Unit {0})
begin_station_cycle c id position_command_id capture_id =
    let s = station c id in
    if not (state_is c (waiting_at id))
    then (c, raise flow_error)
    else if not (phase_is s pending)
    then (c, raise flow_error)
    else (
      touch (
          set_station c id (record s {
            process_state = positioning;
            position_command_id = position_command_id;
            capture_id = capture_id;
          })),
      ok tt,
    )

unfoldable pub mark_position_settled : ProductContext → StationId → String → Outcome (Unit {0})
mark_position_settled c id position_command_id =
    let s = station c id in
    if not (same s.position_command_id position_command_id)
    then (c, raise identity_conflict)
    else if s.position_settled
    then (c, ok tt)
    else if not (phase_is s positioning)
    then (c, raise flow_error)
    else (
      touch (
          set_station c id
            (record s { position_settled = true; process_state = position_settled })),
      ok tt,
    )

abbrev pub can_request_capture : ProductContext → StationId → Bool
can_request_capture c id = let s = station c id in s.position_settled && phase_is s position_settled

unfoldable pub mark_capture_requested :
    ProductContext → StationId → String → String → Outcome (Unit {0})
mark_capture_requested c id capture_id command_id =
    let s = station c id in
    if not (same s.capture_id capture_id)
    then (c, raise identity_conflict)
    else if phase_is s capture_requested
    then (if same s.capture_command_id command_id then (c, ok tt) else (c, raise identity_conflict))
    else if not (can_request_capture c id)
    then (c, raise flow_error)
    else (
      touch (
          set_station c id
            (record s { capture_command_id = command_id; process_state = capture_requested })),
      ok tt,
    )

unfoldable pub reset_unfinished_station_cycle : ProductContext → StationId → Outcome (Unit {0})
reset_unfinished_station_cycle c id =
    let s = station c id in
    if s.capture_succeeded || s.failed || is_some s.decision
    then (c, raise flow_error)
    else (touch (set_station c id (new_station id)), ok tt)

unfoldable pub mark_capture_succeeded :
    ProductContext → StationId → String → String → String → Outcome (Unit {0})
mark_capture_succeeded c id capture_id frame_batch_id inference_job_id =
    let s = station c id in
    if not (same s.capture_id capture_id)
    then (c, raise identity_conflict)
    else if not (is_empty s.frame_batch_id) && not (same s.frame_batch_id frame_batch_id)
    then (c, raise identity_conflict)
    else if not (is_empty s.inference_job_id) && not (same s.inference_job_id inference_job_id)
    then (c, raise identity_conflict)
    else (
      touch
          (record (set_station c id (record s {
            capture_succeeded = true;
            frame_batch_id = frame_batch_id;
            inference_job_id = inference_job_id;
            process_state = capture_completed;
          })) { physical_state = done_at id }),
      ok tt,
    )

unfoldable pub mark_capture_failed :
    ProductContext → StationId → String → String → Outcome (Unit {0})
mark_capture_failed c id capture_id reason =
    let s = station c id in
    if not (same s.capture_id capture_id) then (c, raise identity_conflict) else (
      touch
          (record (set_station c id
            (record s { failed = true; failure_reason = reason; process_state = failed })) {
              physical_state = done_at id;
            }),
      ok tt,
    )

unfoldable pub promote_capture_completion_from_vision :
    ProductContext → StationId → Outcome (Unit {0})
promote_capture_completion_from_vision c id =
    let s = station c id in
    if not (result_completed s) then (c, raise flow_error) else (
      touch
          (record (set_station c id
            (record s { capture_succeeded = true; process_state = capture_completed })) {
              physical_state = done_at id;
            }),
      ok tt,
    )

resumed : ProductContext → StationId → ProductContext
resumed c a = record c { physical_state = flipping; physical_zone = flip_transfer }
resumed c b = record c { physical_state = sensor3_wait; physical_zone = lower_to_sensor3 }

unfoldable pub mark_conveyor_resumed_after_capture : ProductContext → StationId → Outcome (Unit {0})
unfolding resumed
mark_conveyor_resumed_after_capture c id =
    if not (state_is c (done_at id)) then (c, raise flow_error) else (touch (resumed c id), ok tt)
