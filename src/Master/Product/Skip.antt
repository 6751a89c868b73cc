-- ===== src/Master/Product/Skip.antt =====
-- The methods of ProductContext for Sensor2 and for the products that skip Station B
-- (product_flow.py).
use ai_vision_inspection.Base.{
  String, ℤ, Bool, true, false, is_some, or_default, if◌then◌else◌, ◌||◌, not, ok, raise,
}
use ai_vision_inspection.Constants.{
  station_b_wait, station_b_done, sensor3_wait, flipping, lower_inspection, lower_to_sensor3,
}
use ai_vision_inspection.Master.Product.{
  ProductContext, pending, skipped, flow_error, Outcome, touch,
}
use ai_vision_inspection.Master.Product.Cycle.{phase_is, state_is, record_sensor}

unfoldable pub request_station_b_skip : ProductContext → String → Outcome Bool
request_station_b_skip c reason = if c.station_b_skip_requested then (c, ok false) else (
  touch (record c {
    station_b_skip_requested = true;
    station_b_skip_reason = or_default reason "Station A terminal NG";
  }),
  ok true,
)

-- Station B is marked as skipped, with the reason of the product.
skip_b : ProductContext → ProductContext
skip_b c = record c {
  station_b = record s { process_state = skipped; skipped_reason = c.station_b_skip_reason };
}
  where
    open c use {station_b as s}

-- The rest of `accept_sensor2`, once the sensor event is recorded.
settled : ProductContext → ProductContext
unfolding skip_b
settled c =
    if c.station_b_skip_requested
    then record (skip_b c) { physical_state = sensor3_wait; physical_zone = lower_to_sensor3 }
    else record c { physical_state = station_b_wait; physical_zone = lower_inspection }

recorded : Outcome (Unit {0}) → Outcome (Unit {0})
unfolding settled
recorded (c, raise e) = (c, raise e)
recorded (c, ok u) = (touch (settled c), ok u)

unfoldable pub accept_sensor2 : ProductContext → String → ℤ → Outcome (Unit {0})
unfolding recorded
accept_sensor2 c event_id step =
    if not (state_is c flipping)
    then (c, raise flow_error)
    else recorded (record_sensor c 2 event_id step)

unfoldable pub mark_station_b_skipped : ProductContext → String → Outcome Bool
unfolding skip_b request_station_b_skip
mark_station_b_skipped c reason =
    let s = c.station_b in
    if phase_is s skipped
    then (c, ok false)
    else if is_some s.decision || s.failed || s.conflicted
    then (c, ok false)
    else let c' = (request_station_b_skip c reason).0 in
      (
        touch (record (skip_b c') {
          physical_state = station_b_done;
          physical_zone = lower_inspection;
        }),
        ok true,
      )

unfoldable pub bypass_station_b : ProductContext → String → Outcome Bool
unfolding skip_b request_station_b_skip
bypass_station_b c reason =
    let s = c.station_b in
    if not (state_is c station_b_wait)
    then (c, ok false)
    else if not (phase_is s pending)
    then (c, ok false)
    else let c' = (request_station_b_skip c reason).0 in
      (
        touch (record (skip_b c') {
          physical_state = sensor3_wait;
          physical_zone = lower_to_sensor3;
        }),
        ok true,
      )
