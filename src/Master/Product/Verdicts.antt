-- ===== src/Master/Product/Verdicts.antt =====
-- The methods of ProductContext that take the results of the stations, lock the verdict at Sensor3
-- and follow the actuation (product_flow.py).
use ai_vision_inspection.Base.{
  ℕ, String, ℤ, Option, none, some, Bool, true, false, ◌&&◌, ◌||◌, not, is_some, is_empty,
  or_default, equals, ltb, nat_eq, if◌then◌else◌, ok, raise,
}
use ai_vision_inspection.Constants.{
  sensor3_wait, at_sensor3, actuating, done, StationId, a, StationId-discrete, Verdict,
  Verdict-discrete, pass, ng, forced_ng,
}
use ai_vision_inspection.Master.Product.{
  ProductContext, StationDecision, StationDecision-discrete, LockedProduct, flow_error,
  identity_conflict, result_conflict, Outcome, touch, station, set_station, result_completed,
}
use ai_vision_inspection.Master.Product.Cycle.{state_is, same, record_sensor}

-- A known identifier that differs from the one given.
abbrev pub mismatch : String → String → Bool
mismatch known given = not (is_empty known) && not (same known given)

abbrev pub verdict_is : StationDecision → Verdict → Bool
verdict_is d v = equals Verdict-discrete d.verdict v

-- A conflict is kept in the station before the exception leaves the method.
conflict : ProductContext → StationId → String → ProductContext
conflict c id reason =
    touch (set_station c id (record (station c id) { conflicted = true; failure_reason = reason }))

accepted : ProductContext → StationDecision → ProductContext
accepted c d =
    let s = station c d.station_id in
    touch (
      set_station c d.station_id (record s {
        decision = some d;
        frame_batch_id = if is_empty d.frame_batch_id then s.frame_batch_id else d.frame_batch_id;
        inference_job_id = d.inference_job_id;
      }))

-- The comparison with the decision that the station already has.
revised : ProductContext → StationDecision → Option StationDecision → Outcome Bool
unfolding conflict accepted
revised c d none = (accepted c d, ok true)
revised c d (some previous) =
    if equals StationId-discrete d.station_id a && verdict_is previous ng
    then (if not (verdict_is d ng)
          || not (same d.capture_id previous.capture_id)
          || not (same d.inference_job_id previous.inference_job_id)
        then (
          conflict c d.station_id "Station A terminal NG cannot be revised or replaced",
          raise result_conflict,
        )
        else (c, ok false))
    else if ltb d.revision previous.revision
    then (c, ok false)
    else if nat_eq d.revision previous.revision
    then (if not (equals StationDecision-discrete d previous)
        then (
          conflict c d.station_id "same revision has conflicting station results",
          raise result_conflict,
        )
        else (c, ok false))
    else (accepted c d, ok true)

unfoldable pub apply_station_result : ProductContext → StationDecision → Outcome Bool
unfolding revised
apply_station_result c d =
    let s = station c d.station_id in
    if mismatch s.capture_id d.capture_id
    then (c, raise identity_conflict)
    else if not (is_empty d.frame_batch_id) && mismatch s.frame_batch_id d.frame_batch_id
    then (c, raise identity_conflict)
    else if mismatch s.inference_job_id d.inference_job_id
    then (c, raise identity_conflict)
    else if is_some c.locked
    then (c, ok false)
    else revised c d s.decision

unfoldable pub record_station_failure :
    ProductContext → StationId → String → String → String → ℕ → String → Outcome Bool
record_station_failure c id capture_id frame_batch_id inference_job_id revision reason =
    let s = station c id in
    if mismatch s.capture_id capture_id
    then (c, raise identity_conflict)
    else if mismatch s.frame_batch_id frame_batch_id
    then (c, raise identity_conflict)
    else if mismatch s.inference_job_id inference_job_id
    then (c, raise identity_conflict)
    else if is_some c.locked || ltb revision s.last_failure_revision
    then (c, ok false)
    else if nat_eq revision s.last_failure_revision && s.failed
    then (c, ok false)
    else (
      touch (
          set_station c id (record s {
            failed = true;
            failure_reason = reason;
            frame_batch_id = frame_batch_id;
            inference_job_id = inference_job_id;
            last_failure_revision = revision;
          })),
      ok true,
    )

unfoldable pub record_station_contract_failure : ProductContext → StationId → String → Outcome Bool
unfolding conflict
record_station_contract_failure c id reason =
    if is_some c.locked then (c, ok false) else (conflict c id reason, ok true)

is_ng : Option StationDecision → Bool
is_ng none = false
is_ng (some d) = verdict_is d ng

both : Option StationDecision → Option StationDecision → Option Verdict × String
both none _ = (none, "station result incomplete at Sensor3")
both (some x) none = (none, "station result incomplete at Sensor3")
both (some x) (some y) = (
  some (if verdict_is x pass && verdict_is y pass then pass else ng),
  "both station results completed",
)

unfoldable pub candidate_verdict : ProductContext → Option Verdict × String
unfolding is_ng both
candidate_verdict c =
    let x = c.station_a in
    let y = c.station_b in
    if x.failed || x.conflicted
    then (some forced_ng, or_default x.failure_reason "Station A failed")
    else if is_ng x.decision
    then (some ng, "Station A terminal NG")
    else if y.failed || y.conflicted
    then (some forced_ng, or_default y.failure_reason "Station B failed")
    else both x.decision y.decision

abbrev pub forced : Option Verdict → Verdict
forced none = forced_ng
forced (some v) = v

locked_record : ProductContext → String → LockedProduct
locked_record c event_id = record {
  product_id = c.product_id;
  fifo_sequence = c.fifo_sequence;
  verdict = forced (candidate_verdict c).0;
  station_a_completed = result_completed c.station_a;
  station_b_completed = result_completed c.station_b;
  reason = (candidate_verdict c).1;
  sensor3_event_id = event_id;
}

-- The rest of `lock_at_sensor3`, once the sensor event is recorded.
lock_recorded : String → Outcome (Unit {0}) → Outcome LockedProduct
unfolding locked_record candidate_verdict
lock_recorded event_id (c, raise e) = (c, raise e)
lock_recorded event_id (c, ok u) =
    let l = locked_record c event_id in
    (touch (record c { locked = some l; physical_state = at_sensor3 }), ok l)

lock_again : ProductContext → String → LockedProduct → Outcome LockedProduct
lock_again c event_id l =
    if not (same l.sensor3_event_id event_id) then (c, raise identity_conflict) else (c, ok l)

unfoldable pub lock_at_sensor3 : ProductContext → String → ℤ → Outcome LockedProduct
unfolding lock_again lock_recorded
lock_at_sensor3 c event_id step = elim c.locked [
  | some l ↦ lock_again c event_id l
  | none ↦
      if not (state_is c sensor3_wait)
      then (c, raise flow_error)
      else lock_recorded event_id (record_sensor c 3 event_id step)
]

unfoldable pub begin_actuation : ProductContext → String → String → Outcome (Unit {0})
begin_actuation c job_id command_id =
    if not (is_some c.locked) || not (state_is c at_sensor3)
    then (c, raise flow_error)
    else if not (is_empty c.actuator_job_id)
    then (if not (same c.actuator_job_id job_id) || not (same c.actuator_command_id command_id)
        then (c, raise identity_conflict)
        else (c, ok tt))
    else (touch (record c { actuator_job_id = job_id; actuator_command_id = command_id }), ok tt)

unfoldable pub mark_actuation_accepted : ProductContext → String → Outcome (Unit {0})
mark_actuation_accepted c command_id =
    if not (same c.actuator_command_id command_id)
    then (c, raise identity_conflict)
    else (touch (record c { physical_state = actuating }), ok tt)

unfoldable pub mark_actuation_completed : ProductContext → String → String → Outcome (Unit {0})
mark_actuation_completed c command_id actuation_id =
    if not (same c.actuator_command_id command_id)
    then (c, raise identity_conflict)
    else if not (state_is c at_sensor3) && not (state_is c actuating)
    then (c, raise flow_error)
    else (
      touch (record c { actuation_id = actuation_id; completed = true; physical_state = done }),
      ok tt,
    )
