-- ===== src/Examples/Products.antt =====
-- One product on the line.
use ai_vision_inspection.Base.Dict
use ai_vision_inspection.Base.{
  ◌⊎◌, All, String-discrete, List, [], ◌∷◌, some, true, false, ◌≡◌, refl, inr, pos, is_some,
  ℕ_discrete,
}
use ai_vision_inspection.Constants.{
  Verdict, pass, ng, forced_ng, StationId, a, b, StationId-discrete, Verdict-discrete,
  ProductPhysicalState-discrete, at_sensor3, actuating, sensor3_wait,
}
use ai_vision_inspection.Master.Product.{
  ProductContext, StationDecision, LockedProduct, new_context, StationDecision-discrete,
  StationProcessState-discrete, new_station,
}
use ai_vision_inspection.Master.Product.Cycle.{
  record_sensor, begin_station_cycle, mark_position_settled, mark_capture_requested,
  mark_capture_succeeded, mark_conveyor_resumed_after_capture,
}
use ai_vision_inspection.Master.Product.Skip.{accept_sensor2}
use ai_vision_inspection.Master.Product.Verdicts.{
  apply_station_result, lock_at_sensor3, begin_actuation, mark_actuation_accepted,
}
use ai_vision_inspection.Master.Product.Command.{
  Command, begin_cycle, position_settled, capture_requested, capture_succeeded, resume, sensor2,
  result, lock, actuate, actuation_accepted, step, run,
}
use ai_vision_inspection.Master.Product.Locking.{
  pass_is_earned, terminal_ng, run-locked, decided, locked_as,
}
use ai_vision_inspection.Master.Product.FailSafe.{
  station_a_failure_forces, station_b_failure_blocks,
}
use ai_vision_inspection.Master.Product.Revision.{actuation_is_locked, HasCommandId}

abbrev decision : StationId → Verdict → StationDecision
decision id v = record {
  station_id = id;
  verdict = v;
  revision = 1;
  capture_id = "c";
  inference_job_id = "j";
  frame_batch_id = "f";
}

-- A station's part of the way of a product.
abbrev inspected : StationId → List Command → List Command
inspected id xs =
    begin_cycle id "p" "c"
    ∷ position_settled id "p"
    ∷ capture_requested id "c" "q"
    ∷ capture_succeeded id "c" "f" "j"
    ∷ resume id
    ∷ xs

-- The whole way of a product, with the verdicts of the two stations.
abbrev way : Verdict → Verdict → List Command
way v w = inspected a (
    result (decision a v)
    ∷ sensor2 "e2" (pos 2)
    ∷ inspected b (
        result (decision b w)
        ∷ lock "e3" (pos 3)
        ∷ actuate "job" "cmd"
        ∷ actuation_accepted "cmd"
        ∷ []))

way_of_pass : locked_as (run (new_context "P" 1) (way pass pass)).locked pass ≡ true
unfolding run step record_sensor begin_station_cycle mark_position_settled mark_capture_requested
    mark_capture_succeeded mark_conveyor_resumed_after_capture accept_sensor2 apply_station_result
    lock_at_sensor3 begin_actuation mark_actuation_accepted String-discrete StationId-discrete
    Verdict-discrete ProductPhysicalState-discrete StationDecision-discrete
    StationProcessState-discrete Dict.get Dict.put ℕ_discrete
way_of_pass = refl

pass_is_earned_example :
    (decided (run (new_context "P" 1) (way pass pass)).station_a.decision pass ≡ true)
    × (decided (run (new_context "P" 1) (way pass pass)).station_b.decision pass ≡ true)
pass_is_earned_example = pass_is_earned "P" 1 (way pass pass) way_of_pass

-- A product before Sensor3 whose Station A has failed.
abbrev failed_at_a : ProductContext
failed_at_a = record (new_context "P" 1) {
  physical_state = sensor3_wait;
  station_a = record (new_station a) { failed = true; failure_reason = "timeout" };
}

abbrev failed_at_b : ProductContext
failed_at_b = record (new_context "P" 1) {
  physical_state = sensor3_wait;
  station_b = record (new_station b) { conflicted = true; failure_reason = "conflict" };
}

abbrev forced_lock : LockedProduct
forced_lock = record {
  product_id = "P";
  fifo_sequence = 1;
  verdict = forced_ng;
  station_a_completed = true;
  station_b_completed = false;
  reason = "timeout";
  sensor3_event_id = "e3";
}

abbrev late : List Command
late = result (decision a pass) ∷ lock "e3" (pos 3) ∷ result (decision b pass) ∷ []

failed_way : (run failed_at_a late).locked ≡ some forced_lock
unfolding run step record_sensor apply_station_result lock_at_sensor3 String-discrete
    StationId-discrete Verdict-discrete ProductPhysicalState-discrete StationDecision-discrete
    Dict.get Dict.put ℕ_discrete
failed_way = refl

station_a_failure_forces_example : forced_lock.verdict ≡ forced_ng
station_a_failure_forces_example =
    station_a_failure_forces failed_at_a late forced_lock refl refl failed_way

station_b_failure_blocks_example : locked_as (run failed_at_b late).locked pass ≡ false
station_b_failure_blocks_example = station_b_failure_blocks failed_at_b late refl refl

-- A product before Sensor3 with a decision NG of Station A.
abbrev ng_at_a : ProductContext
ng_at_a = record (new_context "P" 1) {
  physical_state = sensor3_wait;
  station_a = record (new_station a) { capture_id = "c"; decision = some (decision a ng) };
}

ng_is_ng : decided ng_at_a.station_a.decision ng ≡ true
unfolding Verdict-discrete
ng_is_ng = refl

terminal_ng_example : locked_as (run ng_at_a late).locked pass ≡ false
terminal_ng_example = terminal_ng ng_at_a late refl ng_is_ng

abbrev locked_product : ProductContext
locked_product = record failed_at_a { physical_state = at_sensor3; locked = some forced_lock }

run-locked_example : (run locked_product late).locked ≡ some forced_lock
run-locked_example = run-locked locked_product late forced_lock refl

way_of_actuating :
    ((run (new_context "P" 1) (way pass pass)).completed ≡ true)
    ⊎ ((run (new_context "P" 1) (way pass pass)).physical_state ≡ actuating)
unfolding run step record_sensor begin_station_cycle mark_position_settled mark_capture_requested
    mark_capture_succeeded mark_conveyor_resumed_after_capture accept_sensor2 apply_station_result
    lock_at_sensor3 begin_actuation mark_actuation_accepted String-discrete StationId-discrete
    Verdict-discrete ProductPhysicalState-discrete StationDecision-discrete
    StationProcessState-discrete Dict.get Dict.put ℕ_discrete
way_of_actuating = inr refl

way_is_named : All HasCommandId (way pass pass)
unfolding String-discrete
way_is_named = (
  tt,
  (tt, (tt, (tt, (tt, (tt, (tt, (tt, (tt, (tt, (tt, (tt, (tt, (tt, (tt, (refl, tt))))))))))))))),
)

actuation_is_locked_example : is_some (run (new_context "P" 1) (way pass pass)).locked ≡ true
actuation_is_locked_example =
    actuation_is_locked "P" 1 (way pass pass) way_is_named way_of_actuating
