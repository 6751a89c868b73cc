-- ===== src/Master/Product/FailSafe.antt =====
-- Stations that failed, or whose messages contradict each other.
use ai_vision_inspection.Base.{
  List, [], ◌∷◌, some, none, Bool, true, false, ◌||◌, ◌≡◌, refl, arith, ◌⊎◌, inl,
}
use ai_vision_inspection.Constants.{StationId, a, b, Verdict-discrete, pass, forced_ng}
use ai_vision_inspection.Master.Product.{
  ProductContext, StationDecision, StationInspection, LockedProduct, station,
}
use ai_vision_inspection.Master.Product.Verdicts.{apply_station_result}
use ai_vision_inspection.Master.Product.Locking.{locked_as}
use ai_vision_inspection.Master.Product.Late.{apply-locked_same}
use ai_vision_inspection.Master.Product.Command.{Command, result, step, run}

abbrev pub is_bad : StationInspection → Bool
is_bad s = s.failed || s.conflicted

result-is_bad :
    (c : ProductContext) (d : StationDecision) (id : StationId)
    → is_bad (station c id) ≡ true
    → is_bad (station (apply_station_result c d).0 id) ≡ true
unfolding apply_station_result
result-is_bad c d id h = ground arith

step-is_bad :
    (c : ProductContext) (x : Command) (id : StationId)
    → is_bad (station c id) ≡ true
    → is_bad (station (step c x) id) ≡ true
unfolding step
step-is_bad c (result d) id h = result-is_bad c d id h
step-is_bad c _ id h = ground arith

abbrev Unlocked : ProductContext → Type 0
Unlocked c = (c.locked ≡ none) ⊎ (locked_as c.locked forced_ng ≡ true)

step-forced :
    (c : ProductContext) (x : Command)
    → is_bad c.station_a ≡ true
    → Unlocked c
    → Unlocked (step c x)
unfolding step Verdict-discrete
step-forced c (result d) h u = ground (arith, apply-locked_same c d)
step-forced c _ h u = ground arith

run-forced :
    (c : ProductContext) (xs : List Command)
    → is_bad c.station_a ≡ true
    → Unlocked c
    → Unlocked (run c xs)
unfolding run
run-forced c [] h u = u
run-forced c (x ∷ xs) h u = run-forced (step c x) xs (step-is_bad c x a h) (step-forced c x h u)

step-no_pass :
    (c : ProductContext) (x : Command)
    → is_bad c.station_b ≡ true
    → locked_as c.locked pass ≡ false
    → locked_as (step c x).locked pass ≡ false
unfolding step Verdict-discrete
step-no_pass c (result d) h u = ground (arith, apply-locked_same c d)
step-no_pass c _ h u = ground arith

run-no_pass :
    (c : ProductContext) (xs : List Command)
    → is_bad c.station_b ≡ true
    → locked_as c.locked pass ≡ false
    → locked_as (run c xs).locked pass ≡ false
unfolding run
run-no_pass c [] h u = u
run-no_pass c (x ∷ xs) h u = run-no_pass (step c x) xs (step-is_bad c x b h) (step-no_pass c x h u)

-- A failure or a conflict of Station A that is known before the lock makes every later lock
-- FORCED_NG.
pub station_a_failure_forces :
    (c : ProductContext) (xs : List Command) (l : LockedProduct)
    → c.locked ≡ none
    → is_bad c.station_a ≡ true
    → (run c xs).locked ≡ some l
    → l.verdict ≡ forced_ng
station_a_failure_forces c xs l e h q = ground (arith, run-forced c xs h (inl e))

-- A failure or a conflict of Station B that is known before the lock keeps every later lock from
-- PASS.
pub station_b_failure_blocks :
    (c : ProductContext) (xs : List Command)
    → c.locked ≡ none
    → is_bad c.station_b ≡ true
    → locked_as (run c xs).locked pass ≡ false
station_b_failure_blocks c xs e h = run-no_pass c xs h (rw e refl)
