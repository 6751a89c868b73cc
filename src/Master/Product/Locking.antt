-- ===== src/Master/Product/Locking.antt =====
-- The lock of a product at Sensor3, and what its verdict says of the stations.
use ai_vision_inspection.Base.{
  ℕ, String, List, [], ◌∷◌, some, none, Option, Bool, true, false, ◌≡◌, arith, inl, inr, equals,
  Option-cases,
}
use ai_vision_inspection.Constants.{Verdict, Verdict-discrete, pass, ng}
use ai_vision_inspection.Master.Product.{
  ProductContext, StationDecision, LockedProduct, new_context,
}
use ai_vision_inspection.Master.Product.Late.{apply_late, apply-locked_same}
use ai_vision_inspection.Master.Product.Verdicts.{apply_station_result, verdict_is}
use ai_vision_inspection.Master.Product.Command.{Command, result, sensor, step, run}

step-locked :
    (c : ProductContext) (x : Command) (l : LockedProduct)
    → c.locked ≡ some l
    → (step c x).locked ≡ some l
unfolding step
step-locked c (sensor _ _ _) l h = ground arith
step-locked c _ l h = ground arith

-- Once a product is locked, no sequence of calls changes the locked record.
pub run-locked :
    (c : ProductContext) (xs : List Command) (l : LockedProduct)
    → c.locked ≡ some l
    → (run c xs).locked ≡ some l
unfolding run
run-locked c [] l h = h
run-locked c (x ∷ xs) l h = run-locked (step c x) xs l (step-locked c x l h)

abbrev pub decided : Option StationDecision → Verdict → Bool
decided none v = false
decided (some d) v = verdict_is d v

abbrev pub locked_as : Option LockedProduct → Verdict → Bool
locked_as none v = false
locked_as (some l) v = equals Verdict-discrete l.verdict v

pub record PassIsEarned (c : ProductContext) : Type 0 where
  pub by_a : locked_as c.locked pass ≡ true → decided c.station_a.decision pass ≡ true
  pub by_b : locked_as c.locked pass ≡ true → decided c.station_b.decision pass ≡ true

result-PassIsEarned :
    (c : ProductContext) (d : StationDecision)
    → PassIsEarned c
    → PassIsEarned (apply_station_result c d).0
result-PassIsEarned c d h = elim (Option-cases c.locked) [
  | inl e ↦ ground (arith, apply-locked_same c d)
  | inr (l, e) ↦ ground (arith, apply_late c l e d)
]

pub step-PassIsEarned :
    (c : ProductContext) (x : Command) → PassIsEarned c → PassIsEarned (step c x)
unfolding step
step-PassIsEarned c (result d) h = result-PassIsEarned c d h
step-PassIsEarned c _ h = ground arith

run-PassIsEarned :
    (c : ProductContext) (xs : List Command) → PassIsEarned c → PassIsEarned (run c xs)
unfolding run
run-PassIsEarned c [] h = h
run-PassIsEarned c (x ∷ xs) h = run-PassIsEarned (step c x) xs (step-PassIsEarned c x h)

-- Whatever calls a new product goes through, if it is locked as PASS then both stations hold a
-- decision with the verdict PASS.
pub pass_is_earned :
    (id : String) (sequence : ℕ) (xs : List Command)
    → locked_as (run (new_context id sequence) xs).locked pass ≡ true
    → (decided (run (new_context id sequence) xs).station_a.decision pass ≡ true)
      × (decided (run (new_context id sequence) xs).station_b.decision pass ≡ true)
pass_is_earned id sequence xs h =
    ground (arith, run-PassIsEarned (new_context id sequence) xs (ground arith))

-- Station A has a decision NG, and the verdict PASS is out of reach.
abbrev HasNg : ProductContext → Type 0
HasNg c = decided c.station_a.decision ng ≡ true

result-HasNg :
    (c : ProductContext) (d : StationDecision) → HasNg c → HasNg (apply_station_result c d).0
unfolding apply_station_result
result-HasNg c d h = ground arith

step-HasNg : (c : ProductContext) (x : Command) → HasNg c → HasNg (step c x)
unfolding step
step-HasNg c (result d) h = result-HasNg c d h
step-HasNg c _ h = ground arith

run-HasNg : (c : ProductContext) (xs : List Command) → HasNg c → HasNg (run c xs)
unfolding run
run-HasNg c [] h = h
run-HasNg c (x ∷ xs) h = run-HasNg (step c x) xs (step-HasNg c x h)

-- A decision NG of Station A on a product that is not locked is terminal: no sequence of calls
-- leads to a lock as PASS.
pub terminal_ng :
    (c : ProductContext) (xs : List Command)
    → c.locked ≡ none
    → decided c.station_a.decision ng ≡ true
    → locked_as (run c xs).locked pass ≡ false
terminal_ng c xs e h = ground (
  arith,
  run-PassIsEarned c xs (record { by_a = λ p. ground arith; by_b = λ p. ground arith }),
  run-HasNg c xs h,
)
