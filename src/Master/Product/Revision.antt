-- ===== src/Master/Product/Revision.antt =====
-- The revision counter of a product, and the order of actuation and lock.
use ai_vision_inspection.Base.{
  All, String-discrete, ℕ, ◌<◌, String, List, [], ◌∷◌, true, false, ◌≡◌, arith, ◌⊎◌, is_some,
  is_empty,
}
use ai_vision_inspection.Constants.{at_sensor3, actuating}
use ai_vision_inspection.Master.Product.{ProductContext, StationDecision, new_context}
use ai_vision_inspection.Master.Product.Verdicts.{apply_station_result}
use ai_vision_inspection.Master.Product.Command.{Command, result, actuation_accepted, step, run}

abbrev Touches : ProductContext → ProductContext → Type 0
Touches c c' = (c' ≡ c) ⊎ (c.revision < c'.revision)

result-Touches : (c : ProductContext) (d : StationDecision) → Touches c (apply_station_result c d).0
unfolding apply_station_result
result-Touches c d = ground arith

-- A call either leaves the product as it was, or raises its revision: a reader that saw a revision
-- can tell whether the product has changed since.
step-Touches : (c : ProductContext) (x : Command) → Touches c (step c x)
unfolding step
step-Touches c (result d) = result-Touches c d
step-Touches c _ = ground arith

-- What the flow of the actuation rests on.
pub record ActuationIsLocked (c : ProductContext) : Type 0 where
  pub by_command : is_empty c.actuator_command_id ≡ false → is_some c.locked ≡ true
  pub by_actuating : c.physical_state ≡ actuating → is_some c.locked ≡ true
  pub by_sensor3 : c.physical_state ≡ at_sensor3 → is_some c.locked ≡ true
  pub by_completed : c.completed ≡ true → is_some c.locked ≡ true

-- The command identifiers of an actuation are never empty (they are UUIDs).
abbrev pub HasCommandId : Command → Type 0
HasCommandId (actuation_accepted command_id) = is_empty command_id ≡ false
HasCommandId _ = Unit {0}

result-ActuationIsLocked :
    (c : ProductContext) (d : StationDecision)
    → ActuationIsLocked c
    → ActuationIsLocked (apply_station_result c d).0
unfolding apply_station_result
result-ActuationIsLocked c d h = ground arith

step-ActuationIsLocked :
    (c : ProductContext) (x : Command)
    → HasCommandId x
    → ActuationIsLocked c
    → ActuationIsLocked (step c x)
unfolding step
step-ActuationIsLocked c (result d) k h = result-ActuationIsLocked c d h
step-ActuationIsLocked c _ k h = ground arith

run-ActuationIsLocked :
    (c : ProductContext) (xs : List Command)
    → All HasCommandId xs
    → ActuationIsLocked c
    → ActuationIsLocked (run c xs)
unfolding run
run-ActuationIsLocked c [] k h = h
run-ActuationIsLocked c (x ∷ xs) k h =
    run-ActuationIsLocked (step c x) xs k.1 (step-ActuationIsLocked c x k.0 h)

fresh : (id : String) (sequence : ℕ) → ActuationIsLocked (new_context id sequence)
unfolding String-discrete
fresh id sequence = record {
  by_command = λ p. cc;
  by_actuating = λ p. cc;
  by_sensor3 = λ p. cc;
  by_completed = λ p. cc;
}

-- A product whose actuation is completed, or under way, has been locked at Sensor3 before, if no
-- actuation is accepted under an empty command identifier.
pub actuation_is_locked :
    (id : String) (sequence : ℕ) (xs : List Command)
    → All HasCommandId xs
    → ((run (new_context id sequence) xs).completed ≡ true)
      ⊎ ((run (new_context id sequence) xs).physical_state ≡ actuating)
    → is_some (run (new_context id sequence) xs).locked ≡ true
actuation_is_locked id sequence xs k h =
    ground (arith, run-ActuationIsLocked (new_context id sequence) xs k (fresh id sequence))
