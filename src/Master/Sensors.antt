-- ===== src/Master/Sensors.antt =====
-- SensorEventRegistry (product_flow.py): which sensor events are accepted.
pub mod Order
use ai_vision_inspection.Base.{
  ℕ, suc, ◌+◌, String, String-discrete, List, [], ◌∷◌, Option, none, some, Bool, true, false, ◌||◌,
  not, is_empty, equals, leb, nat_eq, if◌then◌else◌, Result, ok, raise,
}
use ai_vision_inspection.Base.Dict

pub data SensorEventOutcome : Type 0 where
  accepted duplicate conflict out_of_order sequence_gap : SensorEventOutcome

pub record SensorEventRegistry : Type 0 where
  pub last_sequence : List (String × ℕ)
  pub event_digests : List (String × String)
  pub event_capacity : ℕ

-- `__init__`: `none` is the ValueError.
unfoldable pub new_registry : ℕ → Option SensorEventRegistry
new_registry capacity =
    if nat_eq capacity 0
    then none
    else some (record { last_sequence = []; event_digests = []; event_capacity = capacity })

-- The call `accept(sensor_id, event_id, sequence, digest)`. A sequence is a uint64, so it is not
-- negative.
pub record SensorCall : Type 0 where
  pub sensor_id : String
  pub event_id : String
  pub sequence : ℕ
  pub digest : String

remembered : SensorEventRegistry → SensorCall → SensorEventRegistry
remembered r e = record r {
  event_digests =
      Dict.trim r.event_capacity (Dict.put String-discrete e.event_id e.digest r.event_digests);
  last_sequence = Dict.put String-discrete e.sensor_id e.sequence r.last_sequence;
}

-- The test against the last sequence number of the sensor.
unfoldable pub in_order : Option ℕ → ℕ → SensorEventOutcome
in_order none sequence = accepted
in_order (some previous) sequence =
    if leb sequence previous
    then out_of_order
    else if not (nat_eq sequence (previous + 1))
    then sequence_gap
    else accepted

unfoldable pub outcome : SensorEventRegistry → SensorCall → SensorEventOutcome
unfolding in_order
outcome r e = elim (Dict.get String-discrete e.event_id r.event_digests) [
  | some previous ↦ if equals String-discrete previous e.digest then duplicate else conflict
  | none ↦
      if is_empty e.event_id || nat_eq e.sequence 0
      then out_of_order
      else in_order (Dict.get String-discrete e.sensor_id r.last_sequence) e.sequence
]

stored : SensorEventRegistry → SensorCall → SensorEventOutcome → SensorEventRegistry
unfolding remembered
stored r e accepted = remembered r e
stored r e _ = r

unfoldable pub accept : SensorEventRegistry → SensorCall → SensorEventRegistry × SensorEventOutcome
unfolding outcome stored
accept r e = (stored r e (outcome r e), outcome r e)

unfoldable pub reset : SensorEventRegistry → SensorEventRegistry
reset r = record r { last_sequence = []; event_digests = [] }

-- The calls on a registry in turn; the outcomes go with their calls.
unfoldable pub accept_all :
    SensorEventRegistry
    → List SensorCall
    → SensorEventRegistry × List (SensorCall × SensorEventOutcome)
accept_all r [] = (r, [])
accept_all r (e ∷ es) =
    let (r', o) = accept r e in let (r'', os) = accept_all r' es in (r'', (e, o) ∷ os)
