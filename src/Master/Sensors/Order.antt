-- ===== src/Master/Sensors/Order.antt =====
-- What the registry guarantees over every sequence of calls.
use ai_vision_inspection.Base.{
  ℕ, ◌+◌, ◌≤◌, String, String-discrete, List, [], ◌∷◌, Option, none, some, equals, if◌then◌else◌,
  ◌≡◌, ◌≢◌, arith, length,
}
use ai_vision_inspection.Base.Dict
use ai_vision_inspection.Master.Sensors.{
  SensorEventRegistry, SensorCall, SensorEventOutcome, accepted, duplicate, conflict, accept,
  accept_all,
}

-- A call that is not accepted changes nothing.
pub accept_refused :
    (r : SensorEventRegistry) (e : SensorCall) → (accept r e).1 ≢ accepted → (accept r e).0 ≡ r
unfolding accept
accept_refused r e h = ground arith

-- An accepted event is remembered: the same event again is a duplicate, and under another digest
-- it is a conflict.
accept_again :
    (r : SensorEventRegistry) (e : SensorCall) (sensor_id : String) (sequence : ℕ) (digest : String)
    → 1 ≤ r.event_capacity
    → (accept r e).1 ≡ accepted
    → (accept
        (accept r e).0
        (record e { sensor_id = sensor_id; sequence = sequence; digest = digest })).1
      ≡ (if equals String-discrete e.digest digest then duplicate else conflict)
unfolding accept
accept_again r e sensor_id sequence digest c h = ground (
  arith,
  Dict.put_absent String-discrete e.event_id e.digest r.event_digests,
  Dict.get-trim-append_self String-discrete r.event_capacity e.event_id e.digest r.event_digests,
)

-- The memory never grows beyond its capacity.
accept-bounded :
    (r : SensorEventRegistry) (e : SensorCall)
    → length r.event_digests ≤ r.event_capacity
    → length (accept r e).0.event_digests ≤ (accept r e).0.event_capacity
unfolding accept
accept-bounded r e h = ground (
  arith,
  Dict.length-trim-le r.event_capacity
      (Dict.put String-discrete e.event_id e.digest r.event_digests),
)

-- The numbers go up by one, from the number given on.
abbrev pub Continues : Option ℕ → List ℕ → Type 0
Continues p [] = Unit {0}
Continues none (x ∷ xs) = Continues (some x) xs
Continues (some p) (x ∷ xs) = (x ≡ p + 1) × Continues (some x) xs

note : String → SensorCall → SensorEventOutcome → List ℕ → List ℕ
note s e accepted xs = if equals String-discrete e.sensor_id s then e.sequence ∷ xs else xs
note s e _ xs = xs

-- The sequence numbers of the accepted calls of one sensor.
pub accepted_of : String → List (SensorCall × SensorEventOutcome) → List ℕ
accepted_of s [] = []
accepted_of s ((e, o) ∷ os) = note s e o (accepted_of s os)

-- One call, seen from one sensor: it is accepted with the next number, or changes nothing there.
accept-Continues :
    (r : SensorEventRegistry) (e : SensorCall) (s : String) (xs : List ℕ)
    → Continues (Dict.get String-discrete s (accept r e).0.last_sequence) xs
    → Continues (Dict.get String-discrete s r.last_sequence) (note s e (accept r e).1 xs)
unfolding accept note
accept-Continues r e s xs h =
    ground (arith, Dict.get-put String-discrete e.sensor_id s e.sequence r.last_sequence)

-- Over any sequence of calls, the accepted events of a sensor have consecutive sequence numbers:
-- none is lost, repeated or out of order.
pub accept_all-Continues :
    (r : SensorEventRegistry) (es : List SensorCall) (s : String)
    → Continues (Dict.get String-discrete s r.last_sequence) (accepted_of s (accept_all r es).1)
unfolding accept_all accepted_of
accept_all-Continues r [] s = ground arith
accept_all-Continues r (e ∷ es) s =
    accept-Continues r e s _ (accept_all-Continues (accept r e).0 es s)
