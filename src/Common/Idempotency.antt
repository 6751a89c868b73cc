-- ===== src/Common/Idempotency.antt =====
-- idempotency.py: the store that tells a repeated command from a conflicting one. Each method runs
-- under one lock, so it is one step.

use ai_vision_inspection.Base.{
  ℕ, String, String-discrete, Bool, true, false, not, equals, ltb, if◌then◌else◌, Option, none,
  some, List, [], Result, ok, raise,
}
use ai_vision_inspection.Base.Dict
pub mod Replay

pub data ReplayDecision (T : Type 0) : Type 0 where
  new : ReplayDecision T
  replay : T → ReplayDecision T
  conflict : ReplayDecision T

-- What `IdempotencyStore` raises (ValueError).
pub data StoreError : Type 0 where
  capacity_not_positive another_digest : StoreError

pub record IdempotencyStore (T : Type 0) : Type 0 where
  pub capacity : ℕ
  pub entries : List (String × (String × T))

module _ {T : Type 0} where
  unfoldable pub new_store : ℕ → Result StoreError (IdempotencyStore T)
  new_store capacity =
      if ltb capacity 1
      then raise capacity_not_positive
      else ok (record { capacity = capacity; entries = [] })

  decided :
      IdempotencyStore T
      → String
      → String
      → Option (String × T)
      → IdempotencyStore T × ReplayDecision T
  decided s command_id digest none = (s, new)
  decided s command_id digest (some (stored_digest, result)) = (
    record s { entries = Dict.move_to_end String-discrete command_id s.entries },
    if not (equals String-discrete stored_digest digest) then conflict else replay result,
  )

  unfoldable pub inspect :
      IdempotencyStore T → String → String → IdempotencyStore T × ReplayDecision T
  unfolding decided
  inspect s command_id digest =
      decided s command_id digest (Dict.get String-discrete command_id s.entries)

  -- The id is stored with another digest.
  abbrev clashes : String → Option (String × T) → Bool
  clashes digest none = false
  clashes digest (some (stored_digest, result)) = not (equals String-discrete stored_digest digest)

  unfoldable pub remember :
      IdempotencyStore T → String → String → T → Result StoreError (IdempotencyStore T)
  remember s command_id digest result =
      if clashes digest (Dict.get String-discrete command_id s.entries)
      then raise another_digest
      else ok (record s {
        entries = Dict.trim s.capacity (
            Dict.move_to_end String-discrete command_id
              (Dict.put String-discrete command_id (digest, result) s.entries));
      })
