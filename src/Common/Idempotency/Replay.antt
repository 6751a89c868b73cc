-- ===== src/Common/Idempotency/Replay.antt =====
-- idempotency.py: what the store answers to a repeated command.

use ai_vision_inspection.Base.{
  ◌≤◌, String, String-discrete, equals, if◌then◌else◌, ok, raise, ◌≡◌, ◌≢◌, arith, length, ◌⊎◌,
}
use ai_vision_inspection.Base.Dict
use ai_vision_inspection.Common.Idempotency.{
  new, replay, conflict, IdempotencyStore, decided, inspect, another_digest, remember,
}

module _ {T : Type 0} where
  -- A command that was remembered is answered with its result when it comes again with the same
  -- digest, and as a conflict when it comes with another one.
  pub inspect-remember :
      (s s' : IdempotencyStore T) (command_id digest digest' : String) (result : T)
      → 1 ≤ s.capacity
      → remember s command_id digest result ≡ ok s'
      → (inspect s' command_id digest').1
        ≡ (if equals String-discrete digest digest' then replay result else conflict)
  unfolding inspect decided remember
  inspect-remember s s' command_id digest digest' result c h = ground (
    arith,
    Dict.get-trim-move_to_end String-discrete s.capacity command_id (digest, result) s.entries c,
  )

  -- `remember` raises exactly when `inspect` answers the command with a conflict.
  pub remember-conflict :
      (s : IdempotencyStore T) (command_id digest : String) (result : T)
      → ((remember s command_id digest result ≡ raise another_digest)
          × ((inspect s command_id digest).1 ≡ conflict))
        ⊎ ((s' : IdempotencyStore T) × (remember s command_id digest result ≡ ok s')
            × ((inspect s command_id digest).1 ≢ conflict))
  unfolding inspect decided remember
  remember-conflict s command_id digest result = ground arith

  -- After a call that does not raise, the store holds no more entries than its capacity.
  pub remember-bounded :
      (s s' : IdempotencyStore T) (command_id digest : String) (result : T)
      → remember s command_id digest result ≡ ok s'
      → length s'.entries ≤ s'.capacity
  unfolding remember
  remember-bounded s s' command_id digest result h = ground (
    arith,
    Dict.length-trim-le s.capacity (
        Dict.move_to_end String-discrete command_id
          (Dict.put String-discrete command_id (digest, result) s.entries)),
  )

  -- An inspection changes no answer: each command is answered as it was before.
  pub inspect_twice :
      (s : IdempotencyStore T) (command_id digest other digest' : String)
      → (inspect (inspect s command_id digest).0 other digest').1 ≡ (inspect s other digest').1
  unfolding inspect decided
  inspect_twice s command_id digest other digest' =
      ground (arith, Dict.get-move_to_end String-discrete command_id other s.entries)

  -- A store that answers a command as new is left as it is.
  pub inspect-new :
      (s : IdempotencyStore T) (command_id digest : String)
      → (inspect s command_id digest).1 ≡ new
      → (inspect s command_id digest).0 ≡ s
  unfolding inspect decided
  inspect-new s command_id digest h = ground arith
