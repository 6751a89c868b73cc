-- ===== src/Master/Reorder.antt =====
-- ProductResultReorderBuffer (product_flow.py): locked products leave in the order of their
-- sequence.
pub mod Order
use ai_vision_inspection.Base.{
  ℕ, zero, suc, ◌+◌, ℕ_discrete, List, [], ◌∷◌, ◌++◌, Option, none, some, Bool, true, false, equals,
  not, ltb, nat_eq, length, if◌then◌else◌, Result, ok, raise,
}
use ai_vision_inspection.Base.Dict
use ai_vision_inspection.Master.Product.{LockedProduct, LockedProduct-discrete}

pub record ReorderBuffer : Type 0 where
  pub next_sequence : ℕ
  pub pending : List (ℕ × LockedProduct)

pub data BufferError : Type 0 where
  value_error : BufferError

unfoldable pub new_buffer : ℕ → Result BufferError ReorderBuffer
new_buffer first =
    if nat_eq first 0
    then raise value_error
    else ok (record { next_sequence = first; pending = [] })

-- `ready.append(pending.pop(next_sequence)); next_sequence += 1`
abbrev pub advance : ReorderBuffer → ReorderBuffer
advance b = record {
  next_sequence = b.next_sequence + 1;
  pending = Dict.pop ℕ_discrete b.next_sequence b.pending;
}

-- The loop of `add`: each round takes one entry off, so the number of entries is fuel enough.
unfoldable pub drain : ℕ → ReorderBuffer → ReorderBuffer × List LockedProduct
drain zero b = (b, [])
drain (suc fuel) b = elim (Dict.get ℕ_discrete b.next_sequence b.pending) [
  | none ↦ (b, [])
  | some l ↦ let (b', ready) = drain fuel (advance b) in (b', l ∷ ready)
]

-- The entry of the sequence is another one.
unfoldable pub contradicts : Option LockedProduct → LockedProduct → Bool
contradicts none l = false
contradicts (some old) l = not (equals LockedProduct-discrete old l)

unfoldable pub with_result : ReorderBuffer → LockedProduct → ReorderBuffer
with_result b l = record b { pending = Dict.put ℕ_discrete l.fifo_sequence l b.pending }

unfoldable pub add :
    ReorderBuffer → LockedProduct → ReorderBuffer × Result BufferError (List LockedProduct)
unfolding with_result contradicts
add b l =
    if ltb l.fifo_sequence b.next_sequence
    then (b, ok [])
    else if contradicts (Dict.get ℕ_discrete l.fifo_sequence b.pending) l
    then (b, raise value_error)
    else let b' = with_result b l in
      let (b'', ready) = drain (length b'.pending) b' in (b'', ok ready)

unfoldable pub reset : ReorderBuffer → ℕ → Result BufferError ReorderBuffer
reset b first =
    if nat_eq first 0
    then raise value_error
    else ok (record { next_sequence = first; pending = [] })

abbrev pub returned : Result BufferError (List LockedProduct) → List LockedProduct
returned (raise e) = []
returned (ok ls) = ls

-- The results that a sequence of calls of `add` releases, in turn.
unfoldable pub add_all : ReorderBuffer → List LockedProduct → ReorderBuffer × List LockedProduct
add_all b [] = (b, [])
add_all b (l ∷ ls) =
    let (b', r) = add b l in let (b'', rest) = add_all b' ls in (b'', returned r ++ rest)
