-- ===== src/Master/Reorder/Order.antt =====
-- The order in which the buffer releases the results.
use ai_vision_inspection.Base.{
  ℕ, zero, suc, ◌+◌, ◌≤◌, ℕ_discrete, List, [], ◌∷◌, ◌++◌, none, some, length, ok, raise, ◌≡◌, ◌≢◌,
  refl, ◌⊎◌, inl, inr, arith, All, In, Option-cases,
}
use ai_vision_inspection.Base.Dict
use ai_vision_inspection.Master.Product.{LockedProduct}
use ai_vision_inspection.Master.Reorder.{
  value_error, ReorderBuffer, advance, drain, with_result, add, add_all, returned,
}

get_of_empty :
    (k : ℕ) (d : List (ℕ × LockedProduct)) → length d ≤ 0 → Dict.get ℕ_discrete k d ≡ none
unfolding Dict.get
get_of_empty k [] h = refl
get_of_empty k (e ∷ d) h = absurd (omega arith)

-- Every pending entry stands under its own sequence.
abbrev pub IsKeyed : ReorderBuffer → Type 0
IsKeyed b = All (λ e. e.1.fifo_sequence ≡ e.0) b.pending

-- The sequences are the numbers from the first on, up to the last.
abbrev pub Consecutive : ℕ → List LockedProduct → ℕ → Type 0
Consecutive first [] last = first ≡ last
Consecutive first (l ∷ ls) last = (l.fifo_sequence ≡ first) × Consecutive (first + 1) ls last

-- The loop ends by its own test.
drain-ends :
    (fuel : ℕ) (b : ReorderBuffer)
    → length b.pending ≤ fuel
    → Dict.get ℕ_discrete (drain fuel b).0.next_sequence (drain fuel b).0.pending ≡ none
unfolding drain
drain-ends zero b h = get_of_empty b.next_sequence b.pending (omega arith)
drain-ends (suc fuel) b h = elim (Option-cases (Dict.get ℕ_discrete b.next_sequence b.pending)) [
  | inl e ↦ ground arith
  | inr (l, e) ↦ ground (
    arith,
    drain-ends fuel (advance b),
    Dict.length-pop-lt ℕ_discrete b.next_sequence b.pending e,
  )
]

advance-IsKeyed : (b : ReorderBuffer) → IsKeyed b → IsKeyed (advance b)
advance-IsKeyed b h = Dict.pop-All ℕ_discrete _ b.next_sequence b.pending h

drain-IsKeyed : (fuel : ℕ) (b : ReorderBuffer) → IsKeyed b → IsKeyed (drain fuel b).0
unfolding drain
drain-IsKeyed zero b h = h
drain-IsKeyed (suc fuel) b h = ground (arith, drain-IsKeyed fuel (advance b) (advance-IsKeyed b h))

drain-Consecutive :
    (fuel : ℕ) (b : ReorderBuffer)
    → IsKeyed b
    → Consecutive b.next_sequence (drain fuel b).1 (drain fuel b).0.next_sequence
unfolding drain
drain-Consecutive zero b h = refl
drain-Consecutive (suc fuel) b h =
    elim (Option-cases (Dict.get ℕ_discrete b.next_sequence b.pending)) [
      | inl e ↦ ground arith
      | inr (l, e) ↦ ground (
        arith,
        drain-Consecutive fuel (advance b) (advance-IsKeyed b h),
        Dict.get-All ℕ_discrete (λ x. x.1.fifo_sequence ≡ x.0) b.next_sequence l b.pending h e,
      )
    ]

-- What is pending is released or stays pending.
drain_keeps :
    (fuel : ℕ) (b : ReorderBuffer) (k : ℕ) (l : LockedProduct)
    → Dict.get ℕ_discrete k b.pending ≡ some l
    → In l (drain fuel b).1 ⊎ (Dict.get ℕ_discrete k (drain fuel b).0.pending ≡ some l)
unfolding drain
drain_keeps zero b k l e = inr e
drain_keeps (suc fuel) b k l e =
    elim (Option-cases (Dict.get ℕ_discrete b.next_sequence b.pending)) [
      | inl q ↦ ground arith
      | inr (l', q) ↦ elim (ℕ_discrete b.next_sequence k) [
        | yes p ↦ ground arith
        | no p ↦ ground (
          arith,
          drain_keeps fuel (advance b) k l,
          Dict.get-pop ℕ_discrete b.next_sequence k b.pending,
        )
      ]
    ]

add-IsKeyed : (b : ReorderBuffer) (l : LockedProduct) → IsKeyed b → IsKeyed (add b l).0
unfolding add
add-IsKeyed b l h =
    let put : IsKeyed (with_result b l) =
      unfold with_result in Dict.put-All ℕ_discrete _ l.fifo_sequence l b.pending refl h in
    ground (arith, drain-IsKeyed (length (with_result b l).pending) (with_result b l) put)

add-Consecutive :
    (b : ReorderBuffer) (l : LockedProduct)
    → IsKeyed b
    → Consecutive b.next_sequence (returned (add b l).1) (add b l).0.next_sequence
unfolding add
add-Consecutive b l h =
    let put : IsKeyed (with_result b l) =
      unfold with_result in Dict.put-All ℕ_discrete _ l.fifo_sequence l b.pending refl h in
    ground (arith, drain-Consecutive (length (with_result b l).pending) (with_result b l) put)

Consecutive-append :
    (xs ys : List LockedProduct) (k m n : ℕ)
    → Consecutive k xs m
    → Consecutive m ys n
    → Consecutive k (xs ++ ys) n
Consecutive-append [] ys k m n h g = rw h g
Consecutive-append (x ∷ xs) ys k m n h g = (h.0, Consecutive-append xs ys (k + 1) m n h.1 g)

-- Over any sequence of calls, the results leave in the order of their sequences, from the first
-- one on, with no gap and no repetition, and the buffer waits for the one after the last.
pub add_all-Consecutive :
    (b : ReorderBuffer) (ls : List LockedProduct)
    → IsKeyed b
    → Consecutive b.next_sequence (add_all b ls).1 (add_all b ls).0.next_sequence
unfolding add_all
add_all-Consecutive b [] h = refl
add_all-Consecutive b (l ∷ ls) h =
    Consecutive-append (returned (add b l).1) _ b.next_sequence (add b l).0.next_sequence _
      (add-Consecutive b l h) (add_all-Consecutive (add b l).0 ls (add-IsKeyed b l h))

-- A call that does not raise keeps its result if that is not late: it is released by this call or
-- stays pending. Afterwards the next result in turn is not among the pending ones.
pub add_keeps :
    (b : ReorderBuffer) (l : LockedProduct) (ready : List LockedProduct)
    → b.next_sequence ≤ l.fifo_sequence
    → (add b l).1 ≡ ok ready
    → (In l ready ⊎ (Dict.get ℕ_discrete l.fifo_sequence (add b l).0.pending ≡ some l))
      × (Dict.get ℕ_discrete (add b l).0.next_sequence (add b l).0.pending ≡ none)
unfolding add with_result
add_keeps b l ready h e = ground (
  arith,
  Dict.get-put_self ℕ_discrete l.fifo_sequence l b.pending,
  drain_keeps (length (with_result b l).pending) (with_result b l) l.fifo_sequence l,
  drain-ends (length (with_result b l).pending) (with_result b l),
)

-- A result that contradicts a pending one of the same sequence is refused, and changes nothing.
add_conflict :
    (b : ReorderBuffer) (l old : LockedProduct)
    → b.next_sequence ≤ l.fifo_sequence
    → Dict.get ℕ_discrete l.fifo_sequence b.pending ≡ some old
    → old ≢ l
    → add b l ≡ (b, raise value_error)
unfolding add
add_conflict b l old h e n = ground arith
