-- ===== src/Master/Ledger/Sweep.antt =====
-- Products leave the line from its front, and the invariant is kept.
use ai_vision_inspection.Base.{
  ℕ, ◌≤◌, String, String-discrete, List, [], ◌∷◌, ◌++◌, Option, none, some, true, false, All, ◌≡◌,
  refl, arith, Option-cases, inl, inr, map, Bool-cases,
}
use ai_vision_inspection.Base.Dict
use ai_vision_inspection.Master.Product.{ProductContext}
use ai_vision_inspection.Master.Ledger.{Ledger}
use ai_vision_inspection.Master.Ledger.Removal.{
  Store, Swept, also, swept, take_off, is_finished, sweep_prefix, sweep_all,
  remove_completed_prefix, clear_active,
}
use ai_vision_inspection.Master.Ledger.Line.{
  Line, UpTo, store, context_of, Line-mono, Line-store_below,
}
use ai_vision_inspection.Master.Ledger.Invariant.{IsOrdered}

-- What holds of the contexts, whatever is on the line.
abbrev Known : ℕ → Store → Type 0
Known n d = UpTo n d × All (λ e. e.1.product_id ≡ e.0) d × Dict.Unique String-discrete d

-- A loop over the line leaves a line of known contexts.
abbrev Keeps : ℕ → ℕ → Option Swept → Type 0
Keeps k n none = ⊥
Keeps k n (some (ids, d, cs)) = Line d k ids × Known n d

Keeps-also :
    (j k n : ℕ) (c : ProductContext) (o : Option Swept) → j ≤ k → Keeps k n o → Keeps j n (also c o)
Keeps-also j k n c none h p = p
Keeps-also j k n c (some (ids, d, cs)) h p = (Line-mono d j k ids h p.0, p.1)

-- A context that is taken off may be written back.
Known-take_off :
    (at : ℕ) (d : Store) (n : ℕ) (id : String) (c : ProductContext)
    → context_of id d ≡ some c
    → Known n d
    → Known n (store id (take_off at c) d)
Known-take_off at d n id c e (u, q, w) = (
  Dict.put-All String-discrete (λ e. e.1.fifo_sequence ≤ n) id (take_off at c) d
      (Dict.get-All String-discrete (λ e. e.1.fifo_sequence ≤ n) id c d u e) u,
  Dict.put-All String-discrete (λ e. e.1.product_id ≡ e.0) id (take_off at c) d
      (Dict.get-All String-discrete (λ e. e.1.product_id ≡ e.0) id c d q e) q,
  Dict.put-Unique String-discrete id (take_off at c) d w,
)

module _ (at : ℕ) where
  sweep_prefix-Keeps :
      (d : Store) (k n : ℕ) (ids : List String)
      → Line d k ids
      → Known n d
      → Keeps k n (sweep_prefix at d ids)
  unfolding sweep_prefix
  sweep_prefix-Keeps d k n [] l u = (tt, u)
  sweep_prefix-Keeps d k n (id ∷ ids) l u = elim (Option-cases (context_of id d)) [
    | inl e ↦ absurd (ground arith)
    | inr (c, e) ↦
        let rest =
          sweep_prefix-Keeps (store id (take_off at c) d) c.fifo_sequence n ids
            (Line-store_below d c.fifo_sequence ids id c (take_off at c) e (omega arith)
              (ground arith))
            (Known-take_off at d n id c e u) in
        ground (arith, Keeps-also k c.fifo_sequence n (take_off at c) _ (ground arith) rest)
  ]

  sweep_all-Keeps :
      (d : Store) (k n : ℕ) (ids : List String)
      → Line d k ids
      → Known n d
      → Keeps k n (sweep_all at d ids)
  unfolding sweep_all
  sweep_all-Keeps d k n [] l u = (tt, u)
  sweep_all-Keeps d k n (id ∷ ids) l u = elim (Option-cases (context_of id d)) [
    | inl e ↦ absurd (ground arith)
    | inr (c, e) ↦
        let rest =
          sweep_all-Keeps (store id (take_off at c) d) c.fifo_sequence n ids
            (Line-store_below d c.fifo_sequence ids id c (take_off at c) e (omega arith)
              (ground arith))
            (Known-take_off at d n id c e u) in
        ground (arith, Keeps-also k c.fifo_sequence n (take_off at c) _ (ground arith) rest)
  ]

-- The loop ends without a KeyError in an ordered ledger.
abbrev pub EndsOrdered : Option (Ledger × List ProductContext) → Type 0
EndsOrdered none = ⊥
EndsOrdered (some (l, cs)) = IsOrdered l

swept-EndsOrdered :
    (l : Ledger) (o : Option Swept) → Keeps 0 l.last_sequence o → EndsOrdered (swept l o)
swept-EndsOrdered l none k = k
swept-EndsOrdered l (some (ids, d, cs)) k = record {
  line = k.0;
  up_to = k.1.0;
  keyed = k.1.1;
  unique = k.1.2;
}

-- Taking the finished products off the front of an ordered ledger raises nothing, and leaves an
-- ordered ledger.
pub remove_completed_prefix-EndsOrdered :
    (l : Ledger) (at : ℕ) → IsOrdered l → EndsOrdered (remove_completed_prefix l at)
unfolding remove_completed_prefix
remove_completed_prefix-EndsOrdered l at v =
    swept-EndsOrdered l _
      (sweep_prefix-Keeps at l.by_id 0 l.last_sequence l.active v.line (v.up_to, v.keyed, v.unique))

pub clear_active-EndsOrdered : (l : Ledger) (at : ℕ) → IsOrdered l → EndsOrdered (clear_active l at)
unfolding clear_active
clear_active-EndsOrdered l at v =
    swept-EndsOrdered l _
      (sweep_all-Keeps at l.by_id 0 l.last_sequence l.active v.line (v.up_to, v.keyed, v.unique))

-- The product at the front of the line, if there is one, is not finished.
abbrev pub FrontWaits : Store → List String → Type 0
FrontWaits d [] = Unit {0}
FrontWaits d (id ∷ ids) = elim (context_of id d) [ none ↦ ⊥ | some c ↦ is_finished c ≡ false ]

abbrev pub names : List ProductContext → List String
names = map (λ c. c.product_id)

-- The product is finished, and was taken off at the time.
abbrev pub TakenOff : ℕ → ProductContext → Type 0
TakenOff at c = (is_finished c ≡ true) × (c.removed ≡ true) × (c.removed_monotonic_ns ≡ at)

-- The identifiers split into those that left, all of finished products, and those that stay.
abbrev TakesPrefix : ℕ → List String → Option Swept → Type 0
TakesPrefix at ids none = ⊥
TakesPrefix at ids (some (ids', d', cs)) =
    (names cs ++ ids' ≡ ids) × All (TakenOff at) cs × FrontWaits d' ids'

TakesPrefix-also :
    (at : ℕ) (id : String) (ids : List String) (c : ProductContext) (o : Option Swept)
    → c.product_id ≡ id
    → TakenOff at c
    → TakesPrefix at ids o
    → TakesPrefix at (id ∷ ids) (also c o)
TakesPrefix-also at id ids c none e t p = p
TakesPrefix-also at id ids c (some (ids', d', cs)) e t p = (rw (e, p.0) refl, (t, p.1), p.2)

sweep_prefix-TakesPrefix :
    (at : ℕ) (d : Store) (k n : ℕ) (ids : List String)
    → Line d k ids
    → Known n d
    → TakesPrefix at ids (sweep_prefix at d ids)
unfolding sweep_prefix
sweep_prefix-TakesPrefix at d k n [] l u = (refl, tt, tt)
sweep_prefix-TakesPrefix at d k n (id ∷ ids) l u = elim (Option-cases (context_of id d)) [
  | inl e ↦ absurd (ground arith)
  | inr (c, e) ↦
      let own = Dict.get-All String-discrete (λ e. e.1.product_id ≡ e.0) id c d u.1 e in
      let rest =
        sweep_prefix-TakesPrefix at (store id (take_off at c) d) c.fifo_sequence n ids
          (Line-store_below d c.fifo_sequence ids id c (take_off at c) e (omega arith)
            (ground arith))
          (Known-take_off at d n id c e u) in
      elim (Bool-cases (is_finished c)) [
        | inl f ↦
            ground (arith, TakesPrefix-also at id ids (take_off at c) _ own (f, refl, refl) rest)
        | inr f ↦ ground arith
      ]
]

-- The call raised nothing; the identifiers that left and the ones that stay are the old line, in
-- order; each product that left is finished and marked; the front of what stays is not finished.
abbrev pub TookLongestPrefix : ℕ → Ledger → Option (Ledger × List ProductContext) → Type 0
TookLongestPrefix at l none = ⊥
TookLongestPrefix at l (some (l', cs)) =
    (names cs ++ l'.active ≡ l.active) × All (TakenOff at) cs × FrontWaits l'.by_id l'.active

swept-TookLongestPrefix :
    (at : ℕ) (l : Ledger) (o : Option Swept)
    → TakesPrefix at l.active o
    → TookLongestPrefix at l (swept l o)
swept-TookLongestPrefix at l none t = t
swept-TookLongestPrefix at l (some (ids, d, xs)) t = t

-- From an ordered ledger the finished products leave without a KeyError, and exactly the longest
-- prefix of the line that is finished leaves, in order; each product that leaves is marked.
pub remove_completed_prefix-TookLongestPrefix :
    (l : Ledger) (at : ℕ) → IsOrdered l → TookLongestPrefix at l (remove_completed_prefix l at)
unfolding remove_completed_prefix
remove_completed_prefix-TookLongestPrefix l at v = swept-TookLongestPrefix at l _ (
    sweep_prefix-TakesPrefix at l.by_id 0 l.last_sequence l.active v.line
      (v.up_to, v.keyed, v.unique))
