-- ===== src/Master/Ledger/Pruning.antt =====
-- Which contexts ProductLedger.prune_removed (product_flow.py) lets go of, and what it leaves alone.
use ai_vision_inspection.Base.{
  ℕ, ◌≤◌, ◌<◌, String, String-discrete, List, [], ◌∷◌, Option, none, some, true, All, ◌≡◌, refl,
  ◌⊎◌, ◌↔◌, ◌∙◌, if◌then◌else◌, Bool-cases, inl, inr, arith,
}
use ai_vision_inspection.Base.Dict
use ai_vision_inspection.Master.Product.{ProductContext}
use ai_vision_inspection.Master.Ledger.{Ledger, new_ledger, get_by_id}
use ai_vision_inspection.Master.Ledger.Removal.{
  Store, forget, prune, is_expired, prune_each, prune_removed,
}
use ai_vision_inspection.Master.Ledger.Line.{context_of}
use ai_vision_inspection.Master.Ledger.Calls.{
  Call, calls, calls-IsOrdered, prune-SameLine, prune-by_id,
}
use ai_vision_inspection.Master.Ledger.Invariant.{IsOrdered, new_ledger-IsOrdered}

prune-active : (l : Ledger) (id : String) (c : ProductContext) → (prune l id c).active ≡ l.active
unfolding forget
prune-active l id c = (prune-SameLine l id c).active

prune_each-active :
    (cutoff : ℕ) (es : Store) (l : Ledger) → (prune_each cutoff es l).0.active ≡ l.active
unfolding prune_each
prune_each-active cutoff [] l = refl
prune_each-active cutoff ((id, c) ∷ es) l = elim (Bool-cases (is_expired cutoff c)) [
  | inl x ↦ rw x (prune_each-active cutoff es (prune l id c) ∙ prune-active l id c)
  | inr x ↦ rw x (prune_each-active cutoff es l)
]

pub prune_removed-active : (l : Ledger) (cutoff : ℕ) → (prune_removed l cutoff).0.active ≡ l.active
unfolding prune_removed
prune_removed-active l cutoff = prune_each-active cutoff l.by_id l

module _ (P : String × ProductContext → Type 0) where
  prune_each-All :
      (cutoff : ℕ) (es : Store) (l : Ledger)
      → All P l.by_id
      → All P (prune_each cutoff es l).0.by_id
  unfolding prune_each
  prune_each-All cutoff [] l h = h
  prune_each-All cutoff ((id, c) ∷ es) l h = elim (Bool-cases (is_expired cutoff c)) [
    | inl x ↦ rw x (
        prune_each-All cutoff es (prune l id c)
          (rw (prune-by_id l id c) (Dict.pop-All String-discrete P id l.by_id h)))
    | inr x ↦ rw x (prune_each-All cutoff es l h)
  ]

  pub prune_removed-All :
      (l : Ledger) (cutoff : ℕ) → All P l.by_id → All P (prune_removed l cutoff).0.by_id
  unfolding prune_removed
  prune_removed-All l cutoff h = prune_each-All cutoff l.by_id l h

-- What is left of a context that the loop comes across.
abbrev left : ℕ → Option ProductContext → Option ProductContext → Option ProductContext
left cutoff none o = o
left cutoff (some c) o = if is_expired cutoff c then none else o

prune_each-context_of :
    (cutoff : ℕ) (id : String) (es : Store) (l : Ledger)
    → Dict.Unique String-discrete es
    → context_of id (prune_each cutoff es l).0.by_id
      ≡ left cutoff (context_of id es) (context_of id l.by_id)
unfolding prune_each Dict.get
prune_each-context_of cutoff id [] l u = refl
prune_each-context_of cutoff id ((j, c) ∷ es) l u = elim (Bool-cases (is_expired cutoff c)) [
  | inl x ↦ rw x (
      ground (
        arith,
        prune_each-context_of cutoff id es (prune l j c) u.1,
        prune-by_id l j c,
        Dict.get-pop String-discrete j id l.by_id,
      ))
  | inr x ↦ rw x (ground (arith, prune_each-context_of cutoff id es l u.1))
]

prune_removed-context_of :
    (l : Ledger) (cutoff : ℕ) (id : String)
    → IsOrdered l
    → get_by_id (prune_removed l cutoff).0 id ≡ left cutoff (get_by_id l id) (get_by_id l id)
unfolding prune_removed
prune_removed-context_of l cutoff id v = prune_each-context_of cutoff id l.by_id l v.unique

-- After any calls on a new ledger, pruning lets go of a context exactly when the product was taken off the
-- line at a time that is recorded and not after the cutoff; what is left under any identifier is what
-- there was, so that no context is changed or added, and the identifiers on the line are the same.
pub prune_removed-exact :
    (xs : List Call) (cutoff : ℕ) (id other : String) (c : ProductContext)
    → get_by_id (calls new_ledger xs) id ≡ some c
    → ((get_by_id (prune_removed (calls new_ledger xs) cutoff).0 id ≡ none)
        ↔ ((c.removed ≡ true) × (0 < c.removed_monotonic_ns) × (c.removed_monotonic_ns ≤ cutoff)))
      × ((get_by_id (prune_removed (calls new_ledger xs) cutoff).0 other ≡ none)
          ⊎ (get_by_id (prune_removed (calls new_ledger xs) cutoff).0 other
              ≡ get_by_id (calls new_ledger xs) other))
      × ((prune_removed (calls new_ledger xs) cutoff).0.active ≡ (calls new_ledger xs).active)
prune_removed-exact xs cutoff id other c e =
    let l = calls new_ledger xs in
    let v = calls-IsOrdered new_ledger xs new_ledger-IsOrdered in
    ground (
      arith,
      prune_removed-context_of l cutoff id v,
      prune_removed-context_of l cutoff other v,
      prune_removed-active l cutoff,
    )
