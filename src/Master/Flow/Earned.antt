-- ===== src/Master/Flow/Earned.antt =====
-- master_node.py: the verdicts of the products after whatever happens to the line.
use ai_vision_inspection.Base.{
  ℕ, String, String-discrete, List, [], ◌∷◌, Option, none, some, true, All, ◌≡◌, ◌⊎◌, arith,
  Option-cases, Bool-cases, inl, inr,
}
use ai_vision_inspection.Base.Dict
use ai_vision_inspection.Constants.{StationId, pass}
use ai_vision_inspection.Master.Product.{ProductContext, new_context}
use ai_vision_inspection.Master.Product.Command.{Command}
use ai_vision_inspection.Master.Product.Command as Product
use ai_vision_inspection.Master.Product.Locking.{
  locked_as, decided, PassIsEarned, step-PassIsEarned,
}
use ai_vision_inspection.Master.Ledger.{
  Ledger, new_ledger, get_by_id, register, register_capture, added,
}
use ai_vision_inspection.Master.Ledger.Removal.{
  Store, Swept, also, swept, take_off, is_finished, sweep_prefix, sweep_all,
  remove_completed_prefix, clear_active,
}
use ai_vision_inspection.Master.Ledger.Line.{store, context_of}
use ai_vision_inspection.Master.Ledger.Calls.{after, call, update}
use ai_vision_inspection.Master.Ledger.Pruning.{prune_removed-All}
use ai_vision_inspection.Master.Flow.{FlowNode}
use ai_vision_inspection.Master.Flow.Steps.{Event, steps}
use ai_vision_inspection.Master.Flow.Keeps.{IsKept}
use ai_vision_inspection.Master.Flow.Keeps.Steps.{steps-kept}

-- Every product of the store has earned its verdict.
abbrev Earned : Store → Type 0
Earned d = All (λ e. PassIsEarned e.1) d

abbrev LedgerEarned : Ledger → Type 0
LedgerEarned l = Earned l.by_id

store-Earned :
    (d : Store) (id : String) (c : ProductContext)
    → PassIsEarned c
    → Earned d
    → Earned (store id c d)
store-Earned d id c p h = Dict.put-All String-discrete (λ e. PassIsEarned e.1) id c d p h

found-PassIsEarned :
    (d : Store) (id : String) (c : ProductContext)
    → context_of id d ≡ some c
    → Earned d
    → PassIsEarned c
found-PassIsEarned d id c e h = Dict.get-All String-discrete (λ e. PassIsEarned e.1) id c d h e

update-LedgerEarned :
    (l : Ledger) (id : String) (x : Command) → LedgerEarned l → LedgerEarned (update l id x)
unfolding update
update-LedgerEarned l id x h = elim (Option-cases (context_of id l.by_id)) [
  | inl e ↦ rw (e, update) h
  | inr (c, e) ↦
      rw (e, update)
        (store-Earned l.by_id id (Product.step c x)
          (step-PassIsEarned c x (found-PassIsEarned l.by_id id c e h)) h)
]

register-cases :
    (l : Ledger) (id : String) (sequence : ℕ)
    → ((register l id sequence).0 ≡ l) ⊎ ((register l id sequence).0 ≡ added l id sequence)
unfolding register
register-cases l id sequence = ground arith

register-LedgerEarned :
    (l : Ledger) (id : String) (sequence : ℕ)
    → LedgerEarned l
    → LedgerEarned (register l id sequence).0
unfolding added
register-LedgerEarned l id sequence h = elim (register-cases l id sequence) [
  | inl e ↦ rw e h
  | inr e ↦ rw e (
      store-Earned l.by_id id (new_context id sequence)
        (record { by_a = λ p. ground arith; by_b = λ p. ground arith }) h)
]

register_capture-by_id :
    (l : Ledger) (capture id : String) (s : StationId)
    → (register_capture l capture id s).0.by_id ≡ l.by_id
unfolding register_capture
register_capture-by_id l capture id s = ground arith

abbrev SweptEarned : Option Swept → Type 0
SweptEarned none = Unit
SweptEarned (some (ids, d, cs)) = Earned d

also-SweptEarned : (c : ProductContext) (o : Option Swept) → SweptEarned o → SweptEarned (also c o)
also-SweptEarned c none h = h
also-SweptEarned c (some (ids, d, cs)) h = h

take_off-PassIsEarned :
    (at : ℕ) (c : ProductContext) → PassIsEarned c → PassIsEarned (take_off at c)
take_off-PassIsEarned at c h = record { by_a = h.by_a; by_b = h.by_b }

module _ (at : ℕ) where
  taken-Earned :
      (d : Store) (id : String) (c : ProductContext)
      → context_of id d ≡ some c
      → Earned d
      → Earned (store id (take_off at c) d)
  taken-Earned d id c e h =
      store-Earned d id (take_off at c) (take_off-PassIsEarned at c (found-PassIsEarned d id c e h))
        h

  sweep_prefix-SweptEarned :
      (d : Store) (ids : List String) → Earned d → SweptEarned (sweep_prefix at d ids)
  unfolding sweep_prefix
  sweep_prefix-SweptEarned d [] h = h
  sweep_prefix-SweptEarned d (id ∷ ids) h = elim (Option-cases (context_of id d)) [
    | inl e ↦ rw (e, SweptEarned) tt
    | inr (c, e) ↦ elim (Bool-cases (is_finished c)) [
      | inl x ↦
          rw (e, x, SweptEarned)
            (also-SweptEarned (take_off at c) _
              (sweep_prefix-SweptEarned (store id (take_off at c) d) ids (taken-Earned d id c e h)))
      | inr x ↦ rw (e, x, SweptEarned) h
    ]
  ]

  sweep_all-SweptEarned :
      (d : Store) (ids : List String) → Earned d → SweptEarned (sweep_all at d ids)
  unfolding sweep_all
  sweep_all-SweptEarned d [] h = h
  sweep_all-SweptEarned d (id ∷ ids) h = elim (Option-cases (context_of id d)) [
    | inl e ↦ rw (e, SweptEarned) tt
    | inr (c, e) ↦
        rw (e, SweptEarned)
          (also-SweptEarned (take_off at c) _
            (sweep_all-SweptEarned (store id (take_off at c) d) ids (taken-Earned d id c e h)))
  ]

after-LedgerEarned :
    (l : Ledger) (o : Option Swept)
    → LedgerEarned l
    → SweptEarned o
    → LedgerEarned (after l (swept l o))
after-LedgerEarned l none h s = h
after-LedgerEarned l (some (ids, d, cs)) h s = s

LedgerEarned-IsKept : IsKept LedgerEarned
unfolding call remove_completed_prefix clear_active
LedgerEarned-IsKept = record {
  updates = update-LedgerEarned;
  captures = λ l capture id s h. rw (register_capture-by_id l capture id s) h;
  finishes = λ l now h. after-LedgerEarned l _ h (sweep_prefix-SweptEarned now l.by_id l.active h);
  clears = λ l now h. after-LedgerEarned l _ h (sweep_all-SweptEarned now l.by_id l.active h);
  prunes = λ l cutoff h. prune_removed-All (λ e. PassIsEarned e.1) l cutoff h;
}

-- Whatever happens to a line that starts with a new ledger, a product in its ledger that is locked as PASS
-- holds a decision with the verdict PASS of both stations.
pub steps-earned :
    {Score : Type 0} (n : FlowNode) (es : List (Event Score × ℕ)) (id : String) (c : ProductContext)
    → n.master.ledger ≡ new_ledger
    → get_by_id (steps n es).master.ledger id ≡ some c
    → locked_as c.locked pass ≡ true
    → (decided c.station_a.decision pass ≡ true) × (decided c.station_b.decision pass ≡ true)
unfolding new_ledger call
steps-earned n es id c start found locked =
    let earned =
      steps-kept LedgerEarned LedgerEarned-IsKept
        (λ l i sequence h. register-LedgerEarned l i sequence h) n es (rw start tt) in
    let p = found-PassIsEarned (steps n es).master.ledger.by_id id c found earned in
    (p.by_a locked, p.by_b locked)
