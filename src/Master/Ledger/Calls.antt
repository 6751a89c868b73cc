-- ===== src/Master/Ledger/Calls.antt =====
-- The calls on the ledger, one after the other, and the line after any of them.
use ai_vision_inspection.Base.{
  ℕ, ◌≤◌, String, String-discrete, List, [], ◌∷◌, Option, none, some, true, false, ◌≡◌, refl, arith,
  Option-cases, Bool-cases, inl, inr, ◌∙◌, Ascending,
}
use ai_vision_inspection.Base.Dict
use ai_vision_inspection.Constants.{StationId}
use ai_vision_inspection.Master.Product.{ProductContext}
use ai_vision_inspection.Master.Product.Command.{Command}
use ai_vision_inspection.Master.Product.Command as Product
use ai_vision_inspection.Master.Product.Frame.{step-SameProduct}
use ai_vision_inspection.Master.Ledger.{
  Ledger, Owner, register, register_capture, new_ledger, active_contexts,
}
use ai_vision_inspection.Master.Ledger.Removal.{
  Store, retire_one, forget, is_expired, remove_completed_prefix, clear_active, prune_removed,
  prune_each, prune, retire_captures, trim_retired,
}
use ai_vision_inspection.Master.Ledger.Fifo.{any_removed, sequences}
use ai_vision_inspection.Master.Ledger.Line.{
  store, context_of, Line-store_same, Line-pop_removed, Line-contexts,
}
use ai_vision_inspection.Master.Ledger.Invariant.{
  IsOrdered, new_ledger-IsOrdered, register-IsOrdered, register_capture-IsOrdered,
}
use ai_vision_inspection.Master.Ledger.Sweep.{
  EndsOrdered, remove_completed_prefix-EndsOrdered, clear_active-EndsOrdered,
}

-- A call on the context of a product, which the ledger and its callers share.
unfoldable pub update : Ledger → String → Command → Ledger
update l id x = elim (context_of id l.by_id) [
  | none ↦ l
  | some c ↦ record l { by_id = store id (Product.step c x) l.by_id }
]

update-IsOrdered :
    (l : Ledger) (id : String) (x : Command) → IsOrdered l → IsOrdered (update l id x)
unfolding update
update-IsOrdered l id x v = elim (Option-cases (context_of id l.by_id)) [
  | inl e ↦ rw (e, update) v
  | inr (c, e) ↦
      let same = step-SameProduct c x in
      rw (e, update)
        (record {
          line =
              Line-store_same l.by_id 0 l.active id c (Product.step c x) e same.fifo_sequence
                same.removed v.line;
          up_to =
              Dict.put-All String-discrete (λ e. e.1.fifo_sequence ≤ l.last_sequence) id
                (Product.step c x) l.by_id
                (rw (same.fifo_sequence) (
                  Dict.get-All String-discrete (λ e. e.1.fifo_sequence ≤ l.last_sequence) id c
                    l.by_id v.up_to e))
                v.up_to;
          keyed =
              Dict.put-All String-discrete (λ e. e.1.product_id ≡ e.0) id (Product.step c x) l.by_id
                (rw (same.product_id)
                  (Dict.get-All String-discrete (λ e. e.1.product_id ≡ e.0) id c l.by_id v.keyed e))
                v.keyed;
          unique = Dict.put-Unique String-discrete id (Product.step c x) l.by_id v.unique;
        })
]

-- The products, the line and the last sequence are the same.
pub record SameLine (l l' : Ledger) : Type 0 where
  pub by_id : l'.by_id ≡ l.by_id
  pub active : l'.active ≡ l.active
  pub last_sequence : l'.last_sequence ≡ l.last_sequence

retire_one-SameLine :
    (id capture : String) (owner : Owner) (l : Ledger) → SameLine l (retire_one id capture owner l)
unfolding retire_one
retire_one-SameLine id capture owner l = ground arith

retire-SameLine :
    (id : String) (es : List (String × Owner)) (l : Ledger) → SameLine l (retire_captures id es l)
unfolding retire_captures
retire-SameLine id [] l = record { by_id = refl; active = refl; last_sequence = refl }
retire-SameLine id ((capture, owner) ∷ es) l =
    let one = retire_one-SameLine id capture owner l in
    let rest = retire-SameLine id es (retire_one id capture owner l) in
    record {
      by_id = rest.by_id ∙ one.by_id;
      active = rest.active ∙ one.active;
      last_sequence = rest.last_sequence ∙ one.last_sequence;
    }

IsOrdered-SameLine : (l l' : Ledger) → SameLine l l' → IsOrdered l → IsOrdered l'
IsOrdered-SameLine l l' s v = record {
  line = rw (s.by_id, s.active) v.line;
  up_to = rw (s.by_id, s.last_sequence) v.up_to;
  keyed = rw s.by_id v.keyed;
  unique = rw s.by_id v.unique;
}

forget-IsOrdered :
    (l : Ledger) (id : String) (c : ProductContext)
    → context_of id l.by_id ≡ some c
    → c.removed ≡ true
    → IsOrdered l
    → IsOrdered (forget l id c)
unfolding forget
forget-IsOrdered l id c e r v = record {
  line = Line-pop_removed l.by_id 0 l.active id c e r v.line;
  up_to =
      Dict.pop-All String-discrete (λ e. e.1.fifo_sequence ≤ l.last_sequence) id l.by_id v.up_to;
  keyed = Dict.pop-All String-discrete (λ e. e.1.product_id ≡ e.0) id l.by_id v.keyed;
  unique = Dict.pop-Unique String-discrete id l.by_id v.unique;
}

pub prune-SameLine :
    (l : Ledger) (id : String) (c : ProductContext) → SameLine (forget l id c) (prune l id c)
unfolding prune trim_retired
prune-SameLine l id c =
    let same = retire-SameLine c.product_id (forget l id c).capture_owners (forget l id c) in
    record { by_id = same.by_id; active = same.active; last_sequence = same.last_sequence }

pub prune-by_id :
    (l : Ledger) (id : String) (c : ProductContext)
    → (prune l id c).by_id ≡ Dict.pop String-discrete id l.by_id
unfolding forget
prune-by_id l id c = (prune-SameLine l id c).by_id

prune_each-IsOrdered :
    (cutoff : ℕ) (es : Store) (l : Ledger)
    → Dict.Within String-discrete l.by_id es
    → Dict.Unique String-discrete es
    → IsOrdered l
    → IsOrdered (prune_each cutoff es l).0
unfolding prune_each
prune_each-IsOrdered cutoff [] l w u v = v
prune_each-IsOrdered cutoff ((id, c) ∷ es) l w u v = elim (Bool-cases (is_expired cutoff c)) [
  | inl x ↦ rw x (
      prune_each-IsOrdered cutoff es (prune l id c)
        (rw (prune-by_id l id c) (Dict.Within-pop String-discrete id l.by_id es u.0 w.1)) u.1
        (IsOrdered-SameLine (forget l id c) (prune l id c) (prune-SameLine l id c)
          (forget-IsOrdered l id c w.0 (ground arith) v)))
  | inr x ↦ rw x (prune_each-IsOrdered cutoff es l w.1 u.1 v)
]

prune_removed-IsOrdered :
    (l : Ledger) (cutoff : ℕ) → IsOrdered l → IsOrdered (prune_removed l cutoff).0
unfolding prune_removed
prune_removed-IsOrdered l cutoff v =
    prune_each-IsOrdered cutoff l.by_id l (Dict.Within-self String-discrete l.by_id v.unique)
      v.unique v

pub data Call : Type 0 where
  registers : String → ℕ → Call
  captures : String → String → StationId → Call
  updates : String → Command → Call
  finishes clears prunes : ℕ → Call

abbrev pub after : Ledger → Option (Ledger × List ProductContext) → Ledger
after l none = l
after l (some (l', cs)) = l'

unfoldable pub call : Ledger → Call → Ledger
call l (registers id sequence) = (register l id sequence).0
call l (captures capture id s) = (register_capture l capture id s).0
call l (updates id x) = update l id x
call l (finishes at) = after l (remove_completed_prefix l at)
call l (clears at) = after l (clear_active l at)
call l (prunes cutoff) = (prune_removed l cutoff).0

after-IsOrdered :
    (l : Ledger) (o : Option (Ledger × List ProductContext)) → EndsOrdered o → IsOrdered (after l o)
after-IsOrdered l none h = absurd h
after-IsOrdered l (some (l', cs)) h = h

-- Every operation of the ledger, and every call on one of its products, keeps the ledger ordered.
call-IsOrdered : (l : Ledger) (x : Call) → IsOrdered l → IsOrdered (call l x)
unfolding call
call-IsOrdered l (registers id sequence) v = register-IsOrdered l id sequence v
call-IsOrdered l (captures capture id s) v = register_capture-IsOrdered l capture id s v
call-IsOrdered l (updates id x) v = update-IsOrdered l id x v
call-IsOrdered l (finishes at) v = after-IsOrdered l _ (remove_completed_prefix-EndsOrdered l at v)
call-IsOrdered l (clears at) v = after-IsOrdered l _ (clear_active-EndsOrdered l at v)
call-IsOrdered l (prunes cutoff) v = prune_removed-IsOrdered l cutoff v

unfoldable pub calls : Ledger → List Call → Ledger
calls l [] = l
calls l (x ∷ xs) = calls (call l x) xs

pub calls-IsOrdered : (l : Ledger) (xs : List Call) → IsOrdered l → IsOrdered (calls l xs)
unfolding calls
calls-IsOrdered l [] v = v
calls-IsOrdered l (x ∷ xs) v = calls-IsOrdered (call l x) xs (call-IsOrdered l x v)

-- After any calls on a new ledger, every identifier on the line has its context, no product on the
-- line is taken off, and the sequences go up strictly along the line.
pub calls-line :
    (xs : List Call)
    → (cs : List ProductContext) × (active_contexts (calls new_ledger xs) ≡ some cs)
      × (any_removed cs ≡ false)
      × Ascending 0 (sequences cs)
calls-line xs = Line-contexts _ 0 _ (calls-IsOrdered new_ledger xs new_ledger-IsOrdered).line
