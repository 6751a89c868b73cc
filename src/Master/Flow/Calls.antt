-- ===== src/Master/Flow/Calls.antt =====
-- master_node.py: whatever happens to the line, in terms of the ledger's calls.
use ai_vision_inspection.Base.{
  ℕ, List, [], ◌∷◌, ◌++◌, some, false, ◌≡◌, refl, sym, subst, ◌∙◌, ap, Ascending, arith,
}
use ai_vision_inspection.Master.Product.{ProductContext}
use ai_vision_inspection.Master.Ledger.{Ledger, new_ledger, active_contexts}
use ai_vision_inspection.Master.Ledger.Fifo.{any_removed, sequences, states_fall}
use ai_vision_inspection.Master.Ledger.Line.{Line-contexts}
use ai_vision_inspection.Master.Ledger.Invariant.{IsOrdered, new_ledger-IsOrdered}
use ai_vision_inspection.Master.Ledger.Oldest.{validate_alignment-states_fall}
use ai_vision_inspection.Master.Operation.{fifo_aligned}
use ai_vision_inspection.Master.Ledger.Calls.{
  Call, call, calls, calls-IsOrdered, updates, captures, finishes, clears, prunes, registers,
}
use ai_vision_inspection.Master.Flow.{FlowNode}
use ai_vision_inspection.Master.Flow.Steps.{Event, steps}
use ai_vision_inspection.Master.Flow.Keeps.{IsKept}
use ai_vision_inspection.Master.Flow.Keeps.Steps.{steps-kept}

calls-append :
    (l : Ledger) (xs : List Call) (x : Call) → calls l (xs ++ x ∷ []) ≡ call (calls l xs) x
unfolding calls
calls-append l [] x = refl
calls-append l (y ∷ ys) x = calls-append (call l y) ys x

-- Calls on the first ledger lead to the second.
abbrev Reaches : Ledger → Ledger → Type 0
Reaches l l' = (xs : List Call) × (calls l xs ≡ l')

Reaches-call : (l l' : Ledger) (x : Call) → Reaches l l' → Reaches l (call l' x)
Reaches-call l l' x (xs, e) = (xs ++ x ∷ [], calls-append l xs x ∙ ap (λ k. call k x) e)

Reaches-IsKept : (l : Ledger) → IsKept (Reaches l)
unfolding call
Reaches-IsKept l = record {
  updates = λ l' id x. Reaches-call l l' (updates id x);
  captures = λ l' capture id s. Reaches-call l l' (captures capture id s);
  finishes = λ l' now. Reaches-call l l' (finishes now);
  clears = λ l' now. Reaches-call l l' (clears now);
  prunes = λ l' cutoff. Reaches-call l l' (prunes cutoff);
}

steps-calls :
    {Score : Type 0} (n : FlowNode) (es : List (Event Score × ℕ))
    → Reaches n.master.ledger (steps n es).master.ledger
unfolding calls
steps-calls n es =
    steps-kept (Reaches n.master.ledger) (Reaches-IsKept n.master.ledger)
      (λ l id sequence. Reaches-call n.master.ledger l (registers id sequence)) n es ([], refl)

reached-IsOrdered : (l l' : Ledger) → l ≡ new_ledger → Reaches l l' → IsOrdered l'
reached-IsOrdered l l' e (xs, r) =
    let same : calls new_ledger xs ≡ l' = ap (λ x. calls x xs) (sym e) ∙ r in
    subst IsOrdered same (calls-IsOrdered new_ledger xs new_ledger-IsOrdered)

-- Whatever happens to a line that starts with a new ledger, the pruning of old contexts included, every
-- identifier on the line has its context, no product on it is taken off, the sequences go up strictly along
-- it, and the test of the FIFO that a pause, a resumption and a reset make is the one that no product is
-- further along than one before it.
pub steps-line :
    {Score : Type 0} (n : FlowNode) (es : List (Event Score × ℕ))
    → n.master.ledger ≡ new_ledger
    → (cs : List ProductContext) × (active_contexts (steps n es).master.ledger ≡ some cs)
      × (any_removed cs ≡ false)
      × Ascending 0 (sequences cs)
      × (fifo_aligned (steps n es).master ≡ states_fall cs)
unfolding fifo_aligned
steps-line n es e =
    let l = (steps n es).master.ledger in
    let v = reached-IsOrdered n.master.ledger l e (steps-calls n es) in
    let (cs, found, kept, ascending) = Line-contexts l.by_id 0 l.active v.line in
    let (ds, found', aligned) = validate_alignment-states_fall l v in
    (cs, found, kept, ascending, ground arith)
