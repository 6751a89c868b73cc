-- ===== src/Master/Ledger/Invariant.antt =====
-- The invariant of ProductLedger, and that every operation keeps it.
use ai_vision_inspection.Base.{
  ℕ, ◌≤◌, ◌<◌, String, String-discrete, [], ◌∷◌, none, All, ◌≡◌, refl, arith,
}
use ai_vision_inspection.Base.Dict
use ai_vision_inspection.Constants.{StationId}
use ai_vision_inspection.Master.Product.{new_context}
use ai_vision_inspection.Master.Ledger.{Ledger, added, register, register_capture, new_ledger}
use ai_vision_inspection.Master.Ledger.Removal.{Store}
use ai_vision_inspection.Master.Ledger.Line.{Line, UpTo, context_of, Line-append}

pub record IsOrdered (l : Ledger) : Type 0 where
  -- the line is known, in order, and holds no product that was taken off
  pub line : Line l.by_id 0 l.active
  -- the last sequence given out is the greatest
  pub up_to : UpTo l.last_sequence l.by_id
  -- every context stands under its own identifier
  pub keyed : All (λ e. e.1.product_id ≡ e.0) l.by_id
  pub unique : Dict.Unique String-discrete l.by_id

pub new_ledger-IsOrdered : IsOrdered new_ledger
unfolding new_ledger
new_ledger-IsOrdered = record { line = tt; up_to = tt; keyed = tt; unique = tt }

UpTo-mono : (m n : ℕ) (d : Store) → m ≤ n → UpTo m d → UpTo n d
UpTo-mono m n [] h u = tt
UpTo-mono m n (e ∷ d) h u = (omega arith, UpTo-mono m n d h u.1)

added-IsOrdered :
    (l : Ledger) (id : String) (sequence : ℕ)
    → IsOrdered l
    → l.last_sequence < sequence
    → context_of id l.by_id ≡ none
    → IsOrdered (added l id sequence)
unfolding added
added-IsOrdered l id sequence v h e = record {
  line =
      Line-append l.by_id 0 l.last_sequence l.active id (new_context id sequence) v.up_to
        (omega arith) h refl e v.line;
  up_to =
      Dict.put-All String-discrete (λ e. e.1.fifo_sequence ≤ sequence) id (new_context id sequence)
        l.by_id (omega arith) (UpTo-mono l.last_sequence sequence l.by_id (omega arith) v.up_to);
  keyed =
      Dict.put-All String-discrete (λ e. e.1.product_id ≡ e.0) id (new_context id sequence) l.by_id
        refl v.keyed;
  unique = Dict.put-Unique String-discrete id (new_context id sequence) l.by_id v.unique;
}

pub register-IsOrdered :
    (l : Ledger) (id : String) (sequence : ℕ) → IsOrdered l → IsOrdered (register l id sequence).0
unfolding register
register-IsOrdered l id sequence v = ground (arith, added-IsOrdered l id sequence v)

pub register_capture-IsOrdered :
    (l : Ledger) (capture id : String) (s : StationId)
    → IsOrdered l
    → IsOrdered (register_capture l capture id s).0
unfolding register_capture
register_capture-IsOrdered l capture id s v = ground arith
