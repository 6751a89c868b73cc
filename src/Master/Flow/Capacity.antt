-- ===== src/Master/Flow/Capacity.antt =====
-- master_node.py: how many products the line holds.
use ai_vision_inspection.Base.{
  ℕ, suc, ◌≤◌, ◌<◌, String, List, [], ◌∷◌, ◌++◌, Option, none, some, length, ◌≡◌, refl, arith,
  Option-cases, Bool-cases, inl, inr,
}
use ai_vision_inspection.Master.Product.{ProductContext}
use ai_vision_inspection.Master.Ledger.{Ledger, register, register_capture, added, active_size}
use ai_vision_inspection.Master.Ledger.Line.{store, context_of}
use ai_vision_inspection.Master.Ledger.Removal.{
  Store, Swept, also, swept, take_off, is_finished, sweep_prefix, sweep_all,
  remove_completed_prefix, clear_active,
}
use ai_vision_inspection.Master.Ledger.Calls.{after, call, update}
use ai_vision_inspection.Master.Ledger.Pruning.{prune_removed-active}
use ai_vision_inspection.Master.Flow.{FlowNode}
use ai_vision_inspection.Master.Flow.Entry.{
  SensorEvent, Fresh, register_product, handle_sensor1_entry, sensor_entry, handle_sensor_event,
}
use ai_vision_inspection.Master.Flow.Steps.{Event, step}
use ai_vision_inspection.Master.Flow.Keeps.{IsKept, update-kept, faulted-kept}
use ai_vision_inspection.Master.Flow.Keeps.Entry.{
  entered-kept, handle_sensor2_entry-kept, handle_sensor3_entry-kept,
}
use ai_vision_inspection.Master.Flow.Keeps.Steps.{step-kept}

length-snoc : (ids : List String) (id : String) → length (ids ++ id ∷ []) ≡ suc (length ids)
length-snoc [] id = refl
length-snoc (x ∷ ids) id = ground (arith, length-snoc ids id)

register-size :
    (l : Ledger) (id : String) (sequence : ℕ)
    → active_size (register l id sequence).0 ≤ suc (active_size l)
unfolding register added
register-size l id sequence = ground (arith, length-snoc l.active id)

-- A loop leaves no more products on the line than there were.
abbrev Shorter : ℕ → Option Swept → Type 0
Shorter m none = Unit
Shorter m (some (ids, d, cs)) = length ids ≤ m

also-Shorter :
    (m : ℕ) (c : ProductContext) (o : Option Swept) → Shorter m o → Shorter (suc m) (also c o)
also-Shorter m c none h = h
also-Shorter m c (some (ids, d, cs)) h = omega (arith, h)

module _ (at : ℕ) where
  sweep_prefix-Shorter :
      (ids : List String) (d : Store) → Shorter (length ids) (sweep_prefix at d ids)
  unfolding sweep_prefix
  sweep_prefix-Shorter [] d = omega arith
  sweep_prefix-Shorter (id ∷ ids) d = elim (Option-cases (context_of id d)) [
    | inl e ↦ rw (e, Shorter) tt
    | inr (c, e) ↦ elim (Bool-cases (is_finished c)) [
      | inl x ↦
          rw (e, x, Shorter)
            (also-Shorter (length ids) (take_off at c) _
              (sweep_prefix-Shorter ids (store id (take_off at c) d)))
      | inr x ↦ rw (e, x, Shorter) (omega arith)
    ]
  ]

  sweep_all-Shorter : (ids : List String) (d : Store) → Shorter (length ids) (sweep_all at d ids)
  unfolding sweep_all
  sweep_all-Shorter [] d = omega arith
  sweep_all-Shorter (id ∷ ids) d = elim (Option-cases (context_of id d)) [
    | inl e ↦ rw (e, Shorter) tt
    | inr (c, e) ↦
        rw (e, Shorter)
          (also-Shorter (length ids) (take_off at c) _
            (sweep_all-Shorter ids (store id (take_off at c) d)))
  ]

after-size :
    (cap : ℕ) (l : Ledger) (o : Option Swept)
    → active_size l ≤ cap
    → Shorter (active_size l) o
    → active_size (after l (swept l o)) ≤ cap
after-size cap l none h s = h
after-size cap l (some (ids, d, cs)) h s = omega (arith, h, s)

module _ (cap : ℕ) where
  abbrev Fits : Ledger → Type 0
  Fits l = active_size l ≤ cap

  Fits-IsKept : IsKept Fits
  unfolding call update register_capture remove_completed_prefix clear_active
  Fits-IsKept = record {
    updates = λ l id x h. ground arith;
    captures = λ l capture id s h. ground arith;
    finishes = λ l now h. after-size cap l _ h (sweep_prefix-Shorter now l.active l.by_id);
    clears = λ l now h. after-size cap l _ h (sweep_all-Shorter now l.active l.by_id);
    prunes = λ l cutoff h. rw (prune_removed-active l cutoff) h;
  }

  register_product-Fits :
      (n : FlowNode) (e : SensorEvent) (fresh : Fresh) (now : ℕ)
      → active_size n.master.ledger < cap
      → Fits (register_product n e fresh now).master.ledger
  unfolding register_product
  register_product-Fits n e fresh now h =
      grind (arith, update-kept Fits Fits-IsKept, entered-kept Fits Fits-IsKept, register-size)

  handle_sensor1_entry-Fits :
      (n : FlowNode) (e : SensorEvent) (fresh : Fresh) (now : ℕ)
      → n.flow.fifo_hard_capacity ≡ cap
      → Fits n.master.ledger
      → Fits (handle_sensor1_entry n e fresh now).master.ledger
  unfolding handle_sensor1_entry
  handle_sensor1_entry-Fits n e fresh now c h =
      grind (arith, faulted-kept Fits Fits-IsKept, register_product-Fits)

  sensor_entry-Fits :
      (n : FlowNode) (index : ℕ) (e : SensorEvent) (fresh : Fresh) (now : ℕ)
      → n.flow.fifo_hard_capacity ≡ cap
      → Fits n.master.ledger
      → Fits (sensor_entry n index e fresh now).master.ledger
  unfolding sensor_entry
  sensor_entry-Fits n index e fresh now c h = grind (
    arith,
    handle_sensor1_entry-Fits,
    handle_sensor2_entry-kept Fits Fits-IsKept,
    handle_sensor3_entry-kept Fits Fits-IsKept,
  )

  handle_sensor_event-Fits :
      (n : FlowNode) (e : SensorEvent) (fresh : Fresh) (now : ℕ)
      → n.flow.fifo_hard_capacity ≡ cap
      → Fits n.master.ledger
      → Fits (handle_sensor_event n e fresh now).master.ledger
  unfolding handle_sensor_event
  handle_sensor_event-Fits n e fresh now c h =
      grind (arith, faulted-kept Fits Fits-IsKept, sensor_entry-Fits)

-- A line that holds no more products than the hard capacity of the FIFO holds no more of them after any
-- step.
pub step-bounded :
    {Score : Type 0} (n : FlowNode) (e : Event Score) (now : ℕ)
    → active_size n.master.ledger ≤ n.flow.fifo_hard_capacity
    → active_size (step n e now).master.ledger ≤ n.flow.fifo_hard_capacity
step-bounded n e now h =
    let cap = n.flow.fifo_hard_capacity in
    step-kept (Fits cap) (Fits-IsKept cap) n e now
      (λ s fresh. handle_sensor_event-Fits cap n s fresh now refl h) h
