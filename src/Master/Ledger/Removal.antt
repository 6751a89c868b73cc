-- ===== src/Master/Ledger/Removal.antt =====
-- How products leave ProductLedger (product_flow.py).
use ai_vision_inspection.Base.{
  ℕ, ◌*◌, String, String-discrete, ℕ_discrete, List, [], ◌∷◌, Option, none, some, Bool, true, ◌||◌,
  not, equals, ltb, nat_eq, if◌then◌else◌,
}
use ai_vision_inspection.Base.Dict
use ai_vision_inspection.Constants.{done}
use ai_vision_inspection.Master.Product.{ProductContext, touch}
use ai_vision_inspection.Master.Product.Cycle.{state_is}
use ai_vision_inspection.Master.Ledger.{
  Ledger, Owner, ProductKey, ProductKey-discrete, retired_capacity,
}

-- The context is taken off the line at the time.
abbrev pub take_off : ℕ → ProductContext → ProductContext
take_off at c = touch (record c { removed = true; removed_monotonic_ns = at })

abbrev pub is_finished : ProductContext → Bool
is_finished c = not (not c.completed || not (state_is c done))

abbrev pub Store : Type 0
Store = List (String × ProductContext)

-- What a loop leaves: the FIFO, the contexts, and those that it took off, in order.
abbrev pub Swept : Type 0
Swept = List String × Store × List ProductContext

abbrev pub also : ProductContext → Option Swept → Option Swept
also c none = none
also c (some (ids, d, cs)) = some (ids, d, c ∷ cs)

-- The loop of `remove_completed_prefix`; `none` is a KeyError.
unfoldable pub sweep_prefix : ℕ → Store → List String → Option Swept
sweep_prefix at d [] = some ([], d, [])
sweep_prefix at d (id ∷ ids) = elim (Dict.get String-discrete id d) [
  | none ↦ none
  | some c ↦
      let rest = sweep_prefix at (Dict.put String-discrete id (take_off at c) d) ids in
      if not (is_finished c) then some (id ∷ ids, d, []) else also (take_off at c) rest
]

-- The loop of `clear_active`.
unfoldable pub sweep_all : ℕ → Store → List String → Option Swept
sweep_all at d [] = some ([], d, [])
sweep_all at d (id ∷ ids) = elim (Dict.get String-discrete id d) [
  | none ↦ none
  | some c ↦ also (take_off at c) (sweep_all at (Dict.put String-discrete id (take_off at c) d) ids)
]

abbrev pub swept : Ledger → Option Swept → Option (Ledger × List ProductContext)
swept l none = none
swept l (some (ids, d, cs)) = some (record l { active = ids; by_id = d }, cs)

unfoldable pub remove_completed_prefix : Ledger → ℕ → Option (Ledger × List ProductContext)
remove_completed_prefix l at = swept l (sweep_prefix at l.by_id l.active)

unfoldable pub clear_active : Ledger → ℕ → Option (Ledger × List ProductContext)
clear_active l at = swept l (sweep_all at l.by_id l.active)

-- One round of the inner loop of `prune_removed`, for a capture and its owner.
unfoldable pub retire_one : String → String → Owner → Ledger → Ledger
retire_one id capture owner l = if not (equals String-discrete owner.0 id) then l else record l {
  capture_owners = Dict.pop String-discrete capture l.capture_owners;
  retired_captures =
      Dict.move_to_end String-discrete capture
        (Dict.put String-discrete capture tt l.retired_captures);
}

-- The inner loop of `prune_removed` over the owners of the captures.
unfoldable pub retire_captures : String → List (String × Owner) → Ledger → Ledger
unfolding retire_one
retire_captures id [] l = l
retire_captures id ((capture, owner) ∷ es) l = retire_captures id es (retire_one id capture owner l)

-- `_trim_retired`
unfoldable pub trim_retired : Ledger → Ledger
trim_retired l = record l {
  retired_products = Dict.trim retired_capacity l.retired_products;
  retired_captures = Dict.trim (retired_capacity * 2) l.retired_captures;
}

unfoldable pub forget : Ledger → String → ProductContext → Ledger
forget l id c =
    let key : ProductKey = (c.product_id, c.fifo_sequence) in
    record l {
      by_id = Dict.pop String-discrete id l.by_id;
      id_by_sequence = Dict.pop ℕ_discrete c.fifo_sequence l.id_by_sequence;
      retired_products =
          Dict.move_to_end ProductKey-discrete key
            (Dict.put ProductKey-discrete key tt l.retired_products);
    }

-- One product of the loop of `prune_removed` is pruned.
unfoldable pub prune : Ledger → String → ProductContext → Ledger
prune l id c =
    let l' = forget l id c in trim_retired (retire_captures c.product_id l'.capture_owners l')

-- The removal lies before the cutoff.
abbrev pub is_expired : ℕ → ProductContext → Bool
is_expired cutoff c =
    not (not c.removed || nat_eq c.removed_monotonic_ns 0 || ltb cutoff c.removed_monotonic_ns)

-- The loop of `prune_removed` over the items that it has copied.
unfoldable pub prune_each : ℕ → Store → Ledger → Ledger × List String
prune_each cutoff [] l = (l, [])
prune_each cutoff ((id, c) ∷ es) l =
    let gone = is_expired cutoff c in
    let (l', ids) = prune_each cutoff es (if gone then prune l id c else l) in
    (l', if gone then id ∷ ids else ids)

unfoldable pub prune_removed : Ledger → ℕ → Ledger × List String
prune_removed l cutoff = prune_each cutoff l.by_id l
