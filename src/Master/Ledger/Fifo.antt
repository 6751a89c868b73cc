-- ===== src/Master/Ledger/Fifo.antt =====
-- The questions that ProductLedger answers about the line (product_flow.py).
use ai_vision_inspection.Base.{
  ℕ, List, [], ◌∷◌, ◌++◌, map, Option, none, some, Bool, true, false, ◌&&◌, ◌||◌, not, ltb, leb,
  strictly_sorted, if◌then◌else◌, Result, ok, raise,
}
use ai_vision_inspection.Constants.{ProductPhysicalState, physical_value}
use ai_vision_inspection.Master.Product.{ProductContext, ProductError, flow_error}
use ai_vision_inspection.Master.Product.Cycle.{state_is}
use ai_vision_inspection.Master.Ledger.{Ledger, active_contexts}

abbrev pub value_of : ProductContext → ℕ
value_of c = physical_value c.physical_state

-- Some context of the list is behind the state.
unfoldable pub any_behind : ProductPhysicalState → List ProductContext → Bool
any_behind s [] = false
any_behind s (c ∷ cs) = ltb (value_of c) (physical_value s) || any_behind s cs

-- The loop of `oldest_in_state`; `earlier` are the contexts that were passed.
unfoldable pub oldest_from :
    ProductPhysicalState
    → List ProductContext
    → List ProductContext
    → Result ProductError ProductContext
oldest_from s earlier [] = raise flow_error
oldest_from s earlier (c ∷ cs) =
    let rest = oldest_from s (earlier ++ c ∷ []) cs in
    if not (state_is c s) then rest else if any_behind s earlier then raise flow_error else ok c

-- `none` is a KeyError.
unfoldable pub oldest_in_state :
    Ledger → ProductPhysicalState → Option (Result ProductError ProductContext)
oldest_in_state l s = elim (active_contexts l) [
  | none ↦ none
  | some cs ↦ some (oldest_from s [] cs)
]

unfoldable pub any_removed : List ProductContext → Bool
any_removed [] = false
any_removed (c ∷ cs) = c.removed || any_removed cs

-- `all(earlier.physical_state.value >= later.physical_state.value ...)` over neighbours.
unfoldable pub states_fall : List ProductContext → Bool
states_fall [] = true
states_fall (c ∷ []) = true
states_fall (c ∷ c' ∷ cs) = leb (value_of c') (value_of c) && states_fall (c' ∷ cs)

abbrev pub sequences : List ProductContext → List ℕ
sequences = map (λ c. c.fifo_sequence)

abbrev pub aligned : List ProductContext → Bool
aligned cs =
    if not (strictly_sorted (sequences cs))
    then false
    else if any_removed cs
    then false
    else states_fall cs

-- `none` is a KeyError.
unfoldable pub validate_alignment : Ledger → Option Bool
validate_alignment l = elim (active_contexts l) [ none ↦ none | some cs ↦ some (aligned cs) ]
