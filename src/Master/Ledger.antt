-- ===== src/Master/Ledger.antt =====
-- ProductLedger (product_flow.py): all products by identifier, the physical FIFO of the active
-- ones, the owners of the captures, and what is remembered of the products that were pruned. A
-- context is a value here; the methods that change one are calls of `update` (Ledger/Calls).
pub mod Fifo
pub mod Removal
pub mod Line
pub mod Invariant
pub mod Sweep
pub mod Oldest
pub mod Calls
pub mod Pruning
use ai_vision_inspection.Base.{
  ℕ, zero, suc, ◌+◌, ◌*◌, String, String-discrete, ℕ_discrete, List, [], ◌∷◌, ◌++◌, map, Option,
  none, some, Bool, true, false, ◌&&◌, ◌||◌, not, is_some, is_empty, equals, ltb, leb, nat_eq,
  length, if◌then◌else◌, Result, ok, raise, insertion_sort, nat_list_eq, distinct,
}
use ai_vision_inspection.Base.Dict
use ai_vision_inspection.Constants.{
  ProductPhysicalState, ProductPhysicalState-discrete, physical_value, done, StationId,
  StationId-discrete,
}
use ai_vision_inspection.Master.Product.{
  ProductContext, ProductError, flow_error, identity_conflict, value_error, new_context, touch,
}

abbrev pub Owner : Type 0
Owner = String × StationId

unfoldable pub Owner-discrete : Discrete Owner
Owner-discrete = hlevel (String-discrete, StationId-discrete)

abbrev pub ProductKey : Type 0
ProductKey = String × ℕ

unfoldable pub ProductKey-discrete : Discrete ProductKey
ProductKey-discrete = hlevel (String-discrete, ℕ_discrete)

pub record Ledger : Type 0 where
  pub by_id : List (String × ProductContext)
  pub id_by_sequence : List (ℕ × String)
  pub capture_owners : List (String × Owner)
  pub active : List String
  pub last_sequence : ℕ
  pub retired_products : List (ProductKey × Unit {0})
  pub retired_captures : List (String × Unit {0})

abbrev pub retired_capacity : ℕ
retired_capacity = 4096

unfoldable pub new_ledger : Ledger
new_ledger = record {
  by_id = [];
  id_by_sequence = [];
  capture_owners = [];
  active = [];
  last_sequence = 0;
  retired_products = [];
  retired_captures = [];
}

abbrev pub active_size : Ledger → ℕ
active_size l = length l.active

abbrev pub next_sequence : Ledger → ℕ
next_sequence l = l.last_sequence + 1

unfoldable pub added : Ledger → String → ℕ → Ledger
added l id sequence = record {
  by_id = Dict.put String-discrete id (new_context id sequence) l.by_id;
  id_by_sequence = Dict.put ℕ_discrete sequence id l.id_by_sequence;
  capture_owners = l.capture_owners;
  active = l.active ++ id ∷ [];
  last_sequence = sequence;
  retired_products = l.retired_products;
  retired_captures = l.retired_captures;
}

unfoldable pub register : Ledger → String → ℕ → Ledger × Result ProductError ProductContext
register l id sequence =
    if is_empty id || nat_eq sequence 0
    then (l, raise value_error)
    else elim (Dict.get String-discrete id l.by_id) [
      | some c ↦
          if not (nat_eq c.fifo_sequence sequence) then (l, raise identity_conflict) else (l, ok c)
      | none ↦
          if is_some (Dict.get ℕ_discrete sequence l.id_by_sequence)
          then (l, raise identity_conflict)
          else if leb sequence l.last_sequence
          then (l, raise flow_error)
          else (added l id sequence, ok (new_context id sequence))
    ]

-- `get`
unfoldable pub get : Ledger → String → ℕ → Option ProductContext
get l id sequence = elim (Dict.get String-discrete id l.by_id) [
  | none ↦ none
  | some c ↦ if not (nat_eq c.fifo_sequence sequence) then none else some c
]

abbrev pub get_by_id : Ledger → String → Option ProductContext
get_by_id l id = Dict.get String-discrete id l.by_id

-- The contexts of a list of identifiers; `none` is a KeyError.
unfoldable pub contexts_of :
    List (String × ProductContext) → List String → Option (List ProductContext)
contexts_of d [] = some []
contexts_of d (id ∷ ids) = elim (Dict.get String-discrete id d) [
  | none ↦ none
  | some c ↦ elim (contexts_of d ids) [ none ↦ none | some cs ↦ some (c ∷ cs) ]
]

abbrev pub active_contexts : Ledger → Option (List ProductContext)
active_contexts l = contexts_of l.by_id l.active

abbrev pub capture_owner : Ledger → String → Option Owner
capture_owner l capture_id = Dict.get String-discrete capture_id l.capture_owners

-- The capture belongs to somebody else.
unfoldable pub owned_by_other : Option Owner → Owner → Bool
owned_by_other none requested = false
owned_by_other (some owner) requested = not (equals Owner-discrete owner requested)

unfoldable pub register_capture :
    Ledger → String → String → StationId → Ledger × Result ProductError (Unit {0})
unfolding owned_by_other
register_capture l capture_id product_id station_id =
    if owned_by_other (capture_owner l capture_id) (product_id, station_id)
    then (l, raise identity_conflict)
    else (
      record l {
        capture_owners =
            Dict.put String-discrete capture_id (product_id, station_id) l.capture_owners;
      },
      ok tt,
    )

abbrev pub is_retired_product : Ledger → String → ℕ → Bool
is_retired_product l id sequence =
    is_some (Dict.get ProductKey-discrete (id, sequence) l.retired_products)

abbrev pub is_retired_capture : Ledger → String → Bool
is_retired_capture l capture_id = is_some (Dict.get String-discrete capture_id l.retired_captures)
