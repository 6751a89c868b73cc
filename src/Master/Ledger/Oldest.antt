-- ===== src/Master/Ledger/Oldest.antt =====
-- What the ledger answers about the line, and the products it knows.
use ai_vision_inspection.Base.{
  ℕ, ◌≤◌, ◌<◌, String, String-discrete, List, [], ◌∷◌, ◌++◌, some, false, All, All-append, ◌≡◌, ◌≢◌,
  arith, ok, raise, subst, nat_eq, if◌then◌else◌, ℕ_discrete, strictly_sorted_iff, Ascending,
  IsStrict, ap,
}
use mathlib.Core.List.{append_assoc}
use ai_vision_inspection.Base.Dict
use ai_vision_inspection.Constants.{
  ProductPhysicalState, ProductPhysicalState-discrete, physical_value, physical_value-injective,
}
use ai_vision_inspection.Master.Product.{ProductContext, new_context, identity_conflict}
use ai_vision_inspection.Master.Ledger.{Ledger, register, added, get, active_contexts}
use ai_vision_inspection.Master.Ledger.Fifo.{
  value_of, any_behind, oldest_from, oldest_in_state, any_removed, states_fall, sequences, aligned,
  validate_alignment,
}
use ai_vision_inspection.Master.Ledger.Line.{Line-contexts}
use ai_vision_inspection.Master.Ledger.Invariant.{IsOrdered}

-- The product is further along the line than the state.
abbrev pub Ahead : ProductPhysicalState → ProductContext → Type 0
Ahead s c = physical_value s < value_of c

-- What `oldest_in_state` promises about the line: the product is in the state, and all products
-- before it are ahead of the state.
abbrev pub IsOldest : ProductPhysicalState → List ProductContext → ProductContext → Type 0
IsOldest s cs c =
    (before : List ProductContext) × (later : List ProductContext) × (cs ≡ before ++ c ∷ later)
    × (c.physical_state ≡ s)
    × All (Ahead s) before

ahead_of :
    (s t : ProductPhysicalState)
    → physical_value s ≤ physical_value t
    → t ≢ s
    → physical_value s < physical_value t
ahead_of s t h n = elim (ℕ_discrete (physical_value t) (physical_value s)) [
  | yes e ↦ absurd (n (physical_value-injective t s e))
  | no p ↦ omega arith
]

any_behind-All :
    (s : ProductPhysicalState) (cs : List ProductContext)
    → any_behind s cs ≡ false
    → All (λ c. c.physical_state ≢ s) cs
    → All (Ahead s) cs
unfolding any_behind
any_behind-All s [] h n = tt
any_behind-All s (c ∷ cs) h n =
    (ahead_of s c.physical_state (ground arith) n.0, any_behind-All s cs (ground arith) n.1)

oldest_from-IsOldest :
    (s : ProductPhysicalState) (earlier cs : List ProductContext) (c : ProductContext)
    → All (λ c. c.physical_state ≢ s) earlier
    → oldest_from s earlier cs ≡ ok c
    → IsOldest s (earlier ++ cs) c
unfolding oldest_from
oldest_from-IsOldest s earlier [] c n h = cc
oldest_from-IsOldest s earlier (x ∷ cs) c n h =
    elim (ProductPhysicalState-discrete x.physical_state s) [
      | yes p ↦ (earlier, cs, ground arith, ground arith, any_behind-All s earlier (ground arith) n)
      | no p ↦
          subst (λ k. IsOldest s k c) (append_assoc earlier (x ∷ []) cs)
            (oldest_from-IsOldest s (earlier ++ x ∷ []) cs c
              (All-append (λ c. c.physical_state ≢ s) earlier (x ∷ []) n (p, tt)) (ground arith))
    ]

-- The product that the ledger names for a state is the first of the line in that state, and every
-- product before it is further along.
oldest_in_state-IsOldest :
    (l : Ledger) (s : ProductPhysicalState) (cs : List ProductContext) (c : ProductContext)
    → active_contexts l ≡ some cs
    → oldest_in_state l s ≡ some (ok c)
    → IsOldest s cs c
unfolding oldest_in_state
oldest_in_state-IsOldest l s cs c e h = oldest_from-IsOldest s [] cs c tt (ground arith)

IsStrict-of : (k : ℕ) (xs : List ℕ) → Ascending k xs → IsStrict xs
IsStrict-of k [] a = tt
IsStrict-of k (x ∷ xs) a = a.1

aligned_of :
    (cs : List ProductContext)
    → any_removed cs ≡ false
    → Ascending 0 (sequences cs)
    → aligned cs ≡ states_fall cs
aligned_of cs r a =
    ground (arith, (strictly_sorted_iff (sequences cs)).1 (IsStrict-of 0 (sequences cs) a))

-- In an ordered ledger the alignment test is the one of the physical states: the line has no
-- product that was taken off and its sequences are in order.
pub validate_alignment-states_fall :
    (l : Ledger)
    → IsOrdered l
    → (cs : List ProductContext) × (active_contexts l ≡ some cs)
      × (validate_alignment l ≡ some (states_fall cs))
unfolding validate_alignment
validate_alignment-states_fall l v =
    let (cs, e, r, a) = Line-contexts l.by_id 0 l.active v.line in
    (cs, e, rw (e, validate_alignment) (ap some (aligned_of cs r a)))

-- A product whose registration returns is found under its identifier and sequence.
get-register_self :
    (l : Ledger) (id : String) (sequence : ℕ) (c : ProductContext)
    → (register l id sequence).1 ≡ ok c
    → get (register l id sequence).0 id sequence ≡ some c
unfolding register get added
get-register_self l id sequence c h =
    ground (arith, Dict.get-put_self String-discrete id (new_context id sequence) l.by_id)

-- A registration changes no other product.
pub get-register_ne :
    (l : Ledger) (id other : String) (sequence n : ℕ)
    → id ≢ other
    → get (register l id sequence).0 other n ≡ get l other n
unfolding register get added
get-register_ne l id other sequence n h =
    ground (arith, Dict.get-put String-discrete id other (new_context id sequence) l.by_id)

-- A second registration of the same product returns the context that the ledger has by then, and
-- changes nothing; under another sequence it is refused.
register_again :
    (l : Ledger) (id : String) (sequence n : ℕ) (c : ProductContext)
    → get l id sequence ≡ some c
    → id ≢ ""
    → 0 < n
    → register l id n ≡ (if nat_eq sequence n then (l, ok c) else (l, raise identity_conflict))
unfolding register get
register_again l id sequence n c h e p = ground arith
