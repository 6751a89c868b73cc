-- ===== src/Master/Ledger/Line.antt =====
-- The products on the line: each is known, not taken off, and behind the one before it.
use ai_vision_inspection.Base.{
  ℕ, ◌≤◌, ◌<◌, String, String-discrete, List, [], ◌∷◌, ◌++◌, Option, none, some, true, false, All,
  ◌≡◌, refl, arith, Option-cases, inl, inr, Ascending,
}
use ai_vision_inspection.Base.Dict
use ai_vision_inspection.Master.Product.{ProductContext}
use ai_vision_inspection.Master.Ledger.{contexts_of}
use ai_vision_inspection.Master.Ledger.Removal.{Store}
use ai_vision_inspection.Master.Ledger.Fifo.{any_removed, sequences}

-- The context of an identifier.
abbrev pub context_of : String → Store → Option ProductContext
context_of id d = Dict.get String-discrete id d

abbrev pub store : String → ProductContext → Store → Store
store id c d = Dict.put String-discrete id c d

-- The sequences of the identifiers go up from the bound.
abbrev pub Line : Store → ℕ → List String → Type 0
Line d k [] = Unit {0}
Line d k (id ∷ ids) = elim (context_of id d) [
  | none ↦ ⊥
  | some c ↦ (k < c.fifo_sequence) × (c.removed ≡ false) × Line d c.fifo_sequence ids
]

pub Line-mono : (d : Store) (j k : ℕ) (ids : List String) → j ≤ k → Line d k ids → Line d j ids
Line-mono d j k [] h l = tt
Line-mono d j k (id ∷ ids) h l = ground arith

-- A context that is not on the line, or keeps its sequence and its mark, may be written.
Line-store_absent :
    (d : Store) (k : ℕ) (ids : List String) (new : String) (c : ProductContext)
    → context_of new d ≡ none
    → Line d k ids
    → Line (store new c d) k ids
Line-store_absent d k [] new c h l = tt
Line-store_absent d k (id ∷ ids) new c h l = elim (Option-cases (context_of id d)) [
  | inl e ↦ ground arith
  | inr (x, e) ↦ ground (
    arith,
    Dict.get-put String-discrete new id c d,
    Line-store_absent d x.fifo_sequence ids new c h,
  )
]

pub Line-store_same :
    (d : Store) (k : ℕ) (ids : List String) (id' : String) (c c' : ProductContext)
    → context_of id' d ≡ some c
    → c'.fifo_sequence ≡ c.fifo_sequence
    → c'.removed ≡ c.removed
    → Line d k ids
    → Line (store id' c' d) k ids
Line-store_same d k [] id' c c' h p q l = tt
Line-store_same d k (id ∷ ids) id' c c' h p q l = elim (Option-cases (context_of id d)) [
  | inl e ↦ ground arith
  | inr (x, e) ↦ ground (
    arith,
    Dict.get-put String-discrete id' id c' d,
    Line-store_same d x.fifo_sequence ids id' c c' h p q,
  )
]

pub Line-store_below :
    (d : Store) (k : ℕ) (ids : List String) (id' : String) (c c' : ProductContext)
    → context_of id' d ≡ some c
    → c.fifo_sequence ≤ k
    → Line d k ids
    → Line (store id' c' d) k ids
Line-store_below d k [] id' c c' h p l = tt
Line-store_below d k (id ∷ ids) id' c c' h p l = elim (Option-cases (context_of id d)) [
  | inl e ↦ ground arith
  | inr (x, e) ↦ ground (
    arith,
    Dict.get-put String-discrete id' id c' d,
    Line-store_below d x.fifo_sequence ids id' c c' h,
  )
]

pub Line-pop_removed :
    (d : Store) (k : ℕ) (ids : List String) (id' : String) (c : ProductContext)
    → context_of id' d ≡ some c
    → c.removed ≡ true
    → Line d k ids
    → Line (Dict.pop String-discrete id' d) k ids
Line-pop_removed d k [] id' c h p l = tt
Line-pop_removed d k (id ∷ ids) id' c h p l = elim (Option-cases (context_of id d)) [
  | inl e ↦ ground arith
  | inr (x, e) ↦ ground (
    arith,
    Dict.get-pop String-discrete id' id d,
    Line-pop_removed d x.fifo_sequence ids id' c h p,
  )
]

-- Every known product has a sequence up to the number.
abbrev pub UpTo : ℕ → Store → Type 0
UpTo n d = All (λ e. e.1.fifo_sequence ≤ n) d

-- A product with a later sequence than all known ones goes to the end.
pub Line-append :
    (d : Store) (k n : ℕ) (ids : List String) (new : String) (c : ProductContext)
    → UpTo n d
    → k ≤ n
    → n < c.fifo_sequence
    → c.removed ≡ false
    → context_of new d ≡ none
    → Line d k ids
    → Line (store new c d) k (ids ++ new ∷ [])
Line-append d k n [] new c u p q r h l = ground (arith, Dict.get-put_self String-discrete new c d)
Line-append d k n (id ∷ ids) new c u p q r h l = elim (Option-cases (context_of id d)) [
  | inl e ↦ ground arith
  | inr (x, e) ↦ ground (
    arith,
    Dict.get-put String-discrete new id c d,
    Dict.get-All String-discrete (λ e. e.1.fifo_sequence ≤ n) id x d u e,
    Line-append d x.fifo_sequence n ids new c u,
  )
]

-- The contexts on the line: none is missing, none is taken off, and the sequences go up.
pub Line-contexts :
    (d : Store) (k : ℕ) (ids : List String)
    → Line d k ids
    → (cs : List ProductContext) × (contexts_of d ids ≡ some cs)
      × (any_removed cs ≡ false)
      × Ascending k (sequences cs)
unfolding contexts_of any_removed
Line-contexts d k [] l = ([], refl, refl, tt)
Line-contexts d k (id ∷ ids) l = elim (Option-cases (context_of id d)) [
  | inl e ↦ absurd (ground arith)
  | inr (x, e) ↦
      let (cs, p, q, r) = Line-contexts d x.fifo_sequence ids (ground arith) in
      (x ∷ cs, ground arith, ground arith, ground arith)
]
