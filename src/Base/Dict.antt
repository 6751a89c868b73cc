-- ===== src/Base/Dict.antt =====
-- A Python dict (and OrderedDict) as an association list in insertion order: a write to a present
-- key keeps its place, a new key goes to the end.
use Prim.Native.Nat.{ℕ, ◌+◌, ◌≤◌, ◌<◌}
use mathlib.Core.Path.{◌≡◌, refl}
use mathlib.Core.Logic.{ite, if_pos, if_neg}
use mathlib.Core.List.{List, [], ◌∷◌, ◌++◌, map}
use mathlib.Core.Option.{Option, none, some}
use native.Mathlib.Omega.{arith}
use ai_vision_inspection.Base.Lists.{All, length}
use ai_vision_inspection.Base.Tests.{leb, if◌then◌else◌}

module _ {ℓ} {V : Type ℓ} where
  abbrev pub or_else : Option V → Option V → Option V
  or_else none p = p
  or_else (some v) p = some v

module _ {ℓ} {K V : Type ℓ} where
  abbrev pub values : List (K × V) → List V
  values = map (λ e. e.1)

  -- `while len(d) > cap: d.popitem(last=False)`
  unfoldable pub trim : ℕ → List (K × V) → List (K × V)
  trim cap [] = []
  trim cap (e ∷ d) = let rest = trim cap d in if leb (length (e ∷ d)) cap then e ∷ d else rest

  pub length-trim-le : (cap : ℕ) (d : List (K × V)) → length (trim cap d) ≤ cap
  unfolding trim
  length-trim-le cap [] = omega arith
  length-trim-le cap (e ∷ d) = ground (arith, length-trim-le cap d)

  trim_of_length-le : (cap : ℕ) (d : List (K × V)) → length d ≤ cap → trim cap d ≡ d
  unfolding trim
  trim_of_length-le cap [] h = refl
  trim_of_length-le cap (e ∷ d) h = ground arith

module _ {ℓ} {K V : Type ℓ} (dec : Discrete K) where
  -- `d.get(k)`
  unfoldable pub get : K → List (K × V) → Option V
  get k [] = none
  get k ((j, v) ∷ d) = ite (dec j k) (some v) (get k d)

  -- `d[k] = v`
  unfoldable pub put : K → V → List (K × V) → List (K × V)
  put k v [] = (k, v) ∷ []
  put k v ((j, w) ∷ d) = ite (dec j k) ((j, v) ∷ d) ((j, w) ∷ put k v d)

  -- `d.pop(k, None)`
  unfoldable pub pop : K → List (K × V) → List (K × V)
  pop k [] = []
  pop k ((j, w) ∷ d) = let rest = pop k d in ite (dec j k) rest ((j, w) ∷ rest)

  unfoldable pub moved : K → Option V → List (K × V) → List (K × V)
  moved k none d = d
  moved k (some v) d = pop k d ++ (k, v) ∷ []

  -- `d.move_to_end(k)` of a present key
  unfoldable pub move_to_end : K → List (K × V) → List (K × V)
  unfolding moved
  move_to_end k d = moved k (get k d) d

  pub get-put :
      (k j : K) (v : V) (d : List (K × V)) → get j (put k v d) ≡ ite (dec k j) (some v) (get j d)
  unfolding get put
  get-put k j v [] = refl
  get-put k j v ((i, w) ∷ d) = ground (arith, get-put k j v d)

  pub get-put_self : (k : K) (v : V) (d : List (K × V)) → get k (put k v d) ≡ some v
  get-put_self k v d = rw (get-put k k v d) (if_pos (dec k k) refl _ _)

  pub get-pop : (k j : K) (d : List (K × V)) → get j (pop k d) ≡ ite (dec k j) none (get j d)
  unfolding get pop
  get-pop k j [] = ground arith
  get-pop k j ((i, w) ∷ d) = ground (arith, get-pop k j d)

  get-append : (k : K) (d e : List (K × V)) → get k (d ++ e) ≡ or_else (get k d) (get k e)
  unfolding get
  get-append k [] e = refl
  get-append k ((j, v) ∷ d) e = ground (arith, get-append k d e)

  get-moved :
      (k j : K) (o : Option V) (d : List (K × V)) → get k d ≡ o → get j (moved k o d) ≡ get j d
  unfolding moved get
  get-moved k j none d h = refl
  get-moved k j (some v) d h = ground (arith, get-append j (pop k d) ((k, v) ∷ []), get-pop k j d)

  -- The order is all that changes.
  pub get-move_to_end : (k j : K) (d : List (K × V)) → get j (move_to_end k d) ≡ get j d
  unfolding move_to_end
  get-move_to_end k j d = get-moved k j (get k d) d refl

  pub put_absent :
      (k : K) (v : V) (d : List (K × V)) → get k d ≡ none → put k v d ≡ d ++ (k, v) ∷ []
  unfolding get put
  put_absent k v [] h = refl
  put_absent k v ((j, w) ∷ d) h = ground (arith, put_absent k v d)

  length-put-le : (k : K) (v : V) (d : List (K × V)) → length (put k v d) ≤ length d + 1
  unfolding put
  length-put-le k v [] = omega arith
  length-put-le k v ((j, w) ∷ d) = ground (arith, length-put-le k v d)

  length-pop-le : (k : K) (d : List (K × V)) → length (pop k d) ≤ length d
  unfolding pop
  length-pop-le k [] = omega arith
  length-pop-le k ((j, w) ∷ d) = ground (arith, length-pop-le k d)

  pub get-trim-append_self :
      (cap : ℕ) (k : K) (v : V) (d : List (K × V))
      → 1 ≤ cap
      → get k d ≡ none
      → get k (trim cap (d ++ (k, v) ∷ [])) ≡ some v
  unfolding get trim
  get-trim-append_self cap k v [] c h = ground arith
  get-trim-append_self cap k v ((j, w) ∷ d) c h =
      ground (arith, get-trim-append_self cap k v d, get-append k d ((k, v) ∷ []))

  pub length-pop-lt :
      (k : K) (d : List (K × V)) {v : V} → get k d ≡ some v → length (pop k d) < length d
  unfolding get pop
  length-pop-lt k [] h = cc
  length-pop-lt k ((j, w) ∷ d) {v} h = ground (arith, length-pop-le k d, length-pop-lt k d {v = v})

  -- A property of every entry.
  pub put-All {κ} :
      (P : K × V → Type κ) (k : K) (v : V) (d : List (K × V))
      → P (k, v)
      → All P d
      → All P (put k v d)
  unfolding put
  put-All P k v [] p h = (p, tt)
  put-All P k v ((j, w) ∷ d) p h = elim (dec j k) [
    | yes e ↦ rw (if_pos _ e) (rw (e) (p, h.1))
    | no e ↦ rw (if_neg _ e) (h.0, put-All P k v d p h.1)
  ]

  pub pop-All {κ} : (P : K × V → Type κ) (k : K) (d : List (K × V)) → All P d → All P (pop k d)
  unfolding pop
  pop-All P k [] h = tt
  pop-All P k ((j, w) ∷ d) h = ground (arith, pop-All P k d h.1)

  pub get-All {κ} :
      (P : K × V → Type κ) (k : K) (v : V) (d : List (K × V))
      → All P d
      → get k d ≡ some v
      → P (k, v)
  unfolding get
  get-All P k v [] h e = cc
  get-All P k v ((j, w) ∷ d) h e = ground (arith, get-All P k v d h.1)

  -- No key twice.
  abbrev pub Unique : List (K × V) → Type ℓ
  Unique [] = Unit
  Unique ((k, v) ∷ d) = (get k d ≡ none) × Unique d

  pub put-Unique : (k : K) (v : V) (d : List (K × V)) → Unique d → Unique (put k v d)
  unfolding get put
  put-Unique k v [] u = (refl, tt)
  put-Unique k v ((j, w) ∷ d) u = ground (arith, put-Unique k v d u.1, get-put k j v d)

  pub pop-Unique : (k : K) (d : List (K × V)) → Unique d → Unique (pop k d)
  unfolding get pop
  pop-Unique k [] u = tt
  pop-Unique k ((j, w) ∷ d) u = ground (arith, pop-Unique k d u.1, get-pop k j d)

  -- The entries of the list stand in the dictionary.
  abbrev pub Within : List (K × V) → List (K × V) → Type ℓ
  Within d es = All (λ e. get e.0 d ≡ some e.1) es

  pub Within-pop :
      (k : K) (d es : List (K × V)) → get k es ≡ none → Within d es → Within (pop k d) es
  unfolding get
  Within-pop k d [] h w = tt
  Within-pop k d ((j, v) ∷ es) h w = ground (arith, Within-pop k d es, get-pop k j d)

  Within-cons :
      (k : K) (v : V) (d es : List (K × V)) → get k es ≡ none → Within d es → Within ((k, v) ∷ d) es
  unfolding get
  Within-cons k v d [] h w = tt
  Within-cons k v d ((j, x) ∷ es) h w = ground (arith, Within-cons k v d es)

  pub Within-self : (d : List (K × V)) → Unique d → Within d d
  unfolding get
  Within-self [] u = tt
  Within-self ((k, v) ∷ d) u =
      (if_pos (dec k k) refl _ _, Within-cons k v d d u.0 (Within-self d u.1))

  -- The key that was moved to the end survives the trimming.
  pub get-trim-move_to_end :
      (cap : ℕ) (k : K) (v : V) (d : List (K × V))
      → 1 ≤ cap
      → get k (trim cap (move_to_end k (put k v d))) ≡ some v
  unfolding move_to_end moved
  get-trim-move_to_end cap k v d h = rw (get-put_self k v d) (
      get-trim-append_self cap k v (pop k (put k v d)) h
        (rw (get-pop k k (put k v d)) (if_pos (dec k k) refl _ _)))
