-- ===== src/Base/Sort.antt =====
-- Sorted lists of numbers and lists without repetitions, for `xs == sorted(xs)` and
-- `len(xs) == len(set(xs))`.
use Prim.Native.Nat.{ℕ, ◌≤◌, ◌<◌}
use mathlib.Core.Path.{◌≡◌, refl}
use mathlib.Core.Logic.{◌↔◌}
use mathlib.Core.Bool.{Bool, true, false, ◌&&◌}
use mathlib.Core.List.{List, [], ◌∷◌}
use native.Mathlib.Omega.{arith}
use native.Mathlib.Decide.{ℕ_discrete}
use ai_vision_inspection.Base.Tests.{leb, nat_eq, if◌then◌else◌}
use ai_vision_inspection.Base.Lists.{length, contains}

insert_sorted : ℕ → List ℕ → List ℕ
insert_sorted a [] = a ∷ []
insert_sorted a (x ∷ xs) = if leb a x then a ∷ x ∷ xs else x ∷ insert_sorted a xs

-- `sorted(xs)` of numbers
unfoldable pub insertion_sort : List ℕ → List ℕ
unfolding insert_sorted
insertion_sort [] = []
insertion_sort (x ∷ xs) = insert_sorted x (insertion_sort xs)

unfoldable pub nat_list_eq : List ℕ → List ℕ → Bool
nat_list_eq [] [] = true
nat_list_eq [] (y ∷ ys) = false
nat_list_eq (x ∷ xs) [] = false
nat_list_eq (x ∷ xs) (y ∷ ys) = nat_eq x y && nat_list_eq xs ys

-- `set(xs)` of numbers, as a list without repetitions
unfoldable pub distinct : List ℕ → List ℕ
unfolding contains
distinct [] = []
distinct (x ∷ xs) = let rest = distinct xs in if contains ℕ_discrete x xs then rest else x ∷ rest

-- Each number is above the bound and the one before it.
abbrev pub Ascending : ℕ → List ℕ → Type 0
Ascending k [] = Unit {0}
Ascending k (x ∷ xs) = (k < x) × Ascending x xs

abbrev IsWeak : ℕ → List ℕ → Type 0
IsWeak k [] = Unit {0}
IsWeak k (x ∷ xs) = (k ≤ x) × IsWeak x xs

abbrev Weak : List ℕ → Type 0
Weak [] = Unit {0}
Weak (x ∷ xs) = IsWeak x xs

-- Strictly ascending.
abbrev pub IsStrict : List ℕ → Type 0
IsStrict [] = Unit {0}
IsStrict (x ∷ xs) = Ascending x xs

insert-IsWeak : (k a : ℕ) (xs : List ℕ) → k ≤ a → IsWeak k xs → IsWeak k (insert_sorted a xs)
unfolding insert_sorted
insert-IsWeak k a [] h w = (h, tt)
insert-IsWeak k a (x ∷ xs) h w = ground (arith, insert-IsWeak x a xs)

insert-Weak : (a : ℕ) (xs : List ℕ) → Weak xs → Weak (insert_sorted a xs)
unfolding insert_sorted
insert-Weak a [] w = tt
insert-Weak a (x ∷ xs) w = ground (arith, insert-IsWeak x a xs)

sort-Weak : (xs : List ℕ) → Weak (insertion_sort xs)
unfolding insertion_sort
sort-Weak [] = tt
sort-Weak (x ∷ xs) = insert-Weak x (insertion_sort xs) (sort-Weak xs)

nat_list_eq_lem : (xs ys : List ℕ) → nat_list_eq xs ys ≡ true → xs ≡ ys
unfolding nat_list_eq
nat_list_eq_lem [] [] h = refl
nat_list_eq_lem [] (y ∷ ys) h = cc
nat_list_eq_lem (x ∷ xs) [] h = cc
nat_list_eq_lem (x ∷ xs) (y ∷ ys) h = ground (arith, nat_list_eq_lem xs ys)

nat_list_eq_refl : (xs : List ℕ) → nat_list_eq xs xs ≡ true
unfolding nat_list_eq
nat_list_eq_refl [] = refl
nat_list_eq_refl (x ∷ xs) = ground (arith, nat_list_eq_refl xs)

length-distinct-le : (xs : List ℕ) → length (distinct xs) ≤ length xs
unfolding distinct
length-distinct-le [] = omega arith
length-distinct-le (x ∷ xs) = ground (arith, length-distinct-le xs)

strict_of_weak :
    (k : ℕ) (xs : List ℕ)
    → IsWeak k xs
    → length (distinct (k ∷ xs)) ≡ length (k ∷ xs)
    → Ascending k xs
unfolding distinct contains
strict_of_weak k [] w h = tt
strict_of_weak k (x ∷ xs) w h =
    ground (arith, strict_of_weak x xs w.1, length-distinct-le (x ∷ xs), length-distinct-le xs)

not-contains : (k x : ℕ) (xs : List ℕ) → k ≤ x → Ascending x xs → contains ℕ_discrete k xs ≡ false
unfolding contains
not-contains k x [] h w = refl
not-contains k x (y ∷ ys) h w = ground (arith, not-contains k y ys)

distinct_of_strict : (k : ℕ) (xs : List ℕ) → Ascending k xs → distinct (k ∷ xs) ≡ k ∷ xs
unfolding distinct
distinct_of_strict k [] w = ground arith
distinct_of_strict k (x ∷ xs) w =
    ground (arith, distinct_of_strict x xs w.1, not-contains k k (x ∷ xs))

sort_of_strict : (k : ℕ) (xs : List ℕ) → Ascending k xs → insertion_sort (k ∷ xs) ≡ k ∷ xs
unfolding insertion_sort insert_sorted
sort_of_strict k [] w = refl
sort_of_strict k (x ∷ xs) w = ground (arith, sort_of_strict x xs w.1)

-- The test of the source on a list of sequence numbers.
abbrev pub strictly_sorted : List ℕ → Bool
strictly_sorted xs = nat_list_eq xs (insertion_sort xs) && nat_eq (length xs) (length (distinct xs))

pub strictly_sorted_iff : (xs : List ℕ) → (strictly_sorted xs ≡ true) ↔ IsStrict xs
strictly_sorted_iff xs = (to xs, from xs)
  where
    to : (xs : List ℕ) → strictly_sorted xs ≡ true → IsStrict xs
    to [] h = tt
    to (x ∷ xs) h = ground (
      arith,
      strict_of_weak x xs,
      nat_list_eq_lem (x ∷ xs) (insertion_sort (x ∷ xs)),
      sort-Weak (x ∷ xs),
    )

    from : (xs : List ℕ) → IsStrict xs → strictly_sorted xs ≡ true
    from [] h = unfold nat_list_eq insertion_sort distinct in refl
    from (x ∷ xs) h =
        rw (sort_of_strict x xs h, distinct_of_strict x xs h, nat_list_eq_refl) (ground arith)
