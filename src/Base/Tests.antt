-- ===== src/Base/Tests.antt =====
-- Boolean tests, the conditional, and the outcome of a method that may raise.
use Prim.Native.Nat.{ℕ, compare, Ordering}
use Prim.Native.String.{String}
use mathlib.Core.Path.{◌≡◌, refl}
use mathlib.Core.Logic.{◌⊎◌, inl, inr}
use mathlib.Core.Bool.{Bool, true, false}
use mathlib.Core.Option.{Option, none, some}
use native.Mathlib.Omega.{arith}
use text.Mathlib.Text.{◌==◌ as str_eq}
use text.Mathlib.TextEquality.{eq_iff}

abbrev pub ltb : ℕ → ℕ → Bool
ltb a b = elim (compare a b) [ Ordering.lt ↦ true | _ ↦ false ]

abbrev pub leb : ℕ → ℕ → Bool
leb a b = elim (compare a b) [ Ordering.gt ↦ false | _ ↦ true ]

abbrev pub nat_eq : ℕ → ℕ → Bool
nat_eq a b = elim (compare a b) [ Ordering.eq ↦ true | _ ↦ false ]

infix 1 if◌then◌else◌
abbrev pub if◌then◌else◌ {ℓ} : {A : Type ℓ} → Bool → A → A → A
if true then x else y = x
if false then x else y = y

-- A decision as a Boolean, so that `&&` and `||` can join it with other tests.
abbrev pub holds {ℓ} : {P : Type ℓ} → Dec P → Bool
holds (yes p) = true
holds (no p) = false

pub Bool-cases : (b : Bool) → (b ≡ true) ⊎ (b ≡ false)
Bool-cases true = inl refl
Bool-cases false = inr refl

pub Option-cases {ℓ} : {A : Type ℓ} (o : Option A) → (o ≡ none) ⊎ ((a : A) × (o ≡ some a))
Option-cases none = inl refl
Option-cases (some a) = inr (a, refl)

String_decide : (s t : String) (b : Bool) → str_eq s t ≡ b → Dec (s ≡ t)
String_decide s t true e = yes ((eq_iff s t).0 e)
String_decide s t false e = no (λ p. ground (arith, (eq_iff s t).1 p))

-- Equality of texts, which decides the identifiers of the protocol.
unfoldable pub String-discrete : Discrete String
unfolding String_decide
String-discrete s t = String_decide s t (str_eq s t) refl

abbrev pub is_empty : String → Bool
is_empty s = holds (String-discrete s "")

-- The value of an optional field is present.
abbrev pub is_some {ℓ} : {A : Type ℓ} → Option A → Bool
is_some none = false
is_some (some a) = true

-- Equality of two values as a Boolean.
abbrev pub equals {ℓ} : {A : Type ℓ} → Discrete A → A → A → Bool
equals dec a b = holds (dec a b)

-- Python's `s or d` on texts.
abbrev pub or_default : String → String → String
or_default s d = if is_empty s then d else s

-- What a method returns, or the exception that leaves it.
pub data Result {ℓ κ} (E : Type ℓ) (A : Type κ) : Type (ℓ ⊔ κ) where
  ok : A → Result E A
  raise : E → Result E A

-- A signed number, which the protocol only carries: `negsuc n` is -(n + 1).
pub data ℤ : Type 0 where
  pos : ℕ → ℤ
  negsuc : ℕ → ℤ
