-- ===== src/Base/Texts.antt =====
-- Texts as lists of code points: Python's `strip`, `split`, `join` and `int(text, base)` on ASCII.
use Prim.Native.Nat.{ℕ, zero, suc, ◌+◌, ◌-◌, ◌*◌}
use Prim.Native.Char.{code}
use Prim.Native.String.{String}
use mathlib.Core.Path.{◌≡◌, refl, ap, ◌∙◌}
use mathlib.Core.Bool.{Bool, true, false, ◌&&◌, ◌||◌, not}
use mathlib.Core.List.{List, [], ◌∷◌, ◌++◌, append_assoc}
use mathlib.Core.Option.{Option, none, some}
use native.Mathlib.Omega.{arith}
use ai_vision_inspection.Base.Lists.{All}
use ai_vision_inspection.Base.Tests.{leb, ltb, nat_eq, if◌then◌else◌, ℤ, pos, negsuc}

abbrev pub Text : Type 0
Text = List ℕ

-- The code points of a literal. `String` has its own `[]` and `∷`.
abbrev pub codes : String → Text
codes String.[] = []
codes (String.◌∷◌ c s) = code c ∷ codes s

-- `str.isspace` of an ASCII character
abbrev pub is_space : ℕ → Bool
is_space c = leb 9 c && leb c 13 || leb 28 c && leb c 32

unfoldable pub lstrip : Text → Text
lstrip [] = []
lstrip (c ∷ cs) = let rest = lstrip cs in if is_space c then rest else c ∷ cs

abbrev pub is_nil {ℓ} : {A : Type ℓ} → List A → Bool
is_nil [] = true
is_nil (x ∷ xs) = false

unfoldable pub rstrip : Text → Text
rstrip [] = []
rstrip (c ∷ cs) = let rest = rstrip cs in if is_space c && is_nil rest then [] else c ∷ rest

abbrev pub strip : Text → Text
strip cs = rstrip (lstrip cs)

abbrev push : ℕ → List Text → List Text
push c [] = (c ∷ []) ∷ []
push c (w ∷ ws) = (c ∷ w) ∷ ws

-- `text.split(chr(s))`
unfoldable pub split : ℕ → Text → List Text
split s [] = [] ∷ []
split s (c ∷ cs) = let rest = split s cs in if nat_eq c s then [] ∷ rest else push c rest

-- `chr(s).join(parts)`
unfoldable pub join : ℕ → List Text → Text
join s [] = []
join s (w ∷ []) = w
join s (w ∷ v ∷ ws) = w ++ s ∷ join s (v ∷ ws)

-- The value of a digit of the base.
abbrev pub digit : ℕ → ℕ → Option ℕ
digit base c =
    let d : Option ℕ =
      if leb 48 c && leb c 57
      then some (c - 48)
      else if leb 65 c && leb c 90
      then some (c - 55)
      else if leb 97 c && leb c 122
      then some (c - 87)
      else none in
    elim d [ none ↦ none | some v ↦ if ltb v base then some v else none ]

-- Digits with single underscores between them; the flag says that a digit has to follow.
unfoldable pub number : ℕ → Bool → ℕ → Text → Option ℕ
number base need acc [] = if need then none else some acc
number base need acc (c ∷ cs) = elim (not need && nat_eq c b'_') [
  | true ↦ number base true acc cs
  | false ↦ elim (digit base c) [ none ↦ none | some d ↦ number base false (acc * base + d) cs ]
]

-- `0x`, with an underscore allowed behind it.
unfoldable pub unprefixed : ℕ → Text → Text
unprefixed base (z ∷ x ∷ []) =
    if nat_eq base 16 && nat_eq z b'0' && (nat_eq x b'x' || nat_eq x b'X') then [] else z ∷ x ∷ []
unprefixed base (z ∷ x ∷ u ∷ cs) =
    if nat_eq base 16 && nat_eq z b'0' && (nat_eq x b'x' || nat_eq x b'X')
    then (if nat_eq u b'_' then cs else u ∷ cs)
    else z ∷ x ∷ u ∷ cs
unprefixed base cs = cs

abbrev positive : Option ℕ → Option ℤ
positive none = none
positive (some n) = some (pos n)

abbrev negative : Option ℕ → Option ℤ
negative none = none
negative (some zero) = some (pos 0)
negative (some (suc n)) = some (negsuc n)

unfoldable pub signed : ℕ → Text → Option ℤ
signed base [] = none
signed base (c ∷ cs) =
    if nat_eq c b'-'
    then negative (number base true 0 (unprefixed base cs))
    else if nat_eq c b'+'
    then positive (number base true 0 (unprefixed base cs))
    else positive (number base true 0 (unprefixed base (c ∷ cs)))

-- `int(text, base)`; `none` is the ValueError.
unfoldable pub parse_int : ℕ → Text → Option ℤ
unfolding signed
parse_int base text = signed base (strip text)

-- The character does not occur.
abbrev pub lacks : ℕ → Text → Bool
lacks s [] = true
lacks s (c ∷ cs) = not (nat_eq c s) && lacks s cs

pub split_lacking : (s : ℕ) (w : Text) → lacks s w ≡ true → split s w ≡ w ∷ []
unfolding split
split_lacking s [] h = refl
split_lacking s (c ∷ cs) h = ground (arith, split_lacking s cs)

pub split-append :
    (s : ℕ) (w rest : Text) → lacks s w ≡ true → split s (w ++ s ∷ rest) ≡ w ∷ split s rest
unfolding split
split-append s [] rest h = ground arith
split-append s (c ∷ cs) rest h = ground (arith, split-append s cs rest)

-- Splitting at the separator undoes joining, where the separator joins one more part.
pub split-join :
    (s : ℕ) (w : Text) (ws : List Text) (last : Text)
    → All (λ v. lacks s v ≡ true) (w ∷ ws)
    → lacks s last ≡ true
    → split s (join s (w ∷ ws) ++ s ∷ last) ≡ (w ∷ ws) ++ last ∷ []
unfolding join
split-join s w [] last h l = ground (arith, split-append s w last h.0, split_lacking s last l)
split-join s w (v ∷ ws) last h l =
    ap (split s) (append_assoc w (s ∷ join s (v ∷ ws)) (s ∷ last))
    ∙ split-append s w (join s (v ∷ ws) ++ s ∷ last) h.0
    ∙ ap (λ r. w ∷ r) (split-join s v ws last h.1 l)

rstrip_blanks : (blanks : Text) → All (λ c. is_space c ≡ true) blanks → rstrip blanks ≡ []
unfolding rstrip
rstrip_blanks [] b = refl
rstrip_blanks (c ∷ cs) b = ground (arith, rstrip_blanks cs b.1)

is_nil-concat : (cs : Text) (y : ℕ) → is_nil (cs ++ y ∷ []) ≡ false
is_nil-concat [] y = refl
is_nil-concat (c ∷ cs) y = refl

-- Blanks behind a character that is none are stripped, and nothing else.
pub rstrip-append :
    (cs : Text) (y : ℕ) (blanks : Text)
    → is_space y ≡ false
    → All (λ c. is_space c ≡ true) blanks
    → rstrip (cs ++ y ∷ blanks) ≡ cs ++ y ∷ []
unfolding rstrip
rstrip-append [] y blanks h b = ground (arith, rstrip_blanks blanks b)
rstrip-append (c ∷ cs) y blanks h b =
    ground (arith, rstrip-append cs y blanks h b, is_nil-concat cs y)
