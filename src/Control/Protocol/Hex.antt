-- ===== src/Control/Protocol/Hex.antt =====
-- mega_protocol.py: the bound and the hexadecimal digits of the CRC.
use Prim.Native.Nat.{bit_xor}
use ai_vision_inspection.Base.{
  ℕ, zero, suc, ◌+◌, ◌*◌, ◌/◌, ◌%◌, ◌<◌, ◌≡◌, refl, ap, ◌∙◌, arith, Bool, true, false, [], ◌∷◌,
  some, pos, is_space, Text, lstrip, rstrip, rstrip-append, strip, number, digit, unprefixed,
  signed, parse_int,
}
use ai_vision_inspection.Control.Protocol.{crc_bit, crc_bits, crc_from, hex_digit, hex4}

crc_bit-lt : (crc : ℕ) → crc_bit crc < 65536
unfolding crc_bit
crc_bit-lt crc = ground arith

crc_bits-lt : (n crc : ℕ) → crc_bits (suc n) crc < 65536
unfolding crc_bits
crc_bits-lt zero crc = crc_bit-lt crc
crc_bits-lt (suc n) crc = crc_bits-lt n (crc_bit crc)

pub crc_from-lt : (crc : ℕ) (cs : Text) → crc < 65536 → crc_from crc cs < 65536
unfolding crc_from
crc_from-lt crc [] h = h
crc_from-lt crc (c ∷ cs) h =
    crc_from-lt (crc_bits 8 (bit_xor crc (c * 256))) cs (crc_bits-lt 7 (bit_xor crc (c * 256)))

-- A hexadecimal digit as the encoder prints it.
abbrev IsHex : ℕ → ℕ → Type 0
IsHex d c = (digit 16 c ≡ some d) × (is_space c ≡ false) × (c < 71) × (47 < c)

pub hex_digit-IsHex : (d : ℕ) → d < 16 → IsHex d (hex_digit d)
hex_digit-IsHex d h = ground arith

number-step :
    (need : Bool) (acc d c : ℕ) (cs : Text)
    → IsHex d c
    → number 16 need acc (c ∷ cs) ≡ number 16 false (acc * 16 + d) cs
unfolding number
number-step need acc d c cs h = ground arith

unprefixed-hex :
    (base a b c d y : ℕ) → IsHex y b → unprefixed base (a ∷ b ∷ c ∷ d ∷ []) ≡ a ∷ b ∷ c ∷ d ∷ []
unfolding unprefixed
unprefixed-hex base a b c d y h = ground arith

signed-unprefixed :
    (c : ℕ) (cs : Text) (n : ℕ)
    → 47 < c
    → unprefixed 16 (c ∷ cs) ≡ c ∷ cs
    → number 16 true 0 (c ∷ cs) ≡ some n
    → signed 16 (c ∷ cs) ≡ some (pos n)
unfolding signed
signed-unprefixed c cs n h u e = ground arith

number_end : (n : ℕ) → number 16 false n [] ≡ some n
unfolding number
number_end n = refl

number-hex4 :
    (a b c d x y z w : ℕ)
    → IsHex x a
    → IsHex y b
    → IsHex z c
    → IsHex w d
    → signed 16 (a ∷ b ∷ c ∷ d ∷ []) ≡ some (pos ((((0 * 16 + x) * 16 + y) * 16 + z) * 16 + w))
number-hex4 a b c d x y z w p q r s =
    signed-unprefixed a (b ∷ c ∷ d ∷ []) _ p.3 (unprefixed-hex 16 a b c d y q) (
      number-step true 0 x a _ p
      ∙ number-step false _ y b _ q
      ∙ number-step false _ z c _ r
      ∙ number-step false _ w d _ s
      ∙ number_end _)

hex4-value : (n : ℕ) → n < 65536 → signed 16 (hex4 n) ≡ some (pos n)
unfolding hex4
hex4-value n h =
    number-hex4 _ _ _ _ _ _ _ _ (hex_digit-IsHex (n / 4096 % 16) (omega arith))
      (hex_digit-IsHex (n / 256 % 16) (omega arith)) (hex_digit-IsHex (n / 16 % 16) (omega arith))
      (hex_digit-IsHex (n % 16) (omega arith))
    ∙ ap (λ m. some (pos m)) (omega arith)

abbrev pub starts_blank : Text → Bool
starts_blank [] = false
starts_blank (c ∷ cs) = is_space c

pub lstrip_start : (cs : Text) → starts_blank cs ≡ false → lstrip cs ≡ cs
unfolding lstrip
lstrip_start [] h = refl
lstrip_start (c ∷ cs) h = ground arith

strip_hexes :
    (a b c d x w : ℕ) → IsHex x a → IsHex w d → strip (a ∷ b ∷ c ∷ d ∷ []) ≡ a ∷ b ∷ c ∷ d ∷ []
strip_hexes a b c d x w p s =
    ap rstrip (lstrip_start (a ∷ b ∷ c ∷ d ∷ []) p.1) ∙ rstrip-append (a ∷ b ∷ c ∷ []) d [] s.1 tt

strip-hex4 : (n : ℕ) → strip (hex4 n) ≡ hex4 n
unfolding hex4
strip-hex4 n =
    strip_hexes _ _ _ _ _ _ (hex_digit-IsHex (n / 4096 % 16) (omega arith))
      (hex_digit-IsHex (n % 16) (omega arith))

pub parse_int-hex4 : (n : ℕ) → n < 65536 → parse_int 16 (hex4 n) ≡ some (pos n)
unfolding parse_int
parse_int-hex4 n h = ap (signed 16) (strip-hex4 n) ∙ hex4-value n h
