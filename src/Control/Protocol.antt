-- ===== src/Control/Protocol.antt =====
-- mega_protocol.py: frames of fields with a CRC. Texts are code points; the fields of a frame are the
-- texts that `str` gives.

use Prim.Native.Nat.{bit_and, bit_xor}
use ai_vision_inspection.Base.{
  ℕ, zero, suc, ◌+◌, ◌*◌, ◌/◌, ◌%◌, Bool, true, false, ◌&&◌, not, nat_eq, ltb, if◌then◌else◌, List,
  [], ◌∷◌, ◌++◌, Option, none, some, ℤ, pos, negsuc, Text, codes, strip, split, join, parse_int,
  nat_list_eq,
}
pub mod Hex
pub mod RoundTrip

-- One round of the inner loop; `& 0xFFFF` is the remainder by 2 ^ 16.
unfoldable pub crc_bit : ℕ → ℕ
crc_bit crc =
    if not (nat_eq (bit_and crc 0x8000) 0)
    then bit_xor (crc * 2) 0x1021 % 0x10000
    else crc * 2 % 0x10000

unfoldable pub crc_bits : ℕ → ℕ → ℕ
crc_bits zero crc = crc
crc_bits (suc n) crc = crc_bits n (crc_bit crc)

unfoldable pub crc_from : ℕ → Text → ℕ
crc_from crc [] = crc
crc_from crc (c ∷ cs) = crc_from (crc_bits 8 (bit_xor crc (c * 256))) cs

-- The characters are ASCII.
unfoldable pub is_ascii : Text → Bool
is_ascii [] = true
is_ascii (c ∷ cs) = ltb c 128 && is_ascii cs

abbrev pub crc16_ccitt : Text → ℕ
crc16_ccitt = crc_from 0xFFFF

abbrev pub hex_digit : ℕ → ℕ
hex_digit d = if ltb d 10 then d + 48 else d + 55

-- `f"{n:04X}"` of a number below 2 ^ 16
unfoldable pub hex4 : ℕ → Text
hex4 n =
    hex_digit (n / 4096 % 16)
    ∷ hex_digit (n / 256 % 16)
    ∷ hex_digit (n / 16 % 16)
    ∷ hex_digit (n % 16)
    ∷ []

abbrev pub bar : ℕ
bar = b'|'

-- `none` is the UnicodeEncodeError.
unfoldable pub encode_frame : List Text → Option Text
encode_frame fields =
    let body = join bar fields in
    if is_ascii body then some (body ++ (bar ∷ (hex4 (crc16_ccitt body) ++ b'\n' ∷ []))) else none

-- `(parts[:-1], parts[-1])`
unfoldable pub split_last : {A : Type 0} → A → List A → List A × A
split_last x [] = ([], x)
split_last x (y ∷ ys) = let (init, last) = split_last y ys in (x ∷ init, last)

-- The number that stands behind the fields is their CRC.
abbrev pub crc_matches : Option ℤ → Text → Bool
crc_matches (some (pos n)) body = nat_eq n (crc16_ccitt body)
crc_matches _ body = false

checked : List Text × Text → Option (List Text)
checked (fields, crc) =
    if not (crc_matches (parse_int 16 crc) (join bar fields)) then none else some fields

abbrev parted : List Text → Option (List Text)
parted [] = none
parted (p ∷ []) = none
parted (p ∷ q ∷ ps) = checked (split_last p (q ∷ ps))

-- `none` is `None`.
unfoldable pub decode_frame : Text → Option (List Text)
unfolding checked
decode_frame line = if not (is_ascii line) then none else parted (split bar (strip line))

pub record MegaEvent : Type 0 where
  pub kind : Text
  pub values : List Text

unfoldable pub parse_event : List Text → Option MegaEvent
parse_event (e ∷ kind ∷ values) =
    if not (nat_list_eq e (codes "E")) then none else some (record { kind = kind; values = values })
parse_event _ = none
