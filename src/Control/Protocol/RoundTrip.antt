-- ===== src/Control/Protocol/RoundTrip.antt =====
-- mega_protocol.py: what is decoded of an encoded frame, and what a decoded frame has passed.
use mathlib.Core.List.{append_assoc}
use ai_vision_inspection.Base.{
  ℕ, ◌%◌, ◌≡◌, ◌≢◌, subst, negsuc, refl, sym, ap, ◌∙◌, arith, Bool, true, false, if◌then◌else◌,
  List, [], ◌∷◌, ◌++◌, Option, none, some, ℤ, pos, All, is_space, Text, rstrip, rstrip-append,
  strip, split, split-join, join, lacks, parse_int,
}
use ai_vision_inspection.Control.Protocol.{
  is_ascii, crc16_ccitt, hex4, bar, encode_frame, split_last, crc_matches, checked, parted,
  decode_frame,
}
use ai_vision_inspection.Control.Protocol.Hex.{
  crc_from-lt, hex_digit-IsHex, starts_blank, lstrip_start, parse_int-hex4,
}

starts_blank-join :
    (w : Text) (ws : List Text) (rest : Text)
    → starts_blank w ≡ false
    → starts_blank (join bar (w ∷ ws) ++ bar ∷ rest) ≡ false
unfolding join
starts_blank-join [] [] rest h = refl
starts_blank-join (c ∷ cs) [] rest h = h
starts_blank-join [] (v ∷ ws) rest h = refl
starts_blank-join (c ∷ cs) (v ∷ ws) rest h = h

pub is_ascii-append :
    (xs ys : Text) → is_ascii xs ≡ true → is_ascii ys ≡ true → is_ascii (xs ++ ys) ≡ true
unfolding is_ascii
is_ascii-append [] ys h k = k
is_ascii-append (c ∷ cs) ys h k = ground (arith, is_ascii-append cs ys)

-- What stands behind the fields of a frame.
abbrev tail_of : ℕ → Text
tail_of n = bar ∷ hex4 n ++ b'\n' ∷ []

tail_of-is_ascii : (n : ℕ) → is_ascii (tail_of n) ≡ true
unfolding is_ascii hex4
tail_of-is_ascii n = ground arith

rstrip_digits :
    (body : Text) (x y z d : ℕ)
    → is_space d ≡ false
    → rstrip (body ++ bar ∷ x ∷ y ∷ z ∷ d ∷ b'\n' ∷ []) ≡ body ++ bar ∷ x ∷ y ∷ z ∷ d ∷ []
rstrip_digits body x y z d h =
    ap rstrip (sym (append_assoc body (bar ∷ x ∷ y ∷ z ∷ []) (d ∷ b'\n' ∷ [])))
    ∙ rstrip-append (body ++ bar ∷ x ∷ y ∷ z ∷ []) d (b'\n' ∷ []) h (refl, tt)
    ∙ append_assoc body (bar ∷ x ∷ y ∷ z ∷ []) (d ∷ [])

strip-frame :
    (body : Text) (n : ℕ)
    → starts_blank (body ++ tail_of n) ≡ false
    → strip (body ++ tail_of n) ≡ body ++ bar ∷ hex4 n
unfolding hex4
strip-frame body n h =
    ap rstrip (lstrip_start _ h)
    ∙ rstrip_digits body _ _ _ _ (hex_digit-IsHex (n % 16) (omega arith)).1

lacks-hex4 : (n : ℕ) → lacks bar (hex4 n) ≡ true
unfolding hex4
lacks-hex4 n = ground arith

split_last-concat :
    {A : Type 0} (x : A) (xs : List A) (y : A) → split_last x (xs ++ y ∷ []) ≡ (x ∷ xs, y)
unfolding split_last
split_last-concat x [] y = refl
split_last-concat x (z ∷ zs) y = ground (arith, split_last-concat z zs y)

parted-concat :
    (w : Text) (ws : List Text) (last : Text)
    → parted ((w ∷ ws) ++ last ∷ []) ≡ checked (w ∷ ws, last)
parted-concat w [] last = ap checked (split_last-concat w [] last)
parted-concat w (v ∷ ws) last = ap checked (split_last-concat w (v ∷ ws) last)

checked-hex4 :
    (fields : List Text) → checked (fields, hex4 (crc16_ccitt (join bar fields))) ≡ some fields
unfolding checked
checked-hex4 fields = ground (
  arith,
  parse_int-hex4 (crc16_ccitt (join bar fields))
      (crc_from-lt 0xFFFF (join bar fields) (omega arith)),
)

decode_frame-parted :
    (line : Text) → is_ascii line ≡ true → decode_frame line ≡ parted (split bar (strip line))
unfolding decode_frame
decode_frame-parted line h = ground arith

decode-line :
    (w : Text) (ws : List Text)
    → All (λ v. lacks bar v ≡ true) (w ∷ ws)
    → starts_blank w ≡ false
    → is_ascii (join bar (w ∷ ws)) ≡ true
    → decode_frame (join bar (w ∷ ws) ++ tail_of (crc16_ccitt (join bar (w ∷ ws)))) ≡ some (w ∷ ws)
decode-line w ws h b k =
    let body = join bar (w ∷ ws) in
    let n = crc16_ccitt body in
    decode_frame-parted (body ++ tail_of n)
      (is_ascii-append body (tail_of n) k (tail_of-is_ascii n))
    ∙ ap (λ l. parted (split bar l)) (strip-frame body n (starts_blank-join w ws _ b))
    ∙ ap parted (split-join bar w ws (hex4 n) h (lacks-hex4 n))
    ∙ parted-concat w ws (hex4 n)
    ∙ checked-hex4 (w ∷ ws)

some_if :
    (b : Bool) (t line : Text) → (if b then some t else none) ≡ some line → (b ≡ true) × (t ≡ line)
some_if true t line h = (refl, ground arith)
some_if false t line h = ground arith

encode_frame-some :
    (fields : List Text) (line : Text)
    → encode_frame fields ≡ some line
    → (is_ascii (join bar fields) ≡ true)
      × (join bar fields ++ tail_of (crc16_ccitt (join bar fields)) ≡ line)
unfolding encode_frame
encode_frame-some fields line e =
    some_if _ (join bar fields ++ tail_of (crc16_ccitt (join bar fields))) line e

pub encode_frame-ascii :
    (fields : List Text)
    → is_ascii (join bar fields) ≡ true
    → (line : Text) × (encode_frame fields ≡ some line)
unfolding encode_frame
encode_frame-ascii fields h =
    (join bar fields ++ tail_of (crc16_ccitt (join bar fields)), ground arith)

-- A frame that is encoded of fields without a bar, of which the first does not begin with a blank,
-- is decoded to these fields.
pub decode-encode :
    (w : Text) (ws : List Text) (line : Text)
    → All (λ v. lacks bar v ≡ true) (w ∷ ws)
    → starts_blank w ≡ false
    → encode_frame (w ∷ ws) ≡ some line
    → decode_frame line ≡ some (w ∷ ws)
decode-encode w ws line h b e =
    let i = encode_frame-some (w ∷ ws) line e in
    subst (λ l. decode_frame l ≡ some (w ∷ ws)) i.1 (decode-line w ws h b i.0)

-- The CRC text agrees with the fields.
abbrev Agrees : List Text → Text → Type 0
Agrees fields crc = parse_int 16 crc ≡ some (pos (crc16_ccitt (join bar fields)))

matches-Agrees :
    (o : Option ℤ) (body : Text) → crc_matches o body ≡ true → o ≡ some (pos (crc16_ccitt body))
matches-Agrees none body h = ground arith
matches-Agrees (some (pos n)) body h = ground arith
matches-Agrees (some (negsuc n)) body h = ground arith

checked-Agrees :
    (fields fs : List Text) (crc : Text)
    → checked (fields, crc) ≡ some fs
    → (fields ≡ fs) × Agrees fields crc
unfolding checked
checked-Agrees fields fs crc h = ground (arith, matches-Agrees (parse_int 16 crc) (join bar fields))

concat-split_last :
    {A : Type 0} (x : A) (xs : List A) → (split_last x xs).0 ++ (split_last x xs).1 ∷ [] ≡ x ∷ xs
unfolding split_last
concat-split_last x [] = refl
concat-split_last x (y ∷ ys) = ground (arith, concat-split_last y ys)

-- The parts of a line are the fields that were decoded, at least one, and a text that agrees.
abbrev IsFrame : List Text → List Text → Type 0
IsFrame parts fields =
    (crc : Text) × (parts ≡ fields ++ crc ∷ []) × (fields ≢ []) × Agrees fields crc

init-ne_nil : {A : Type 0} (x y : A) (ys : List A) → (split_last x (y ∷ ys)).0 ≢ []
unfolding split_last
init-ne_nil x y ys = λ h. cc

parted-IsFrame : (parts fields : List Text) → parted parts ≡ some fields → IsFrame parts fields
parted-IsFrame [] fields h = ground arith
parted-IsFrame (p ∷ []) fields h = ground arith
parted-IsFrame (p ∷ q ∷ ps) fields h =
    let s = split_last p (q ∷ ps) in
    let c = checked-Agrees s.0 fields s.1 h in
    subst (IsFrame (p ∷ q ∷ ps)) c.0
      (s.1, sym (concat-split_last p (q ∷ ps)), init-ne_nil p q ps, c.1)

decode_frame-some :
    (line : Text) (fields : List Text)
    → decode_frame line ≡ some fields
    → (is_ascii line ≡ true) × (parted (split bar (strip line)) ≡ some fields)
unfolding decode_frame
decode_frame-some line fields h = ground arith

-- A line that is decoded is ASCII; stripped and split at the bars it gives the fields, at least
-- one, and a last part that reads as the CRC of the fields.
decode_frame-carries_crc :
    (line : Text) (fields : List Text)
    → decode_frame line ≡ some fields
    → (is_ascii line ≡ true)
      × (crc : Text) × (split bar (strip line) ≡ fields ++ crc ∷ [])
      × (fields ≢ [])
      × (parse_int 16 crc ≡ some (pos (crc16_ccitt (join bar fields))))
decode_frame-carries_crc line fields h =
    let i = decode_frame-some line fields h in
    let f = parted-IsFrame (split bar (strip line)) fields i.1 in (i.0, f.0, f.1, f.2, f.3)
