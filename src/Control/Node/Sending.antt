-- ===== src/Control/Node/Sending.antt =====
-- control_node.py: the frame of a command to the Mega board.
use ai_vision_inspection.Base.{
  ℕ, zero, suc, ◌+◌, ◌/◌, ◌%◌, ◌≡◌, refl, arith, true, false, List, [], ◌∷◌, ◌++◌, map, All, some,
  ok, Text, codes, lacks, join,
}
use ai_vision_inspection.Control.Protocol.{is_ascii, bar, encode_frame, decode_frame}
use ai_vision_inspection.Control.Protocol.Hex.{starts_blank}
use ai_vision_inspection.Control.Protocol.RoundTrip.{
  decode-encode, is_ascii-append, encode_frame-ascii,
}
use ai_vision_inspection.Control.Node.{
  ControlNode, decimal_onto, decimal, command_fields, next_mega_sequence, sent, send_mega,
}

-- A field that a frame can carry.
abbrev pub IsPlain : Text → Type 0
IsPlain w = (lacks bar w ≡ true) × (is_ascii w ≡ true)

decimal_onto-IsPlain :
    (fuel n : ℕ) (rest : Text) → IsPlain rest → IsPlain (decimal_onto fuel n rest)
unfolding decimal_onto is_ascii
decimal_onto-IsPlain zero n rest p = p
decimal_onto-IsPlain (suc fuel) n rest p =
    ground (arith, decimal_onto-IsPlain fuel (n / 10) ((n % 10 + 48) ∷ rest))

pub decimal-IsPlain : (n : ℕ) → IsPlain (decimal n)
unfolding is_ascii
decimal-IsPlain n = decimal_onto-IsPlain (n + 1) n [] (refl, refl)

decimals-IsPlain : (ns : List ℕ) → All IsPlain (map decimal ns)
decimals-IsPlain [] = tt
decimals-IsPlain (n ∷ ns) = (decimal-IsPlain n, decimals-IsPlain ns)

is_ascii-join : (ws : List Text) → All IsPlain ws → is_ascii (join bar ws) ≡ true
unfolding join is_ascii
is_ascii-join [] h = refl
is_ascii-join (w ∷ []) h = h.0.1
is_ascii-join (w ∷ v ∷ ws) h =
    is_ascii-append w (bar ∷ join bar (v ∷ ws)) h.0.1 (is_ascii-join (v ∷ ws) h.1)

plain-lacks : (ws : List Text) → All IsPlain ws → All (λ w. lacks bar w ≡ true) ws
plain-lacks [] h = tt
plain-lacks (w ∷ ws) h = (h.0.0, plain-lacks ws h.1)

-- Plain fields are encoded, and the frame decodes to them.
encode-plain :
    (w : Text) (ws : List Text)
    → All IsPlain (w ∷ ws)
    → starts_blank w ≡ false
    → (frame : Text) × (encode_frame (w ∷ ws) ≡ some frame) × (decode_frame frame ≡ some (w ∷ ws))
encode-plain w ws h b =
    let e = encode_frame-ascii (w ∷ ws) (is_ascii-join (w ∷ ws) h) in
    (e.0, e.1, decode-encode w ws e.0 (plain-lacks (w ∷ ws) h) b e.1)

command_fields-IsPlain :
    (sequence : ℕ) (operation : Text) (values : List ℕ)
    → IsPlain operation
    → All IsPlain (command_fields sequence operation values)
unfolding is_ascii
command_fields-IsPlain sequence operation values p =
    ((refl, refl), (decimal-IsPlain sequence, (p, decimals-IsPlain values)))

-- A command on an open line takes the next sequence number and writes one frame, which decodes to the
-- letter C, the number, the operation and the values; it does not fail.
pub send_mega-decodes :
    (n : ControlNode) (operation : Text) (values : List ℕ)
    → n.mega_connected ≡ true
    → IsPlain operation
    → (frame : Text) × (send_mega n operation values ≡ (
      record n {
        mega_sequence = next_mega_sequence n.mega_sequence;
        written = n.written ++ frame ∷ [];
      },
      ok (next_mega_sequence n.mega_sequence),
    ))
      × (decode_frame frame
          ≡ some (command_fields (next_mega_sequence n.mega_sequence) operation values))
unfolding send_mega sent
send_mega-decodes n operation values c p =
    let sequence = next_mega_sequence n.mega_sequence in
    let e =
      encode-plain (codes "C") (decimal sequence ∷ operation ∷ map decimal values)
        (command_fields-IsPlain sequence operation values p) refl in
    (e.0, ground arith, e.2)
