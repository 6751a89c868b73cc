-- ===== src/Vision/Png.antt =====
-- capture_contract.py: the PNG files of the captured images. A byte is a number, and `bytes` is a list of
-- them. zlib is a parameter: its CRC-32, and its compression and decompression, which may fail.
pub mod Writer
pub mod Fuel
pub mod Layout
pub mod RoundTrip
use ai_vision_inspection.Base.{
  ℕ, zero, suc, ◌+◌, ◌*◌, ◌/◌, ◌%◌, List, [], ◌∷◌, ◌++◌, Option, none, some, Bool, true, false,
  ◌&&◌, ◌||◌, not, is_some, is_nil, length, ltb, leb, nat_eq, nat_list_eq, if◌then◌else◌, Result,
  ok, raise,
}

abbrev pub Bytes : Type 0
Bytes = List ℕ

-- `data[:k]` and `data[k:]`
unfoldable pub take : ℕ → Bytes → Bytes
take zero bs = []
take (suc k) [] = []
take (suc k) (x ∷ bs) = x ∷ take k bs

unfoldable pub drop : ℕ → Bytes → Bytes
drop zero bs = bs
drop (suc k) [] = []
drop (suc k) (x ∷ bs) = drop k bs

-- `struct.unpack(">I", data)`
abbrev pub unpack32 : ℕ → ℕ → ℕ → ℕ → ℕ
unpack32 x y z w = x * 16777216 + y * 65536 + z * 256 + w

abbrev pub word_at : Bytes → ℕ
word_at (x ∷ y ∷ z ∷ w ∷ bs) = unpack32 x y z w
word_at _ = 0

pub data PngError : Type 0 where
  not_a_png chunk_too_long crc_differs bad_header unsupported_method bad_end : PngError
  dimensions_differ color_differs not_decompressed bad_scanlines bad_filter : PngError

-- MONO8_PNG and RGB8_PNG are the canonical formats.
pub data PixelFormat : Type 0 where
  mono8_png rgb8_png other_format : PixelFormat

abbrev pub signature : Bytes
signature = 137 ∷ 80 ∷ 78 ∷ 71 ∷ 13 ∷ 10 ∷ 26 ∷ 10 ∷ []

abbrev pub ihdr : Bytes
ihdr = 73 ∷ 72 ∷ 68 ∷ 82 ∷ []

abbrev pub idat : Bytes
idat = 73 ∷ 68 ∷ 65 ∷ 84 ∷ []

abbrev pub iend : Bytes
iend = 73 ∷ 69 ∷ 78 ∷ 68 ∷ []

-- What IHDR says.
pub record Header : Type 0 where
  pub width : ℕ
  pub height : ℕ
  pub bit_depth : ℕ
  pub color_type : ℕ
  pub interlace : ℕ

-- The variables of the loop besides the offset.
pub record Seen : Type 0 where
  pub header : Option Header
  pub compressed : Bytes

abbrev pub nothing_seen : Seen
nothing_seen = record { header = none; compressed = [] }

-- `struct.unpack(">IIBBBBB", data)` and the test of the two methods.
abbrev pub header_of : Bytes → Result PngError Header
header_of
      (a ∷ b ∷ c ∷ d ∷ e ∷ f ∷ g ∷ h ∷ depth ∷ color ∷ compression ∷ filtering ∷ interlaced ∷ []) =
    if not (nat_eq compression 0) || not (nat_eq filtering 0)
    then raise unsupported_method
    else ok (record {
      width = unpack32 a b c d;
      height = unpack32 e f g h;
      bit_depth = depth;
      color_type = color;
      interlace = interlaced;
    })
header_of _ = raise bad_header

abbrev with_header : Seen → Result PngError Header → Result PngError (Seen × Bool)
with_header s (raise e) = raise e
with_header s (ok h) = ok (record s { header = some h }, false)

-- A chunk whose CRC is right; the flag says that it was IEND.
unfoldable pub absorb : Seen → Bytes → Bytes → Result PngError (Seen × Bool)
absorb s kind content =
    if nat_list_eq kind ihdr
    then (if not (nat_eq (length content) 13) || is_some s.header
        then raise bad_header
        else with_header s (header_of content))
    else if nat_list_eq kind idat
    then ok (record s { compressed = s.compressed ++ content }, false)
    else if nat_list_eq kind iend
    then (if nat_eq (length content) 0 then ok (s, true) else raise bad_end)
    else ok (s, false)

-- A chunk and what follows it.
pub record Chunk : Type 0 where
  pub kind : Bytes
  pub content : Bytes
  pub rest : Bytes

-- How the loop ends: it raises, fewer than 12 bytes are left, or IEND was read. `stuck` is no outcome of the
-- loop: its fuel ran out.
pub data Scan : Type 0 where
  raised : PngError → Scan
  ran_out : Seen → Bytes → Scan
  complete : Seen → Bytes → Scan
  stuck : Scan

abbrev channels : PixelFormat → ℕ
channels mono8_png = 1
channels _ = 3

abbrev color_of : PixelFormat → ℕ
color_of mono8_png = 0
color_of _ = 2

-- `any(scanlines[row * stride] > 4 for row in range(height))`
unfoldable pub any_bad_filter : ℕ → ℕ → Bytes → Bool
any_bad_filter zero stride bs = false
any_bad_filter (suc rows) stride [] = false
any_bad_filter (suc rows) stride (x ∷ bs) =
    let rest = any_bad_filter rows stride (drop stride (x ∷ bs)) in ltb 4 x || rest

unfoldable pub validate_scanlines : Bytes → ℕ → ℕ → Result PngError (Unit {0})
validate_scanlines lines height stride =
    if not (nat_eq (length lines) (height * stride))
    then raise bad_scanlines
    else if any_bad_filter height stride lines
    then raise bad_filter
    else ok tt

module _ (decompress : Bytes → Option Bytes) where
  unfoldable pub validate_image_data :
      Option Header → Bytes → ℕ → ℕ → PixelFormat → Result PngError (Unit {0})
  validate_image_data none compressed width height format = raise dimensions_differ
  validate_image_data (some h) compressed width height format =
      if not (nat_eq h.width width && nat_eq h.height height)
      then raise dimensions_differ
      else if not (nat_eq h.bit_depth 8)
          || not (nat_eq h.color_type (color_of format))
          || not (nat_eq h.interlace 0)
      then raise color_differs
      else elim (decompress compressed) [
        | none ↦ raise not_decompressed
        | some lines ↦ validate_scanlines lines height (1 + width * channels format)
      ]

module _ (crc32 : Bytes → ℕ) where
  -- The offset of the loop is the bytes that are left; there are 12 of them at least.
  unfoldable pub next_chunk : Bytes → Result PngError Chunk
  next_chunk bytes =
      let size = word_at bytes in
      let kind = take 4 (drop 4 bytes) in
      let body = drop 8 bytes in
      let content = take size body in
      if ltb (length body) (size + 4)
      then raise chunk_too_long
      else if not (nat_eq (crc32 (kind ++ content) % 4294967296) (word_at (drop size body)))
      then raise crc_differs
      else ok (record { kind = kind; content = content; rest = drop (size + 4) body })

  abbrev absorbed : Seen → Result PngError Chunk → Result PngError (Seen × Bool × Bytes)
  absorbed s (raise e) = raise e
  absorbed s (ok c) = elim (absorb s c.kind c.content) [
    | raise e ↦ raise e
    | ok (s', last) ↦ ok (s', last, c.rest)
  ]

  unfoldable pub read_chunk : Seen → Bytes → Result PngError (Seen × Bool × Bytes)
  unfolding next_chunk
  read_chunk s bytes = absorbed s (next_chunk bytes)

  -- The loop. Each round takes 12 bytes at least, so their number is fuel enough.
  unfoldable pub scan : ℕ → Seen → Bytes → Scan
  scan zero s bytes = if ltb (length bytes) 12 then ran_out s bytes else stuck
  scan (suc fuel) s bytes =
      if ltb (length bytes) 12 then ran_out s bytes else elim (read_chunk s bytes) [
        | raise e ↦ raised e
        | ok (s', true, rest) ↦ complete s' rest
        | ok (s', false, rest) ↦ scan fuel s' rest
      ]

  module _ (decompress : Bytes → Option Bytes) where
    abbrev scanned : Scan → ℕ → ℕ → PixelFormat → Result PngError (Unit {0})
    scanned (complete s []) width height format =
        validate_image_data decompress s.header s.compressed width height format
    scanned (raised e) width height format = raise e
    scanned _ width height format = raise bad_end

    -- `_validate_canonical_png`
    unfoldable pub validate_canonical_png : Bytes → ℕ → ℕ → PixelFormat → Result PngError (Unit {0})
    validate_canonical_png content width height format =
        if not (nat_list_eq (take 8 content) signature)
        then raise not_a_png
        else scanned (scan (length content) nothing_seen (drop 8 content)) width height format
