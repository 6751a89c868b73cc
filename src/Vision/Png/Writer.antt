-- ===== src/Vision/Png/Writer.antt =====
-- capture_contract.py: writing a PNG file. `struct.pack` raises for a number that does not fit, which is
-- `none`; the temporary file is gone when the function is left, whatever happens.
use ai_vision_inspection.Base.{
  ℕ, zero, suc, ◌*◌, ◌/◌, ◌%◌, String, String-discrete, List, [], ◌∷◌, ◌++◌, Option, none, some,
  Bool, true, false, ◌||◌, not, is_some, length, ltb, nat_eq, if◌then◌else◌, Result, ok, raise,
}
use ai_vision_inspection.Base.Dict
use ai_vision_inspection.Vision.Png.{Bytes, take, drop, signature, ihdr, idat, iend}

-- `struct.pack(">I", value)`
unfoldable pub pack32 : ℕ → Option Bytes
pack32 value =
    if ltb value 4294967296
    then some ((value / 16777216 ∷ value / 65536 % 256 ∷ value / 256 % 256 ∷ value % 256 ∷ []))
    else none

-- The bytes of both, if both fit.
abbrev pub joined : Option Bytes → Option Bytes → Option Bytes
joined none y = none
joined (some x) none = none
joined (some x) (some y) = some (x ++ y)

-- The rows of the buffer, each after the filter type 0.
unfoldable pub scanlines : ℕ → ℕ → Bytes → Bytes
scanlines zero width pixels = []
scanlines (suc rows) width pixels =
    0 ∷ take width pixels ++ scanlines rows width (drop width pixels)

module _ (crc32 : Bytes → ℕ) where
  unfoldable pub chunk : Bytes → Bytes → Option Bytes
  chunk kind content =
      joined (pack32 (length content))
        (joined (some (kind ++ content)) (pack32 (crc32 (kind ++ content) % 4294967296)))

  unfoldable pub header_data : ℕ → ℕ → ℕ → Option Bytes
  header_data width height color =
      joined (pack32 width) (joined (pack32 height) (some (8 ∷ color ∷ 0 ∷ 0 ∷ 0 ∷ [])))

  abbrev chunk_if : Bytes → Option Bytes → Option Bytes
  chunk_if kind none = none
  chunk_if kind (some content) = chunk kind content

  -- The file with the compressed rows.
  unfoldable pub png_of : ℕ → ℕ → ℕ → Bytes → Option Bytes
  png_of width height color compressed = joined (some signature) (
      joined (chunk_if ihdr (header_data width height color))
        (joined (chunk idat compressed) (chunk iend [])))

  pub data WriteError : Type 0 where
    value_error file_exists packing_error writing_error : WriteError

  module _ (compress : ℕ → Bytes → Bytes) (sha256 : Bytes → String) where
    abbrev stored :
        List (String × Bytes)
        → String
        → Bool
        → Option Bytes
        → List (String × Bytes) × Result WriteError (String × ℕ)
    stored files path writes none = (files, raise packing_error)
    stored files path false (some content) = (files, raise writing_error)
    stored files path true (some content) =
        (Dict.put String-discrete path content files, ok (sha256 content, length content))

    -- The files and their contents are an argument; the flag says that the file system does its part.
    unfoldable pub write_mono8_png_atomic :
        List (String × Bytes)
        → String
        → Bytes
        → ℕ
        → ℕ
        → ℕ
        → Bool
        → List (String × Bytes) × Result WriteError (String × ℕ)
    write_mono8_png_atomic files path pixels width height level writes =
        if ltb width 1 || ltb height 1 || not (nat_eq (length pixels) (width * height))
        then (files, raise value_error)
        else if ltb 9 level
        then (files, raise value_error)
        else if is_some (Dict.get String-discrete path files)
        then (files, raise file_exists)
        else stored files path writes
            (png_of width height 0 (compress level (scanlines height width pixels)))
