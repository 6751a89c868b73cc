-- ===== src/Vision/Png/RoundTrip.antt =====
-- capture_contract.py: what the writer makes of a buffer, for the reader.
use ai_vision_inspection.Base.{
  ℕ, zero, suc, ◌+◌, ◌*◌, ◌≤◌, ◌<◌, String, String-discrete, List, [], ◌∷◌, ◌++◌, Option, none,
  some, true, false, length, nat_list_eq, ok, ◌≡◌, refl, ap, ◌∙◌, arith,
}
use ai_vision_inspection.Base.Dict
use ai_vision_inspection.Vision.Png.{
  Bytes, take, drop, mono8_png, signature, any_bad_filter, validate_scanlines, validate_image_data,
  validate_canonical_png,
}
use ai_vision_inspection.Vision.Png.Writer.{scanlines, write_mono8_png_atomic}
use ai_vision_inspection.Vision.Png.Layout.{
  drop-append, length-append, file_bytes, scan-file, png_of-file,
}

length-take : (k : ℕ) (bs : Bytes) → k ≤ length bs → length (take k bs) ≡ k
unfolding take
length-take zero bs h = refl
length-take (suc k) [] h = absurd (omega arith)
length-take (suc k) (x ∷ bs) h = omega (arith, length-take k bs (omega arith))

length-drop : (k : ℕ) (bs : Bytes) → k ≤ length bs → length (drop k bs) + k ≡ length bs
unfolding drop
length-drop zero bs h = omega arith
length-drop (suc k) [] h = absurd (omega arith)
length-drop (suc k) (x ∷ bs) h = omega (arith, length-drop k bs (omega arith))

suc_mul : (n m : ℕ) → suc n * m ≡ m + n * m
suc_mul n m = omega arith

one_mul : (m : ℕ) → m * 1 ≡ m
one_mul m = omega arith

scanlines-length :
    (rows width : ℕ) (pixels : Bytes)
    → length pixels ≡ width * rows
    → length (scanlines rows width pixels) ≡ rows * (1 + width * 1)
unfolding scanlines
scanlines-length zero width pixels h = omega arith
scanlines-length (suc rows) width pixels h =
    let room : width ≤ length pixels = omega (arith, suc_mul rows width) in
    ground (
      arith,
      length-append (take width pixels) (scanlines rows width (drop width pixels)),
      length-take width pixels room,
      length-drop width pixels room,
      suc_mul rows (1 + width * 1),
      suc_mul rows width,
      scanlines-length rows width (drop width pixels)
          (omega (arith, length-drop width pixels room, suc_mul rows width)),
    )

-- The row that `scanlines` writes is as long as the reader's stride.
scanlines-drop :
    (rows width : ℕ) (pixels : Bytes)
    → width ≤ length pixels
    → drop (1 + width * 1) (scanlines (suc rows) width pixels)
      ≡ scanlines rows width (drop width pixels)
unfolding scanlines drop
scanlines-drop rows width pixels h =
    let rest = scanlines rows width (drop width pixels) in
    let stride : 1 + width * 1 ≡ suc (length (take width pixels)) =
      omega (arith, length-take width pixels h) in
    ap (λ k. drop k (0 ∷ take width pixels ++ rest)) stride ∙ drop-append (take width pixels) rest

any_bad_filter-scanlines :
    (rows width : ℕ) (pixels : Bytes)
    → length pixels ≡ width * rows
    → any_bad_filter rows (1 + width * 1) (scanlines rows width pixels) ≡ false
unfolding any_bad_filter scanlines
any_bad_filter-scanlines zero width pixels h = refl
any_bad_filter-scanlines (suc rows) width pixels h =
    let room : width ≤ length pixels = omega (arith, suc_mul rows width) in
    ground (
      arith,
      scanlines-drop rows width pixels room,
      any_bad_filter-scanlines rows width (drop width pixels)
          (omega (arith, length-drop width pixels room, suc_mul rows width)),
    )

validate_scanlines-scanlines :
    (width height : ℕ) (pixels : Bytes)
    → length pixels ≡ width * height
    → validate_scanlines (scanlines height width pixels) height (1 + width * 1) ≡ ok tt
unfolding validate_scanlines
validate_scanlines-scanlines width height pixels h =
    ground (
      arith,
      scanlines-length height width pixels h,
      any_bad_filter-scanlines height width pixels h,
    )

module _ (crc32 : Bytes → ℕ) (compress : ℕ → Bytes → Bytes) (decompress : Bytes → Option Bytes)
    (inverse : (level : ℕ) (bytes : Bytes) → decompress (compress level bytes) ≡ some bytes) where
  -- A file of the writer is accepted by the reader.
  file-accepted :
      (width height level : ℕ) (pixels : Bytes)
      → length pixels ≡ width * height
      → validate_canonical_png crc32 decompress
          (signature
            ++ file_bytes crc32 width height (compress level (scanlines height width pixels)))
          width
          height
          mono8_png
        ≡ ok tt
  unfolding validate_canonical_png validate_image_data take drop nat_list_eq
  file-accepted width height level pixels h =
      let compressed = compress level (scanlines height width pixels) in
      ground (
        arith,
        scan-file crc32 (length (71 ∷ 13 ∷ 10 ∷ 26 ∷ 10 ∷ file_bytes crc32 width height compressed))
            width height compressed,
        inverse level (scanlines height width pixels),
        validate_scanlines-scanlines width height pixels h,
      )

  -- A buffer of the right length, with dimensions and a compressed size that fit in 32 bits, is written to a
  -- path where no file is; the file that is there afterwards has the digest and the size that the writer
  -- returns, and the reader accepts it with the same dimensions, when decompression undoes compression.
  pub written_png_is_valid :
      (sha256 : Bytes → String) (files : List (String × Bytes)) (path : String) (pixels : Bytes)
      (width height level : ℕ)
      → 0 < width
      → 0 < height
      → length pixels ≡ width * height
      → level ≤ 9
      → Dict.get String-discrete path files ≡ none
      → width < 4294967296
      → height < 4294967296
      → length (compress level (scanlines height width pixels)) < 4294967296
      → (content : Bytes) × (Dict.get String-discrete path
            (write_mono8_png_atomic crc32 compress sha256 files path pixels width height level
              true).0
          ≡ some content)
        × ((write_mono8_png_atomic crc32 compress sha256 files path pixels width height level
              true).1
            ≡ ok (sha256 content, length content))
        × (validate_canonical_png crc32 decompress content width height mono8_png ≡ ok tt)
  unfolding write_mono8_png_atomic
  written_png_is_valid sha256 files path pixels width height level w h n l f lw lh lc =
      let compressed = compress level (scanlines height width pixels) in
      let content = signature ++ file_bytes crc32 width height compressed in
      let made = png_of-file crc32 width height compressed lw lh lc in
      let put = Dict.get-put_self String-discrete path content files in
      (
        content,
        ground (arith, made, put),
        ground (arith, made),
        file-accepted width height level pixels n,
      )
