-- ===== src/Vision/Png/Layout.antt =====
-- capture_contract.py: the bytes of a written PNG file, chunk by chunk, and the loop over them.
use ai_vision_inspection.Base.{
  ℕ, suc, ◌+◌, ◌/◌, ◌%◌, ◌<◌, [], ◌∷◌, ◌++◌, some, true, false, length, nat_list_eq, ok, ◌≡◌, refl,
  ap, ◌∙◌, arith,
}
use mathlib.Core.List.{append_assoc}
use ai_vision_inspection.Vision.Png.{
  Bytes, take, drop, unpack32, signature, ihdr, Header, Seen, nothing_seen, absorb, complete,
  next_chunk, read_chunk, scan,
}
use ai_vision_inspection.Vision.Png.Writer.{pack32, chunk, header_data, png_of}

pub take-append : (xs ys : Bytes) → take (length xs) (xs ++ ys) ≡ xs
unfolding take
take-append [] ys = refl
take-append (x ∷ xs) ys = ap (λ zs. x ∷ zs) (take-append xs ys)

pub drop-append : (xs ys : Bytes) → drop (length xs) (xs ++ ys) ≡ ys
unfolding drop
drop-append [] ys = refl
drop-append (x ∷ xs) ys = drop-append xs ys

pub zero_plus : (k : ℕ) → 0 + k ≡ k
zero_plus k = omega arith

pub suc_plus : (n k : ℕ) → suc n + k ≡ suc (n + k)
suc_plus n k = omega arith

pub drop-append_more : (k : ℕ) (xs ys : Bytes) → drop (length xs + k) (xs ++ ys) ≡ drop k ys
unfolding drop
drop-append_more k [] ys = ap (λ m. drop m ys) (zero_plus k)
drop-append_more k (x ∷ xs) ys =
    ap (λ m. drop m (x ∷ xs ++ ys)) (suc_plus (length xs) k) ∙ drop-append_more k xs ys

pub length-append : (xs ys : Bytes) → length (xs ++ ys) ≡ length xs + length ys
length-append [] ys = omega arith
length-append (x ∷ xs) ys = omega (arith, length-append xs ys)

-- A number in four bytes, in front of what follows it.
abbrev pub number : ℕ → Bytes → Bytes
number v rest = v / 16777216 ∷ v / 65536 % 256 ∷ v / 256 % 256 ∷ v % 256 ∷ rest

pub number-value : (v : ℕ) → unpack32 (v / 16777216) (v / 65536 % 256) (v / 256 % 256) (v % 256) ≡ v
number-value v = omega arith

module _ (crc32 : Bytes → ℕ) where
  -- A chunk of the kind with the four bytes, in front of what follows it.
  abbrev pub laid : ℕ → ℕ → ℕ → ℕ → Bytes → Bytes → Bytes
  laid i j k l content rest =
      number (length content)
        (i ∷ j ∷ k ∷ l ∷ content ++ number (crc32 (i ∷ j ∷ k ∷ l ∷ content) % 4294967296) rest)

  pub next_chunk-laid :
      (i j k l : ℕ) (content rest : Bytes)
      → next_chunk crc32 (laid i j k l content rest)
        ≡ ok (record { kind = i ∷ j ∷ k ∷ l ∷ []; content = content; rest = rest })
  unfolding next_chunk take drop
  next_chunk-laid i j k l content rest =
      let sum = crc32 (i ∷ j ∷ k ∷ l ∷ content) % 4294967296 in
      let tail = number sum rest in
      ground (
        arith,
        number-value (length content),
        number-value sum,
        take-append content tail,
        drop-append content tail,
        drop-append_more 4 content tail,
        length-append content tail,
      )

  -- A chunk is one round of the loop.
  pub scan-laid :
      (fuel : ℕ) (s s' : Seen) (i j k l : ℕ) (content rest : Bytes)
      → absorb s (i ∷ j ∷ k ∷ l ∷ []) content ≡ ok (s', false)
      → scan crc32 (suc fuel) s (laid i j k l content rest) ≡ scan crc32 fuel s' rest
  unfolding scan read_chunk
  scan-laid fuel s s' i j k l content rest e =
      let sum = crc32 (i ∷ j ∷ k ∷ l ∷ content) % 4294967296 in
      ground (arith, next_chunk-laid i j k l content rest, length-append content (number sum rest))

  pub scan-laid_last :
      (fuel : ℕ) (s s' : Seen) (i j k l : ℕ) (content rest : Bytes)
      → absorb s (i ∷ j ∷ k ∷ l ∷ []) content ≡ ok (s', true)
      → scan crc32 (suc fuel) s (laid i j k l content rest) ≡ complete s' rest
  unfolding scan read_chunk
  scan-laid_last fuel s s' i j k l content rest e =
      let sum = crc32 (i ∷ j ∷ k ∷ l ∷ content) % 4294967296 in
      ground (arith, next_chunk-laid i j k l content rest, length-append content (number sum rest))

  abbrev pub header_bytes : ℕ → ℕ → Bytes
  header_bytes w h = number w (number h (8 ∷ 0 ∷ 0 ∷ 0 ∷ 0 ∷ []))

  abbrev pub header_for : ℕ → ℕ → Header
  header_for w h = record { width = w; height = h; bit_depth = 8; color_type = 0; interlace = 0 }

  abbrev pub with_size : ℕ → ℕ → Seen
  with_size w h = record { header = some (header_for w h); compressed = [] }

  pub absorb-header :
      (w h : ℕ) → absorb nothing_seen ihdr (header_bytes w h) ≡ ok (with_size w h, false)
  unfolding absorb nat_list_eq
  absorb-header w h = ground (arith, number-value w, number-value h)

  abbrev pub file_bytes : ℕ → ℕ → Bytes → Bytes
  file_bytes w h compressed =
      laid 73 72 68 82 (header_bytes w h) (laid 73 68 65 84 compressed (laid 73 69 78 68 [] []))

  abbrev pub all_read : ℕ → ℕ → Bytes → Seen
  all_read w h compressed = record { header = some (header_for w h); compressed = compressed }

  pub scan-file :
      (fuel w h : ℕ) (compressed : Bytes)
      → scan crc32 (suc (suc (suc fuel))) nothing_seen (file_bytes w h compressed)
        ≡ complete (all_read w h compressed) []
  unfolding absorb nat_list_eq
  scan-file fuel w h compressed =
      scan-laid (suc (suc fuel)) nothing_seen (with_size w h) 73 72 68 82 (header_bytes w h) _
        (absorb-header w h)
      ∙ scan-laid (suc fuel) (with_size w h) (all_read w h compressed) 73 68 65 84 compressed _ refl
      ∙ scan-laid_last fuel (all_read w h compressed) (all_read w h compressed) 73 69 78 68 [] []
          refl

  pub chunk-laid :
      (i j k l : ℕ) (content : Bytes)
      → length content < 4294967296
      → chunk crc32 (i ∷ j ∷ k ∷ l ∷ []) content ≡ some (laid i j k l content [])
  unfolding chunk pack32
  chunk-laid i j k l content h = ground arith

  pub laid-append :
      (i j k l : ℕ) (content rest : Bytes)
      → laid i j k l content [] ++ rest ≡ laid i j k l content rest
  laid-append i j k l content rest =
      ap (λ bs. number (length content) (i ∷ j ∷ k ∷ l ∷ bs)) (append_assoc content _ rest)

  pub png_of-file :
      (w h : ℕ) (compressed : Bytes)
      → w < 4294967296
      → h < 4294967296
      → length compressed < 4294967296
      → png_of crc32 w h 0 compressed ≡ some (signature ++ file_bytes w h compressed)
  unfolding png_of header_data pack32
  png_of-file w h compressed lw lh lc = ground (
    arith,
    chunk-laid 73 72 68 82 (header_bytes w h) (omega arith),
    chunk-laid 73 68 65 84 compressed lc,
    chunk-laid 73 69 78 68 [] (omega arith),
    laid-append 73 68 65 84 compressed (laid 73 69 78 68 [] []),
  )
