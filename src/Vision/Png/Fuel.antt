-- ===== src/Vision/Png/Fuel.antt =====
-- capture_contract.py: the loop over the chunks of a PNG file ends.
use ai_vision_inspection.Base.{
  ℕ, zero, suc, ◌+◌, ◌≤◌, ◌<◌, [], ◌∷◌, Bool, length, ltb, Result, ok, raise, ◌≡◌, ◌≢◌, ◌⊎◌, inl,
  inr, refl, arith, Bool-cases,
}
use ai_vision_inspection.Vision.Png.{
  Bytes, drop, word_at, Seen, stuck, next_chunk, read_chunk, scan,
}

length-drop-le : (k : ℕ) (bs : Bytes) → length (drop k bs) ≤ length bs
unfolding drop
length-drop-le zero bs = omega arith
length-drop-le (suc k) [] = omega arith
length-drop-le (suc k) (x ∷ bs) = omega (arith, length-drop-le k bs)

length-drop-lt : (k : ℕ) (bs : Bytes) → 0 < length bs → length (drop (suc k) bs) < length bs
unfolding drop
length-drop-lt k [] h = absurd (omega arith)
length-drop-lt k (x ∷ bs) h = omega (arith, length-drop-le k bs)

Result-cases : {E A : Type 0} (r : Result E A) → ((e : E) × (r ≡ raise e)) ⊎ ((x : A) × (r ≡ ok x))
Result-cases (raise e) = inl (e, refl)
Result-cases (ok x) = inr (x, refl)

module _ (crc32 : Bytes → ℕ) where
  -- What is left after a chunk is shorter.
  read_chunk-shorter :
      (s s' : Seen) (bytes rest : Bytes) (last : Bool)
      → 0 < length bytes
      → read_chunk crc32 s bytes ≡ ok (s', last, rest)
      → length rest < length bytes
  unfolding read_chunk next_chunk
  read_chunk-shorter s s' bytes rest last h e =
      let size = word_at bytes in
      ground (arith, length-drop-le (size + 4) (drop 8 bytes), length-drop-lt 7 bytes h)

  -- With as much fuel as there are bytes, or more, the loop over the chunks does not run out of fuel.
  pub scan_ends :
      (fuel : ℕ) (s : Seen) (bytes : Bytes) → length bytes ≤ fuel → scan crc32 fuel s bytes ≢ stuck
  unfolding scan
  scan_ends zero s bytes h = ground arith
  scan_ends (suc fuel) s bytes h = elim (Bool-cases (ltb (length bytes) 12)) [
    | inl t ↦ ground arith
    | inr f ↦ elim (Result-cases (read_chunk crc32 s bytes)) [
      | inl (e, r) ↦ ground arith
      | inr ((s', last, rest), r) ↦
          let less = read_chunk-shorter s s' bytes rest last (ground arith) r in
          ground (arith, scan_ends fuel s' rest (omega arith))
    ]
  ]
