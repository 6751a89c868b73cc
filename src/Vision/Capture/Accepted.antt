-- ===== src/Vision/Capture/Accepted.antt =====
-- capture_contract.py: what a batch that passes `validate` fulfils.
use ai_vision_inspection.Base.{
  ℕ, ◌≤◌, ◌<◌, String, String-discrete, pos, List, [], ◌∷◌, map, Option, some, true, length, All,
  ok, ◌≡◌, ◌≢◌, inl, inr, arith, Option-cases,
}
use ai_vision_inspection.Base.Dict
use ai_vision_inspection.Vision.Png.{Bytes, PixelFormat, other_format, validate_canonical_png}
use ai_vision_inspection.Vision.Capture.{
  ImageArtifact, CaptureBatch, no_duplicates, all_in, validate_content, validate_image_artifact,
  validate_images, validate,
}

module _ (crc32 : Bytes → ℕ) (decompress : Bytes → Option Bytes) (sha256 : Bytes → String)
    (files : List (String × Bytes)) where
  -- The file of the image has the size, the digest and the contents that the metadata say, and no packet
  -- was lost.
  abbrev pub IsStored : ImageArtifact → Type 0
  IsStored i =
      (content : Bytes) × (Dict.get String-discrete i.file_path files ≡ some content)
      × (length content ≡ i.file_size_bytes)
      × (sha256 content ≡ i.sha256)
      × (validate_canonical_png crc32 decompress content i.width i.height i.pixel_format ≡ ok tt)
      × (i.packet_loss_count ≡ pos 0)
      × (i.pixel_format ≢ other_format)

  validate_image_artifact-IsStored :
      (expected : Option PixelFormat) (i : ImageArtifact)
      → validate_image_artifact crc32 decompress sha256 files expected i ≡ ok tt
      → IsStored i
  unfolding validate_image_artifact validate_content
  validate_image_artifact-IsStored expected i h =
      elim (Option-cases (Dict.get String-discrete i.file_path files)) [
        | inl e ↦ absurd (ground arith)
        | inr (content, e) ↦
            (content, e, ground arith, ground arith, ground arith, ground arith, λ p. ground arith)
      ]

  validate_images-All :
      (expected : Option PixelFormat) (is : List ImageArtifact)
      → validate_images crc32 decompress sha256 files expected is ≡ ok tt
      → All IsStored is
  unfolding validate_images
  validate_images-All expected [] h = tt
  validate_images-All expected (i ∷ is) h = (
    validate_image_artifact-IsStored expected i (ground arith),
    validate_images-All expected is (ground arith),
  )

  -- A batch that passes has an image of each required camera and of no other, each camera once; every image
  -- is stored as its metadata say and lost no packet; and the trigger returned no earlier than it was
  -- requested.
  pub accepted_batch :
      (batch : CaptureBatch) (required : List String) (expected : Option PixelFormat)
      → validate crc32 decompress sha256 files batch required expected ≡ ok tt
      → All IsStored batch.images
        × (no_duplicates (map (λ i. i.camera_id) batch.images) ≡ true)
        × (all_in (map (λ i. i.camera_id) batch.images) required ≡ true)
        × (all_in required (map (λ i. i.camera_id) batch.images) ≡ true)
        × (0 < length batch.images)
        × (batch.trigger_requested_monotonic_ns ≤ batch.trigger_returned_monotonic_ns)
  unfolding validate
  accepted_batch batch required expected h =
      let all = validate_images-All expected batch.images (ground arith) in
      (all, ground arith, ground arith, ground arith, ground arith, ground arith)
