-- ===== src/Vision/Capture.antt =====
-- capture_contract.py: the batch of images of a capture, and what it must fulfil. SHA-256, zlib and the file
-- system are parameters: the files are their contents by path. Counters and times that may be negative in
-- Python are integers.
pub mod Accepted
use Prim.Native.String as Native
use ai_vision_inspection.Base.{
  ℕ, zero, suc, ◌/◌, ◌-◌, String, String-discrete, ℤ, pos, negsuc, List, [], ◌∷◌, map, Option, none,
  some, Bool, true, false, ◌&&◌, ◌||◌, not, length, ltb, leb, nat_eq, holds, contains, codes,
  if◌then◌else◌, Result, ok, raise,
}
use ai_vision_inspection.Base.Dict
use ai_vision_inspection.Vision.Png.{
  Bytes, PngError, PixelFormat, mono8_png, rgb8_png, other_format, validate_canonical_png,
}

pub record ImageArtifact : Type 0 where
  pub camera_id : String
  pub file_path : String
  pub sha256 : String
  pub file_size_bytes : ℕ
  pub width : ℕ
  pub height : ℕ
  pub pixel_format : PixelFormat
  pub host_arrival_monotonic_ns : ℕ
  pub packet_loss_count : ℤ
  pub packet_resend_count : ℤ

pub record CaptureBatch : Type 0 where
  pub product_id : String
  pub station_id : ℕ
  pub capture_id : String
  pub frame_batch_id : String
  pub attempt : ℕ
  pub trigger_requested_monotonic_ns : ℕ
  pub trigger_returned_monotonic_ns : ℕ
  pub trigger_requested_wall_time_ns : ℕ
  pub trigger_returned_wall_time_ns : ℕ
  pub images : List ImageArtifact

pub data CaptureError : Type 0 where
  trigger_times duplicate_camera cameras_differ unsupported_expectation : CaptureError
  unsupported_format format_differs negative_counter packet_loss path_not_absolute : CaptureError
  incomplete_metadata size_differs digest_differs no_workers : CaptureError
  png_error : PngError → CaptureError

abbrev larger : ℕ → ℕ → ℕ
larger m n = if ltb m n then n else m

abbrev smaller : ℕ → ℕ → ℕ
smaller m n = if ltb n m then n else m

unfoldable pub latest : ℕ → List ImageArtifact → ℕ
latest m [] = m
latest m (i ∷ is) = latest (larger m i.host_arrival_monotonic_ns) is

unfoldable pub earliest : ℕ → List ImageArtifact → ℕ
earliest m [] = m
earliest m (i ∷ is) = earliest (smaller m i.host_arrival_monotonic_ns) is

-- `frame_arrival_skew_us`
unfoldable pub frame_arrival_skew_us : CaptureBatch → ℕ
frame_arrival_skew_us batch = elim batch.images [
  | [] ↦ 0
  | i ∷ is ↦
      (latest i.host_arrival_monotonic_ns is - earliest i.host_arrival_monotonic_ns is) / 1000
]

abbrev is_supported : PixelFormat → Bool
is_supported other_format = false
is_supported _ = true

abbrev same_format : PixelFormat → PixelFormat → Bool
same_format mono8_png mono8_png = true
same_format rgb8_png rgb8_png = true
same_format other_format other_format = true
same_format _ _ = false

abbrev differs_from : Option PixelFormat → PixelFormat → Bool
differs_from none f = false
differs_from (some e) f = not (same_format f e)

abbrev unsupported : Option PixelFormat → Bool
unsupported none = false
unsupported (some e) = not (is_supported e)

abbrev is_negative : ℤ → Bool
is_negative (pos n) = false
is_negative (negsuc n) = true

abbrev is_zero : ℤ → Bool
is_zero (pos n) = nat_eq n 0
is_zero (negsuc n) = false

abbrev starts_with_slash : List ℕ → Bool
starts_with_slash [] = false
starts_with_slash (c ∷ cs) = nat_eq c 47

-- `Path.is_absolute` on POSIX
unfoldable pub is_absolute : String → Bool
is_absolute path = starts_with_slash (codes path)

unfoldable pub no_duplicates : List String → Bool
no_duplicates [] = true
no_duplicates (x ∷ xs) = not (contains String-discrete x xs) && no_duplicates xs

unfoldable pub all_in : List String → List String → Bool
all_in [] ys = true
all_in (x ∷ xs) ys = contains String-discrete x ys && all_in xs ys

module _ (crc32 : Bytes → ℕ) (decompress : Bytes → Option Bytes) (sha256 : Bytes → String)
    (files : List (String × Bytes)) where
  abbrev of_png : Result PngError (Unit {0}) → Result CaptureError (Unit {0})
  of_png (raise e) = raise (png_error e)
  of_png (ok u) = ok u

  unfoldable pub validate_content : ImageArtifact → Bytes → Result CaptureError (Unit {0})
  validate_content i content =
      if not (nat_eq (length content) i.file_size_bytes)
      then raise size_differs
      else if not (holds (String-discrete (sha256 content) i.sha256))
      then raise digest_differs
      else of_png (validate_canonical_png crc32 decompress content i.width i.height i.pixel_format)

  -- `_validate_image_artifact`
  unfoldable pub validate_image_artifact :
      Option PixelFormat → ImageArtifact → Result CaptureError (Unit {0})
  validate_image_artifact expected i =
      if not (is_supported i.pixel_format)
      then raise unsupported_format
      else if differs_from expected i.pixel_format
      then raise format_differs
      else if is_negative i.packet_loss_count || is_negative i.packet_resend_count
      then raise negative_counter
      else if not (is_zero i.packet_loss_count)
      then raise packet_loss
      else if not (is_absolute i.file_path)
      then raise path_not_absolute
      else if not (nat_eq (length (codes i.sha256)) 64) || ltb i.file_size_bytes 1
      then raise incomplete_metadata
      else elim (Dict.get String-discrete i.file_path files) [
        | none ↦ raise size_differs
        | some content ↦ validate_content i content
      ]

  -- The exception of the first image that has one, as `executor.map` yields them.
  unfoldable pub validate_images :
      Option PixelFormat → List ImageArtifact → Result CaptureError (Unit {0})
  validate_images expected [] = ok tt
  validate_images expected (i ∷ is) =
      let rest = validate_images expected is in
      elim (validate_image_artifact expected i) [ raise e ↦ raise e | ok u ↦ rest ]

  -- An executor without workers raises a ValueError.
  abbrev validate_some : Option PixelFormat → List ImageArtifact → Result CaptureError (Unit {0})
  validate_some expected [] = raise no_workers
  validate_some expected (i ∷ is) = validate_images expected (i ∷ is)

  -- `CaptureBatch.validate`
  unfoldable pub validate :
      CaptureBatch → List String → Option PixelFormat → Result CaptureError (Unit {0})
  validate batch required expected =
      let cameras = map (λ i. i.camera_id) batch.images in
      if nat_eq batch.trigger_requested_monotonic_ns 0
        || ltb batch.trigger_returned_monotonic_ns batch.trigger_requested_monotonic_ns
        || nat_eq batch.trigger_requested_wall_time_ns 0
        || ltb batch.trigger_returned_wall_time_ns batch.trigger_requested_wall_time_ns
      then raise trigger_times
      else if not (no_duplicates cameras)
      then raise duplicate_camera
      else if not (all_in cameras required) || not (all_in required cameras)
      then raise cameras_differ
      else if unsupported expected
      then raise unsupported_expectation
      else validate_some expected batch.images
