-- ===== src/Examples/Images.antt =====
-- A small image, written and read, and a batch of it.
use ai_vision_inspection.Base.{
  ℕ, ◌≤◌, ◌<◌, String, String-discrete, ℤ, pos, List, [], ◌∷◌, map, Option, none, some, Bool, true,
  false, All, length, Result, ok, raise, ◌≡◌, ◌≢◌, refl, arith,
}
use ai_vision_inspection.Base.Dict
use ai_vision_inspection.Base
use ai_vision_inspection.Vision.Png.{
  Bytes, mono8_png, nothing_seen, scan, stuck, validate_canonical_png, take, drop, absorb,
  next_chunk, read_chunk, any_bad_filter, validate_scanlines, validate_image_data,
}
use ai_vision_inspection.Vision.Png.Fuel.{scan_ends}
use ai_vision_inspection.Vision.Png.Writer.{
  scanlines, write_mono8_png_atomic, chunk, header_data, pack32, png_of,
}
use ai_vision_inspection.Vision.Png.RoundTrip.{written_png_is_valid}
use ai_vision_inspection.Vision.Capture.{
  ImageArtifact, CaptureBatch, no_duplicates, all_in, is_absolute, validate_content,
  validate_image_artifact, validate_images, validate,
}
use ai_vision_inspection.Vision.Capture.Accepted.{IsStored, accepted_batch}

-- A CRC, a compression and a digest that can stand for those of the libraries.
abbrev sum : Bytes → ℕ
sum bytes = length bytes

abbrev stored : ℕ → Bytes → Bytes
stored level bytes = bytes

abbrev opened : Bytes → Option Bytes
opened bytes = some bytes

abbrev digest : Bytes → String
digest bytes = "0123456789abcdef0123456789abcdef0123456789abcdef0123456789abcdef"

abbrev pixels : Bytes
pixels = 1 ∷ 2 ∷ 3 ∷ 4 ∷ 5 ∷ 6 ∷ []

-- The file of the image.
abbrev file : Bytes
file =
    137 ∷ 80 ∷ 78 ∷ 71 ∷ 13 ∷ 10 ∷ 26 ∷ 10 ∷ 0 ∷ 0 ∷ 0 ∷ 13 ∷ 73 ∷ 72 ∷ 68 ∷ 82 ∷ 0 ∷ 0 ∷ 0 ∷ 3 ∷ 0
    ∷ 0 ∷ 0 ∷ 2 ∷ 8 ∷ 0 ∷ 0 ∷ 0 ∷ 0 ∷ 0 ∷ 0 ∷ 0 ∷ 17 ∷ 0 ∷ 0 ∷ 0 ∷ 8 ∷ 73 ∷ 68 ∷ 65 ∷ 84 ∷ 0 ∷ 1 ∷ 2
    ∷ 3 ∷ 0 ∷ 4 ∷ 5 ∷ 6 ∷ 0 ∷ 0 ∷ 0 ∷ 12 ∷ 0 ∷ 0 ∷ 0 ∷ 0 ∷ 73 ∷ 69 ∷ 78 ∷ 68 ∷ 0 ∷ 0 ∷ 0 ∷ 4 ∷ []

file_is_written :
    (write_mono8_png_atomic sum stored digest [] "/i.png" pixels 3 2 3 true).0
    ≡ ("/i.png", file) ∷ []
unfolding write_mono8_png_atomic png_of chunk header_data pack32 scanlines take drop Dict.get
    Dict.put
file_is_written = refl

scan_ends_example : scan sum 65 nothing_seen file ≢ stuck
scan_ends_example = scan_ends sum 65 nothing_seen file (omega arith)

fits_in_32_bits : length (scanlines 2 3 pixels) < 4294967296
unfolding scanlines take drop
fits_in_32_bits = omega arith

written_png_is_valid_example :
    (content : Bytes) × (Dict.get String-discrete "/i.png"
        (write_mono8_png_atomic sum stored digest [] "/i.png" pixels 3 2 3 true).0
      ≡ some content)
    × ((write_mono8_png_atomic sum stored digest [] "/i.png" pixels 3 2 3 true).1
        ≡ ok (digest content, length content))
    × (validate_canonical_png sum opened content 3 2 mono8_png ≡ ok tt)
unfolding Dict.get
written_png_is_valid_example =
    written_png_is_valid sum stored opened (λ level bytes. refl) digest [] "/i.png" pixels 3 2 3
      (omega arith) (omega arith) refl (omega arith) refl (omega arith) (omega arith)
      fits_in_32_bits

abbrev image : ImageArtifact
image = record {
  camera_id = "b1";
  file_path = "/i.png";
  sha256 = digest [];
  file_size_bytes = 65;
  width = 3;
  height = 2;
  pixel_format = mono8_png;
  host_arrival_monotonic_ns = 5;
  packet_loss_count = pos 0;
  packet_resend_count = pos 1;
}

abbrev batch : CaptureBatch
batch = record {
  product_id = "p";
  station_id = 2;
  capture_id = "c";
  frame_batch_id = "f";
  attempt = 1;
  trigger_requested_monotonic_ns = 3;
  trigger_returned_monotonic_ns = 4;
  trigger_requested_wall_time_ns = 3;
  trigger_returned_wall_time_ns = 4;
  images = image ∷ [];
}

abbrev files : List (String × Bytes)
files = ("/i.png", file) ∷ []

batch_is_valid : validate sum opened digest files batch ("b1" ∷ []) (some mono8_png) ≡ ok tt
unfolding validate validate_images validate_image_artifact validate_content is_absolute
    no_duplicates all_in validate_canonical_png scan read_chunk next_chunk absorb
    validate_image_data validate_scanlines any_bad_filter take drop Dict.get String-discrete
    Base.contains Base.nat_list_eq
batch_is_valid = refl

accepted_batch_example :
    All (IsStored sum opened digest files) batch.images
    × (no_duplicates (map (λ i. i.camera_id) batch.images) ≡ true)
    × (all_in (map (λ i. i.camera_id) batch.images) ("b1" ∷ []) ≡ true)
    × (all_in ("b1" ∷ []) (map (λ i. i.camera_id) batch.images) ≡ true)
    × (0 < length batch.images)
    × (batch.trigger_requested_monotonic_ns ≤ batch.trigger_returned_monotonic_ns)
accepted_batch_example =
    accepted_batch sum opened digest files batch ("b1" ∷ []) (some mono8_png) batch_is_valid
