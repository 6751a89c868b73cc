-- ===== src/Examples/Vision.antt =====
-- The queue of the vision node and its workers.
use ai_vision_inspection.Base.{
  contains, In, ℕ, String, String-discrete, List, [], ◌∷◌, some, none, true, false, ◌≡◌, refl, inl,
  inr, arith, ok, raise, Result,
}
use ai_vision_inspection.Vision.Queue.{
  InferenceJob, InferenceQueue, expired, new_queue, try_enqueue, get, in_scope, cancel_scope,
  has_scope, canceled,
}
use ai_vision_inspection.Vision.Queue.Valid.{IsValid}
use ai_vision_inspection.Vision.Queue.Waiting.{
  Call, enqueue, take, lock, calls, calls-Waiting, canceled_never_enters,
}
use ai_vision_inspection.Vision.Worker.{
  Observed, LoadError, ModelError, other_failure, on_success, execute_job, load_images,
}
use ai_vision_inspection.Vision.Worker.Terminal.{
  endings, IsEarned, execute_job-once, execute_job-IsEarned,
}

abbrev job : String → ℕ → ℕ → InferenceJob
job id sequence at = record {
  inference_job_id = id;
  product_id = id;
  fifo_sequence = sequence;
  station_id = 1;
  capture_id = "c";
  frame_batch_id = "f";
  image_paths = "/x" ∷ "/y" ∷ [];
  enqueued_monotonic_ns = at;
  queue_total_timeout_ms = some 1;
  camera_ids = [];
  capture_completed_monotonic_ns = 0;
}

abbrev empty : InferenceQueue
empty = record {
  capacity = 2;
  items = [];
  locked_products = [];
  canceled_scopes = [];
  closed = false;
}

empty-new : new_queue 2 ≡ some empty
unfolding new_queue
empty-new = refl

abbrev client : List Call
client =
    enqueue (job "Q" 2 5) 0
    ∷ enqueue (job "P" 1 6) 0
    ∷ enqueue (job "R" 3 7) 0
    ∷ lock "Q"
    ∷ enqueue (job "Q" 2 8) 0
    ∷ take
    ∷ []

calls-Waiting_example : IsValid (calls empty client)
calls-Waiting_example = calls-Waiting 2 empty client empty-new

P_in_scope : in_scope "P" none (job "P" 1 6) ≡ true
unfolding in_scope String-discrete
P_in_scope = refl

canceled_never_enters_example :
    try_enqueue (calls (cancel_scope empty "P" none).0 client) (job "P" 1 6) 0
    ≡ (calls (cancel_scope empty "P" none).0 client, false)
canceled_never_enters_example =
    canceled_never_enters empty "P" none client (job "P" 1 6) 0 P_in_scope

abbrev two : InferenceQueue
two = record empty { items = job "P" 1 6 ∷ job "Q" 2 5 ∷ [] }

two-IsValid : IsValid two
unfolding canceled has_scope contains
two-IsValid = record {
  sorted = ((refl, tt), (tt, tt));
  bounded = omega arith;
  live = (refl, (refl, tt));
}

two-get : get two ≡ some (record empty { items = job "Q" 2 5 ∷ [] }, some (job "P" 1 6))
unfolding get
two-get = refl

-- The worker's view of a run without a cancellation.
abbrev quiet : Observed
quiet = record {
  canceled_before_load = false;
  now_before_load = 7;
  now_at_retry = λ path. 7;
  canceled_after_load = false;
  now_after_load = 8;
  now_after_forward = 9;
  canceled_at_end = false;
  now_at_end = 10;
}

-- The first attempt to read an image fails, the second one gives its path; the model answers with
-- the images.
abbrev fails : String → Result LoadError String
fails path = raise other_failure

abbrev reads : String → Result LoadError String
reads path = ok path

abbrev answers : List String → Result ModelError (List String)
answers xs = ok xs

execute_job-once_example : endings (execute_job fails reads answers quiet (job "P" 1 6)) ≡ 1
execute_job-once_example = execute_job-once fails reads answers quiet (job "P" 1 6)

succeeds : In (on_success ("/x" ∷ "/y" ∷ [])) (execute_job fails reads answers quiet (job "P" 1 6))
unfolding execute_job load_images expired
succeeds = inr (inl refl)

execute_job-IsEarned_example : IsEarned fails reads answers quiet (job "P" 1 6) ("/x" ∷ "/y" ∷ [])
execute_job-IsEarned_example =
    execute_job-IsEarned fails reads answers quiet (job "P" 1 6) ("/x" ∷ "/y" ∷ []) succeeds
