-- ===== src/Vision/Worker.antt =====
-- inference_queue.py: how a worker of the pool carries out one job. Reading an image and the model
-- are parameters, as are the clock's readings and the cancellations that the worker sees on its way;
-- the text of a failure's reason is left out.

use ai_vision_inspection.Base.{
  ℕ, String, Bool, true, false, if◌then◌else◌, List, [], ◌∷◌, Result, ok, raise,
}
use ai_vision_inspection.Vision.Queue.{InferenceJob, expired}
pub mod Terminal

-- InferenceFailureKind
pub data FailureKind : Type 0 where
  timeout file_read preprocessing model cuda_oom : FailureKind

-- What reading an image raises: an error with `is_preprocessing_failure`, or another one.
pub data LoadError : Type 0 where
  preprocessing_failure other_failure : LoadError

-- What the model raises: an error of the kind "out of memory", or another one.
pub data ModelError : Type 0 where
  out_of_memory other_error : ModelError

-- What leaves the loading of a job's images: InferenceDeadlineExceeded or the image's error.
pub data Raised (E : Type 0) : Type 0 where
  deadline_exceeded : Raised E
  failed : E → Raised E

-- The stage at which a cancellation is reported.
pub data Stage : Type 0 where
  dequeued_before_load loaded_before_forward discarded_after_forward : Stage

-- A call of one of the pool's callbacks for a job.
pub data Callback (R : Type 0) : Type 0 where
  on_canceled : Stage → Callback R
  on_failure : FailureKind → Callback R
  on_timing : Callback R
  on_success : R → Callback R

-- What the worker sees while it carries out the job: is_job_canceled at its three tests, and the
-- clock at each test of the deadline.
pub record Observed : Type 0 where
  pub canceled_before_load : Bool
  pub now_before_load : ℕ
  -- the clock at the test between the two attempts to read an image
  pub now_at_retry : String → ℕ
  pub canceled_after_load : Bool
  pub now_after_load : ℕ
  -- the clock at the end of `_infer_once`
  pub now_after_forward : ℕ
  pub canceled_at_end : Bool
  pub now_at_end : ℕ

module _ {L R : Type 0} (load_image load_again : String → Result LoadError L)
    (infer : List L → Result ModelError R) where
  unfoldable pub second : Result LoadError L → Result (Raised LoadError) L
  second (ok x) = ok x
  second (raise e) = raise (failed e)

  unfoldable pub retried : Bool → String → Result LoadError L → Result (Raised LoadError) L
  retried late path (ok x) = ok x
  retried late path (raise preprocessing_failure) = raise (failed preprocessing_failure)
  retried late path (raise other_failure) =
      if late then raise deadline_exceeded else second (load_again path)

  -- The first attempt is `load_image path`, the second one `load_again path`.
  unfoldable pub load_with_one_retry :
      Observed → InferenceJob → String → Result (Raised LoadError) L
  unfolding retried second
  load_with_one_retry o j path = retried (expired j (o.now_at_retry path)) path (load_image path)

  unfoldable pub joined :
      Result (Raised LoadError) L
      → Result (Raised LoadError) (List L)
      → Result (Raised LoadError) (List L)
  joined (raise e) xs = raise e
  joined (ok x) (raise e) = raise e
  joined (ok x) (ok xs) = ok (x ∷ xs)

  -- The images in the order of their paths, or the error of the first one that fails.
  unfoldable pub load_images :
      Observed → InferenceJob → List String → Result (Raised LoadError) (List L)
  unfolding load_with_one_retry joined
  load_images o j [] = ok []
  load_images o j (path ∷ paths) = joined (load_with_one_retry o j path) (load_images o j paths)

  unfoldable pub load_kind : LoadError → FailureKind
  load_kind preprocessing_failure = preprocessing
  load_kind other_failure = file_read

  unfoldable pub model_kind : ModelError → FailureKind
  model_kind out_of_memory = cuda_oom
  model_kind other_error = model

  -- After the forward: `_infer_once` raises when the job has expired by then.
  unfoldable pub concluded : Observed → InferenceJob → Result ModelError R → List (Callback R)
  unfolding model_kind
  concluded o j (raise e) = on_failure (model_kind e) ∷ []
  concluded o j (ok result) =
      if expired j o.now_after_forward
      then on_failure timeout ∷ []
      else on_timing
        ∷ (if o.canceled_at_end
            then on_canceled discarded_after_forward ∷ []
            else if expired j o.now_at_end
            then on_failure timeout ∷ []
            else on_success result ∷ [])

  unfoldable pub after_load :
      Observed → InferenceJob → Result (Raised LoadError) (List L) → List (Callback R)
  unfolding load_kind concluded
  after_load o j (raise deadline_exceeded) = on_failure timeout ∷ []
  after_load o j (raise (failed e)) = on_failure (load_kind e) ∷ []
  after_load o j (ok loaded) =
      if o.canceled_after_load
      then on_canceled loaded_before_forward ∷ []
      else if expired j o.now_after_load
      then on_failure timeout ∷ []
      else concluded o j (infer loaded)

  -- The callbacks that the job leads to, in order.
  unfoldable pub execute_job : Observed → InferenceJob → List (Callback R)
  unfolding after_load load_images
  execute_job o j =
      if o.canceled_before_load
      then on_canceled dequeued_before_load ∷ []
      else if expired j o.now_before_load
      then on_failure timeout ∷ []
      else after_load o j (load_images o j j.image_paths)
