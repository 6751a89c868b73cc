-- ===== src/Vision/Worker/Terminal.antt =====
-- inference_queue.py: how a job of a worker ends.

use ai_vision_inspection.Base.{
  ℕ, ◌+◌, String, false, List, [], ◌∷◌, Result, ok, raise, ◌≡◌, refl, arith, In,
}
use ai_vision_inspection.Vision.Queue.{InferenceJob, expired}
use ai_vision_inspection.Vision.Worker.{
  LoadError, ModelError, Raised, Callback, on_timing, on_success, Observed, load_images, concluded,
  after_load, execute_job, deadline_exceeded, failed,
}

module _ {R : Type 0} where
  -- The callbacks that end a job.
  abbrev pub endings : List (Callback R) → ℕ
  endings [] = 0
  endings (on_timing ∷ cs) = endings cs
  endings (_ ∷ cs) = 1 + endings cs

module _ {L R : Type 0} (load_image load_again : String → Result LoadError L)
    (infer : List L → Result ModelError R) where
  after_load-once :
      (o : Observed) (j : InferenceJob) (loaded : Result (Raised LoadError) (List L))
      → endings (after_load load_image load_again infer o j loaded) ≡ 1
  unfolding after_load concluded
  after_load-once o j (raise deadline_exceeded) = refl
  after_load-once o j (raise (failed e)) = refl
  after_load-once o j (ok loaded) = ground arith

  -- Each job that a worker takes ends exactly once: with one cancellation, one failure or one
  -- success.
  pub execute_job-once :
      (o : Observed) (j : InferenceJob) → endings (execute_job load_image load_again infer o j) ≡ 1
  unfolding execute_job
  execute_job-once o j =
      ground
        (arith, after_load-once o j (load_images load_image load_again infer o j j.image_paths))

  -- The job was live at every test, its images were read, and the model made this of them.
  pub record IsEarned (o : Observed) (j : InferenceJob) (result : R) : Type 0 where
    pub not_canceled :
        (o.canceled_before_load ≡ false)
        × (o.canceled_after_load ≡ false)
        × (o.canceled_at_end ≡ false)
    pub not_expired :
        (expired j o.now_before_load ≡ false)
        × (expired j o.now_after_load ≡ false)
        × (expired j o.now_after_forward ≡ false)
        × (expired j o.now_at_end ≡ false)
    pub made :
        (loaded : List L) × (load_images load_image load_again infer o j j.image_paths ≡ ok loaded)
        × (infer loaded ≡ ok result)

  concluded-earned :
      (o : Observed) (j : InferenceJob) (result : R) (answer : Result ModelError R)
      → In (on_success result) (concluded load_image load_again infer o j answer)
      → (answer ≡ ok result)
        × (o.canceled_at_end ≡ false)
        × (expired j o.now_after_forward ≡ false)
        × (expired j o.now_at_end ≡ false)
  unfolding concluded
  concluded-earned o j result (raise e) h = ground arith
  concluded-earned o j result (ok r) h = ground arith

  after_load-live :
      (o : Observed) (j : InferenceJob) (result : R) (xs : List L)
      → In (on_success result) (after_load load_image load_again infer o j (ok xs))
      → (o.canceled_after_load ≡ false)
        × (expired j o.now_after_load ≡ false)
        × In (on_success result) (concluded load_image load_again infer o j (infer xs))
  unfolding after_load
  after_load-live o j result xs h = ground arith

  after_load-raised :
      (o : Observed) (j : InferenceJob) (result : R) (e : Raised LoadError)
      → In (on_success result) (after_load load_image load_again infer o j (raise e))
      → ⊥
  unfolding after_load
  after_load-raised o j result deadline_exceeded h = ground arith
  after_load-raised o j result (failed e) h = ground arith

  execute_job-live :
      (o : Observed) (j : InferenceJob) (result : R)
      → In (on_success result) (execute_job load_image load_again infer o j)
      → (o.canceled_before_load ≡ false)
        × (expired j o.now_before_load ≡ false)
        × In (on_success result) (
            after_load load_image load_again infer o j
              (load_images load_image load_again infer o j j.image_paths))
  unfolding execute_job
  execute_job-live o j result h = ground arith

  earned :
      (o : Observed) (j : InferenceJob) (result : R) (r : Result (Raised LoadError) (List L))
      → load_images load_image load_again infer o j j.image_paths ≡ r
      → (o.canceled_before_load ≡ false) × (expired j o.now_before_load ≡ false)
      → In (on_success result) (after_load load_image load_again infer o j r)
      → IsEarned o j result
  earned o j result (raise e) k b h = absurd (after_load-raised o j result e h)
  earned o j result (ok xs) k b h =
      let l = after_load-live o j result xs h in
      let c = concluded-earned o j result (infer xs) l.2 in
      record {
        not_canceled = (b.0, l.0, c.1);
        not_expired = (b.1, l.1, c.2, c.3);
        made = (xs, k, c.0);
      }

  -- A job ends in a result only if it was neither cancelled nor expired at any of the worker's
  -- tests, its images were all read, and the result is the model's answer to them.
  pub execute_job-IsEarned :
      (o : Observed) (j : InferenceJob) (result : R)
      → In (on_success result) (execute_job load_image load_again infer o j)
      → IsEarned o j result
  execute_job-IsEarned o j result h =
      let l = execute_job-live o j result h in earned o j result _ refl (l.0, l.1) l.2
