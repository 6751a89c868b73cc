-- ===== src/Vision/Queue/Waiting.antt =====
-- inference_queue.py: what holds of the waiting jobs over every sequence of calls.

use ai_vision_inspection.Base.{
  ℕ, String, Bool, true, false, Option, none, some, List, [], ◌∷◌, contains, All, ◌≡◌, arith, subst,
  sym,
}
use ai_vision_inspection.Vision.Queue.{
  InferenceJob, expired, InferenceQueue, precedes, has_scope, canceled, is_job_canceled,
  try_enqueue, remove, discard_expired, get, in_scope, cancel_scope, cancel_all_waiting,
  lock_product, close, new_queue,
}
use ai_vision_inspection.Vision.Queue.Order.{Sorted}
use ai_vision_inspection.Vision.Queue.Valid.{
  IsValid, try_enqueue-IsValid, filter-IsCaught, kept-All, selected-All, remove-IsValid, taken,
  cancel_scope-IsValid, lock_product-IsValid, served, take-IsValid,
}

-- The methods that change the queue, as a client calls them.
pub data Call : Type 0 where
  enqueue : InferenceJob → ℕ → Call
  discard : ℕ → Call
  take : Call
  cancel : String → Option ℕ → Call
  cancel_all : Call
  lock : String → Call
  shut : Call

unfoldable pub call : InferenceQueue → Call → InferenceQueue
call q (enqueue j now) = (try_enqueue q j now).0
call q (discard now) = (discard_expired q now).0
call q take = taken q (get q)
call q (cancel product_id station_id) = (cancel_scope q product_id station_id).0
call q cancel_all = (cancel_all_waiting q).0
call q (lock product_id) = (lock_product q product_id).0
call q shut = close q

unfoldable pub calls : InferenceQueue → List Call → InferenceQueue
calls q [] = q
calls q (c ∷ cs) = calls (call q c) cs

call-IsValid : (q : InferenceQueue) (c : Call) → IsValid q → IsValid (call q c)
unfolding call discard_expired get cancel_all_waiting close
call-IsValid q (enqueue j now) v = try_enqueue-IsValid q j now v
call-IsValid q (discard now) v = remove-IsValid q _ v
call-IsValid q take v = take-IsValid q v
call-IsValid q (cancel product_id station_id) v = cancel_scope-IsValid q product_id station_id v
call-IsValid q cancel_all v = record { sorted = tt; bounded = omega arith; live = tt }
call-IsValid q (lock product_id) v = lock_product-IsValid q product_id v
call-IsValid q shut v = record { sorted = v.sorted; bounded = v.bounded; live = v.live }

calls-IsValid : (q : InferenceQueue) (cs : List Call) → IsValid q → IsValid (calls q cs)
unfolding calls
calls-IsValid q [] v = v
calls-IsValid q (c ∷ cs) v = calls-IsValid (call q c) cs (call-IsValid q c v)

new_queue-items : (capacity : ℕ) (q : InferenceQueue) → new_queue capacity ≡ some q → q.items ≡ []
unfolding new_queue
new_queue-items capacity q h = ground arith

empty-IsValid : (q : InferenceQueue) → q.items ≡ [] → IsValid q
empty-IsValid q e = record {
  sorted = subst Sorted (sym e) tt;
  bounded = ground (arith, e);
  live = subst (All (λ k. is_job_canceled q k ≡ false)) (sym e) tt;
}

-- After every sequence of calls from an empty queue of a positive capacity, the waiting jobs are in
-- the order of their product, their time and their station, no more than the capacity, and none of
-- them is cancelled or of a locked product.
pub calls-Waiting :
    (capacity : ℕ) (q : InferenceQueue) (cs : List Call)
    → new_queue capacity ≡ some q
    → IsValid (calls q cs)
calls-Waiting capacity q cs h = calls-IsValid q cs (empty-IsValid q (new_queue-items capacity q h))

taken-keeps :
    (q : InferenceQueue) (closed : Bool) (items : List InferenceJob) (j : InferenceJob)
    → is_job_canceled q j ≡ true
    → is_job_canceled (taken q (served q closed items)) j ≡ true
taken-keeps q true items j h = h
taken-keeps q false [] j h = h
taken-keeps q false (k ∷ ks) j h = h

call-keeps :
    (q : InferenceQueue) (c : Call) (j : InferenceJob)
    → is_job_canceled q j ≡ true
    → is_job_canceled (call q c) j ≡ true
unfolding call try_enqueue discard_expired remove get cancel_scope cancel_all_waiting lock_product
    close canceled contains has_scope
call-keeps q (enqueue k now) j h = ground arith
call-keeps q (discard now) j h = h
call-keeps q take j h = taken-keeps q q.closed q.items j h
call-keeps q (cancel product_id station_id) j h = ground arith
call-keeps q cancel_all j h = h
call-keeps q (lock product_id) j h = ground arith
call-keeps q shut j h = h

call-keeps-all :
    (q : InferenceQueue) (cs : List Call) (j : InferenceJob)
    → is_job_canceled q j ≡ true
    → is_job_canceled (calls q cs) j ≡ true
unfolding calls
call-keeps-all q [] j h = h
call-keeps-all q (c ∷ cs) j h = call-keeps-all (call q c) cs j (call-keeps q c j h)

cancel_scope-cancels :
    (q : InferenceQueue) (product_id : String) (station_id : Option ℕ) (j : InferenceJob)
    → in_scope product_id station_id j ≡ true
    → is_job_canceled (cancel_scope q product_id station_id).0 j ≡ true
unfolding cancel_scope remove canceled has_scope in_scope
cancel_scope-cancels q product_id none j h = ground arith
cancel_scope-cancels q product_id (some s) j h = ground arith

-- After the cancellation of a scope, whatever is called in between, no job of the scope enters the
-- queue: the attempt is refused and changes nothing.
pub canceled_never_enters :
    (q : InferenceQueue) (product_id : String) (station_id : Option ℕ) (cs : List Call)
    (j : InferenceJob) (now : ℕ)
    → in_scope product_id station_id j ≡ true
    → try_enqueue (calls (cancel_scope q product_id station_id).0 cs) j now
      ≡ (calls (cancel_scope q product_id station_id).0 cs, false)
unfolding try_enqueue
canceled_never_enters q product_id station_id cs j now h = ground (
  arith,
  call-keeps-all (cancel_scope q product_id station_id).0 cs j
      (cancel_scope-cancels q product_id station_id j h),
)

-- The jobs that `discard_expired` returns have expired, and none that it leaves has.
discard_expired-splits :
    (q : InferenceQueue) (now : ℕ)
    → All (λ j. expired j now ≡ true) (discard_expired q now).1
      × All (λ j. expired j now ≡ false) (discard_expired q now).0.items
unfolding discard_expired remove
discard_expired-splits q now = (
  selected-All (λ j. expired j now) q.items,
  kept-All (λ j. expired j now) _ q.items (filter-IsCaught _ q.items),
)

abbrev First : Option (InferenceQueue × Option InferenceJob) → Type 0
First (some (q, some j)) = All (λ k. precedes k j ≡ false) q.items
First _ = Unit

served-First :
    (q : InferenceQueue) (closed : Bool) (items : List InferenceJob)
    → Sorted items
    → First (served q closed items)
served-First q true items v = tt
served-First q false [] v = tt
served-First q false (k ∷ ks) v = v.0

-- No job that still waits precedes the one that `get` returns from a valid queue.
get-first :
    (q q' : InferenceQueue) (j : InferenceJob)
    → IsValid q
    → get q ≡ some (q', some j)
    → All (λ k. precedes k j ≡ false) q'.items
unfolding get
get-first q q' j v h = subst First h (served-First q q.closed q.items v.sorted)
