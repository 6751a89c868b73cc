-- ===== src/Vision/Queue/Valid.antt =====
-- inference_queue.py: the invariant of the waiting jobs, call by call.

use ai_vision_inspection.Base.{
  ℕ, suc, ◌≤◌, String, String-discrete, Bool, true, false, ◌||◌, not, equals, if◌then◌else◌, Option,
  none, some, List, [], ◌∷◌, length, contains, All, ◌⊎◌, inl, inr, ◌≡◌, refl, arith, ◌∙◌, subst,
  sym,
}
use ai_vision_inspection.Vision.Queue.{
  InferenceJob, InferenceQueue, Scope, insert, has_scope, scope, canceled, is_job_canceled, stamped,
  try_enqueue, filter, has_id_of, remove, get, in_scope, cancel_scope, lock_product,
}
use ai_vision_inspection.Vision.Queue.Order.{
  Sorted, All-map, insert-All, insert-Sorted, filter-All, filter-Sorted, length-filter-le,
  length-insert,
}

-- The waiting jobs are in order, no more than the capacity, and none of them is cancelled.
pub record IsValid (q : InferenceQueue) : Type 0 where
  pub sorted : Sorted q.items
  pub bounded : length q.items ≤ q.capacity
  pub live : All (λ j. is_job_canceled q j ≡ false) q.items

stamped-canceled :
    (locked : List String) (scopes : List Scope) (j : InferenceJob) (now : ℕ)
    → canceled locked scopes (stamped now j) ≡ canceled locked scopes j
unfolding canceled
stamped-canceled locked scopes j now = ground arith

insert-IsValid :
    (q : InferenceQueue) (j : InferenceJob)
    → is_job_canceled q j ≡ false
    → suc (length q.items) ≤ q.capacity
    → IsValid q
    → IsValid (record q { items = insert j q.items })
insert-IsValid q j c n v = record {
  sorted = insert-Sorted j q.items v.sorted;
  bounded = ground (arith, n, length-insert j q.items);
  live = insert-All (λ k. is_job_canceled q k ≡ false) j q.items c v.live;
}

try_enqueue-cases :
    (q : InferenceQueue) (j : InferenceJob) (now : ℕ)
    → ((try_enqueue q j now).0 ≡ q)
      ⊎ ((is_job_canceled q j ≡ false)
          × (suc (length q.items) ≤ q.capacity)
          × ((try_enqueue q j now).0 ≡ record q { items = insert (stamped now j) q.items }))
unfolding try_enqueue
try_enqueue-cases q j now = ground arith

pub try_enqueue-IsValid :
    (q : InferenceQueue) (j : InferenceJob) (now : ℕ) → IsValid q → IsValid (try_enqueue q j now).0
try_enqueue-IsValid q j now v = elim (try_enqueue-cases q j now) [
  | inl e ↦ subst IsValid (sym e) v
  | inr (c, n, e) ↦ subst IsValid (sym e) (
      insert-IsValid q (stamped now j)
        (stamped-canceled q.locked_products q.canceled_scopes j now ∙ c) n v)
]

-- A job that the test selects has the id of a selected one.
abbrev pub IsCaught : (InferenceJob → Bool) → List InferenceJob → InferenceJob → Type 0
IsCaught p rs j = (not (p j) || has_id_of rs j) ≡ true

equals_refl : (s : String) → equals String-discrete s s ≡ true
equals_refl s = ground arith

IsCaught-cons :
    (p : InferenceJob → Bool) (rs : List InferenceJob) (j k : InferenceJob)
    → IsCaught p rs k
    → IsCaught p (j ∷ rs) k
unfolding has_id_of
IsCaught-cons p rs j k h = ground arith

All-IsCaught :
    (p : InferenceJob → Bool) (j : InferenceJob) (rs js : List InferenceJob) (b : Bool)
    → p j ≡ b
    → All (IsCaught p rs) js
    → All (IsCaught p (if b then j ∷ rs else rs)) (j ∷ js)
unfolding has_id_of
All-IsCaught p j rs js true e h =
    (ground (arith, equals_refl j.inference_job_id), All-map js (IsCaught-cons p rs j) h)
All-IsCaught p j rs js false e h = (ground arith, h)

pub filter-IsCaught :
    (p : InferenceJob → Bool) (js : List InferenceJob) → All (IsCaught p (filter p js)) js
unfolding filter
filter-IsCaught p [] = tt
filter-IsCaught p (j ∷ js) = All-IsCaught p j (filter p js) js (p j) refl (filter-IsCaught p js)

-- `remove` of the jobs that the test selects leaves only jobs that it does not select.
pub kept-All :
    (p : InferenceJob → Bool) (rs js : List InferenceJob)
    → All (IsCaught p rs) js
    → All (λ j. p j ≡ false) (filter (λ j. not (has_id_of rs j)) js)
unfolding filter
kept-All p rs [] h = tt
kept-All p rs (j ∷ js) h = ground (arith, kept-All p rs js h.1)

pub selected-All :
    (p : InferenceJob → Bool) (js : List InferenceJob) → All (λ j. p j ≡ true) (filter p js)
unfolding filter
selected-All p [] = tt
selected-All p (j ∷ js) = ground (arith, selected-All p js)

All-both :
    {P Q R : InferenceJob → Type 0} (js : List InferenceJob)
    → ((j : InferenceJob) → P j → Q j → R j)
    → All P js
    → All Q js
    → All R js
All-both [] f h k = tt
All-both (j ∷ js) f h k = (f j h.0 k.0, All-both js f h.1 k.1)

scoped-canceled :
    (locked : List String) (scopes : List Scope) (product_id : String) (station_id : Option ℕ)
    (j : InferenceJob)
    → canceled locked scopes j ≡ false
    → in_scope product_id station_id j ≡ false
    → canceled locked (scope product_id station_id ∷ scopes) j ≡ false
unfolding canceled in_scope has_scope
scoped-canceled locked scopes product_id none j h k = ground arith
scoped-canceled locked scopes product_id (some s) j h k = ground arith

locked-canceled :
    (locked : List String) (scopes : List Scope) (product_id : String) (j : InferenceJob)
    → canceled locked scopes j ≡ false
    → not (equals String-discrete j.product_id product_id) ≡ true
    → canceled (product_id ∷ locked) (scope product_id none ∷ scopes) j ≡ false
unfolding canceled has_scope contains
locked-canceled locked scopes product_id j h k = ground arith

pub remove-IsValid :
    (q : InferenceQueue) (js : List InferenceJob) → IsValid q → IsValid (remove q js).0
unfolding remove
remove-IsValid q js v = record {
  sorted = filter-Sorted _ q.items v.sorted;
  bounded = ground (arith, v.bounded, length-filter-le (λ j. not (has_id_of js j)) q.items);
  live = filter-All (λ k. is_job_canceled q k ≡ false) _ q.items v.live;
}

abbrev pub taken : InferenceQueue → Option (InferenceQueue × Option InferenceJob) → InferenceQueue
taken q none = q
taken q (some (q', j)) = q'

pub cancel_scope-IsValid :
    (q : InferenceQueue) (product_id : String) (station_id : Option ℕ)
    → IsValid q
    → IsValid (cancel_scope q product_id station_id).0
unfolding cancel_scope remove
cancel_scope-IsValid q product_id station_id v = record {
  sorted = filter-Sorted _ q.items v.sorted;
  bounded = ground (
    arith,
    v.bounded,
    length-filter-le (λ j. not (has_id_of (filter (in_scope product_id station_id) q.items) j))
        q.items,
  );
  live =
      All-both _ (scoped-canceled q.locked_products q.canceled_scopes product_id station_id)
        (filter-All (λ k. is_job_canceled q k ≡ false) _ q.items v.live)
        (kept-All (in_scope product_id station_id) _ q.items (filter-IsCaught _ q.items));
}

pub lock_product-IsValid :
    (q : InferenceQueue) (product_id : String) → IsValid q → IsValid (lock_product q product_id).0
unfolding lock_product
lock_product-IsValid q product_id v = record {
  sorted = filter-Sorted _ q.items v.sorted;
  bounded = ground (
    arith,
    v.bounded,
    length-filter-le (λ j. not (equals String-discrete j.product_id product_id)) q.items,
  );
  live =
      All-both _ (locked-canceled q.locked_products q.canceled_scopes product_id)
        (filter-All (λ k. is_job_canceled q k ≡ false) _ q.items v.live)
        (selected-All (λ j. not (equals String-discrete j.product_id product_id)) q.items);
}

tail-IsValid :
    (q : InferenceQueue) (j : InferenceJob) (js : List InferenceJob)
    → q.items ≡ j ∷ js
    → IsValid q
    → IsValid (record q { items = js })
tail-IsValid q j js e v = record {
  sorted = (subst Sorted e v.sorted).1;
  bounded = ground (arith, e, v.bounded);
  live = (subst (All (λ k. is_job_canceled q k ≡ false)) e v.live).1;
}

-- What `get` returns of a queue with this flag and these jobs.
abbrev pub served :
    InferenceQueue → Bool → List InferenceJob → Option (InferenceQueue × Option InferenceJob)
served q closed items =
    if closed
    then some (q, none)
    else elim items [ [] ↦ none | j ∷ js ↦ some (record q { items = js }, some j) ]

taken-IsValid :
    (q : InferenceQueue) (closed : Bool) (items : List InferenceJob)
    → q.items ≡ items
    → IsValid q
    → IsValid (taken q (served q closed items))
taken-IsValid q true items e v = v
taken-IsValid q false [] e v = v
taken-IsValid q false (j ∷ js) e v = tail-IsValid q j js e v

pub take-IsValid : (q : InferenceQueue) → IsValid q → IsValid (taken q (get q))
unfolding get
take-IsValid q v = taken-IsValid q q.closed q.items refl v
