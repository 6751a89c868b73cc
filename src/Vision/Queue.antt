-- ===== src/Vision/Queue.antt =====
-- inference_queue.py: the queue of the inference jobs. Each method runs under one lock, so it is one
-- step. The clock's reading is an argument.

use ai_vision_inspection.Base.{
  ℕ, ◌+◌, ◌-◌, ◌*◌, String, String-discrete, ℕ_discrete, Bool, true, false, ◌&&◌, ◌||◌, not, equals,
  ltb, leb, nat_eq, if◌then◌else◌, Option, none, some, List, [], ◌∷◌, length, contains, All,
}
pub mod Order
pub mod Valid
pub mod Waiting

pub record InferenceJob : Type 0 where
  pub inference_job_id : String
  pub product_id : String
  pub fifo_sequence : ℕ
  pub station_id : ℕ
  pub capture_id : String
  pub frame_batch_id : String
  pub image_paths : List String
  pub enqueued_monotonic_ns : ℕ
  pub queue_total_timeout_ms : Option ℕ
  pub camera_ids : List String
  pub capture_completed_monotonic_ns : ℕ

-- `now - enqueued > timeout * 1_000_000`, without the subtraction.
unfoldable pub overdue : Option ℕ → ℕ → ℕ → Bool
overdue none enqueued now = false
overdue (some timeout) enqueued now = ltb (enqueued + timeout * 1000000) now

unfoldable pub expired : InferenceJob → ℕ → Bool
unfolding overdue
expired j now = overdue j.queue_total_timeout_ms j.enqueued_monotonic_ns now

-- A scope of a cancellation: a product, and a station or all its stations.
pub record Scope : Type 0 where
  pub product_id : String
  pub station_id : Option ℕ

pub record InferenceQueue : Type 0 where
  pub capacity : ℕ
  pub items : List InferenceJob
  pub locked_products : List String
  pub canceled_scopes : List Scope
  pub closed : Bool

-- `InferenceQueue(capacity)`, which raises for a capacity below one.
unfoldable pub new_queue : ℕ → Option InferenceQueue
new_queue capacity =
    if ltb capacity 1
    then none
    else some (record {
      capacity = capacity;
      items = [];
      locked_products = [];
      canceled_scopes = [];
      closed = false;
    })

-- The order of the tuples (fifo_sequence, enqueued_monotonic_ns, station_id).
abbrev pub precedes : InferenceJob → InferenceJob → Bool
precedes a b =
    ltb a.fifo_sequence b.fifo_sequence
    || nat_eq a.fifo_sequence b.fifo_sequence
      && (ltb a.enqueued_monotonic_ns b.enqueued_monotonic_ns
          || nat_eq a.enqueued_monotonic_ns b.enqueued_monotonic_ns
            && ltb a.station_id b.station_id)

-- The job goes before the first one that it precedes.
unfoldable pub insert : InferenceJob → List InferenceJob → List InferenceJob
insert j [] = j ∷ []
insert j (q ∷ qs) = let rest = insert j qs in if precedes j q then j ∷ q ∷ qs else q ∷ rest

abbrev same_station : Option ℕ → Option ℕ → Bool
same_station none none = true
same_station (some s) (some t) = equals ℕ_discrete s t
same_station _ _ = false

abbrev pub scope : String → Option ℕ → Scope
scope product_id station_id = record { product_id = product_id; station_id = station_id }

-- `(product_id, station_id) in scopes`
unfoldable pub has_scope : String → Option ℕ → List Scope → Bool
has_scope product_id station_id [] = false
has_scope product_id station_id (s ∷ ss) =
    equals String-discrete s.product_id product_id && same_station s.station_id station_id
    || has_scope product_id station_id ss

-- `_job_canceled_unlocked`, on the two sets of the queue.
unfoldable pub canceled : List String → List Scope → InferenceJob → Bool
canceled locked scopes j =
    contains String-discrete j.product_id locked
    || has_scope j.product_id none scopes
    || has_scope j.product_id (some j.station_id) scopes

abbrev pub is_job_canceled : InferenceQueue → InferenceJob → Bool
is_job_canceled q j = canceled q.locked_products q.canceled_scopes j

-- A job without an enqueue time gets the clock's.
abbrev pub stamped : ℕ → InferenceJob → InferenceJob
stamped now j =
    if nat_eq j.enqueued_monotonic_ns 0 then record j { enqueued_monotonic_ns = now } else j

unfoldable pub try_enqueue : InferenceQueue → InferenceJob → ℕ → InferenceQueue × Bool
try_enqueue q j now =
    if q.closed || is_job_canceled q j
    then (q, false)
    else if leb q.capacity (length q.items)
    then (q, false)
    else (record q { items = insert (stamped now j) q.items }, true)

unfoldable pub filter : (InferenceJob → Bool) → List InferenceJob → List InferenceJob
filter p [] = []
filter p (j ∷ js) = let rest = filter p js in if p j then j ∷ rest else rest

-- Whether the job has the id of one of the jobs.
unfoldable pub has_id_of : List InferenceJob → InferenceJob → Bool
has_id_of [] j = false
has_id_of (k ∷ ks) j =
    equals String-discrete k.inference_job_id j.inference_job_id || has_id_of ks j

-- The queue without the jobs that have the id of one of the jobs, and these.
unfoldable pub remove : InferenceQueue → List InferenceJob → InferenceQueue × List InferenceJob
remove q removed = (record q { items = filter (λ j. not (has_id_of removed j)) q.items }, removed)

unfoldable pub discard_expired : InferenceQueue → ℕ → InferenceQueue × List InferenceJob
discard_expired q now = remove q (filter (λ j. expired j now) q.items)

-- `get` when it does not wait; none when it would wait.
unfoldable pub get : InferenceQueue → Option (InferenceQueue × Option InferenceJob)
get q =
    if q.closed
    then some (q, none)
    else elim q.items [ [] ↦ none | j ∷ js ↦ some (record q { items = js }, some j) ]

abbrev in_station : Option ℕ → ℕ → Bool
in_station none s = true
in_station (some t) s = equals ℕ_discrete s t

-- The job is in the scope.
unfoldable pub in_scope : String → Option ℕ → InferenceJob → Bool
in_scope product_id station_id j =
    equals String-discrete j.product_id product_id && in_station station_id j.station_id

unfoldable pub cancel_scope :
    InferenceQueue → String → Option ℕ → InferenceQueue × List InferenceJob
cancel_scope q product_id station_id =
    let q' = record q { canceled_scopes = scope product_id station_id ∷ q.canceled_scopes } in
    remove q' (filter (in_scope product_id station_id) q'.items)

unfoldable pub cancel_all_waiting : InferenceQueue → InferenceQueue × List InferenceJob
cancel_all_waiting q = (record q { items = [] }, q.items)

-- The queue and the number of jobs removed.
unfoldable pub lock_product : InferenceQueue → String → InferenceQueue × ℕ
lock_product q product_id =
    let kept = filter (λ j. not (equals String-discrete j.product_id product_id)) q.items in
    (
      record q {
        locked_products = product_id ∷ q.locked_products;
        canceled_scopes = scope product_id none ∷ q.canceled_scopes;
        items = kept;
      },
      length q.items - length kept,
    )

unfoldable pub close : InferenceQueue → InferenceQueue
close q = record q { closed = true }
