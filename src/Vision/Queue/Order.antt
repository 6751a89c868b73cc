-- ===== src/Vision/Queue/Order.antt =====
-- inference_queue.py: the order of the waiting jobs.

use ai_vision_inspection.Base.{
  suc, ◌≤◌, Bool, true, false, List, [], ◌∷◌, length, All, Bool-cases, inl, inr, ◌≡◌, refl, arith,
}
use ai_vision_inspection.Vision.Queue.{InferenceJob, precedes, insert, filter}

-- No later job precedes an earlier one.
abbrev pub Sorted : List InferenceJob → Type 0
Sorted [] = Unit
Sorted (j ∷ js) = All (λ k. precedes k j ≡ false) js × Sorted js

pub All-map :
    {P Q : InferenceJob → Type 0} (js : List InferenceJob)
    → ((j : InferenceJob) → P j → Q j)
    → All P js
    → All Q js
All-map [] f h = tt
All-map (j ∷ js) f h = (f j h.0, All-map js f h.1)

pub insert-All :
    (P : InferenceJob → Type 0) (j : InferenceJob) (js : List InferenceJob)
    → P j
    → All P js
    → All P (insert j js)
unfolding insert
insert-All P j [] p h = (p, tt)
insert-All P j (k ∷ ks) p h = ground (arith, insert-All P j ks p h.1)

precedes-asym : (j k : InferenceJob) → precedes j k ≡ true → precedes k j ≡ false
precedes-asym j k h = ground arith

precedes_trans :
    (j k l : InferenceJob) → precedes j k ≡ true → precedes l k ≡ false → precedes l j ≡ false
precedes_trans j k l h n = ground arith

pub insert-Sorted : (j : InferenceJob) (js : List InferenceJob) → Sorted js → Sorted (insert j js)
unfolding insert
insert-Sorted j [] h = (tt, tt)
insert-Sorted j (k ∷ ks) h = elim (Bool-cases (precedes j k)) [
  | inl e ↦ rw e ((precedes-asym j k e, All-map ks (λ l. precedes_trans j k l e) h.0), h)
  | inr e ↦ rw e (insert-All (λ l. precedes l k ≡ false) j ks e h.0, insert-Sorted j ks h.1)
]

pub filter-All :
    (P : InferenceJob → Type 0) (p : InferenceJob → Bool) (js : List InferenceJob)
    → All P js
    → All P (filter p js)
unfolding filter
filter-All P p [] h = tt
filter-All P p (j ∷ js) h = ground (arith, filter-All P p js h.1)

pub filter-Sorted :
    (p : InferenceJob → Bool) (js : List InferenceJob) → Sorted js → Sorted (filter p js)
unfolding filter
filter-Sorted p [] h = tt
filter-Sorted p (j ∷ js) h =
    ground (arith, filter-Sorted p js h.1, filter-All (λ k. precedes k j ≡ false) p js h.0)

pub length-filter-le :
    (p : InferenceJob → Bool) (js : List InferenceJob) → length (filter p js) ≤ length js
unfolding filter
length-filter-le p [] = omega arith
length-filter-le p (j ∷ js) = ground (arith, length-filter-le p js)

pub length-insert :
    (j : InferenceJob) (js : List InferenceJob) → length (insert j js) ≡ suc (length js)
unfolding insert
length-insert j [] = refl
length-insert j (k ∷ ks) = ground (arith, length-insert j ks)
