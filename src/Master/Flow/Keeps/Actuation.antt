-- ===== src/Master/Flow/Keeps/Actuation.antt =====
-- master_node.py: the ledger after the handlers of an actuation.
use ai_vision_inspection.Base.{
  ℕ, String, List, [], ◌∷◌, Option, some, ◌≡◌, refl, arith, Option-cases, inl, inr,
}
use ai_vision_inspection.Master.Product.{ProductContext, LockedProduct}
use ai_vision_inspection.Master.Ledger.{Ledger}
use ai_vision_inspection.Master.Flow.{FlowNode, set_ledger, ActuationCycle}
use ai_vision_inspection.Master.Flow.Keeps.{IsKept, update-kept, faulted-kept, device_paused-kept}
use ai_vision_inspection.Master.Ledger.Calls.{call}
use ai_vision_inspection.Master.Ledger.Removal.{remove_completed_prefix}
use ai_vision_inspection.Master.Flow.Station.{Sending}
use ai_vision_inspection.Master.Flow.Capture.{GoalResponse}
use ai_vision_inspection.Master.Flow.Actuation.{
  emit_locked, accept_locked, send_job, send_actuation_goal, schedule_actuation, job_accepted,
  handle_actuation_goal_response, ActuationResult, pop_jobs, remove_completed_fifo_prefix,
  complete_job, job_finished, handle_actuation_result,
}

emit_locked-master : (ls : List LockedProduct) (n : FlowNode) → (emit_locked n ls).master ≡ n.master
unfolding emit_locked
emit_locked-master [] n = refl
emit_locked-master (l ∷ ls) n = emit_locked-master ls _

pop_jobs-master : (cs : List ProductContext) (n : FlowNode) → (pop_jobs n cs).master ≡ n.master
unfolding pop_jobs
pop_jobs-master [] n = refl
pop_jobs-master (c ∷ cs) n = pop_jobs-master cs _

module _ (P : Ledger → Type 0) (k : IsKept P) where
  prefix-kept :
      (l l' : Ledger) (removed : List ProductContext) (now : ℕ)
      → remove_completed_prefix l now ≡ some (l', removed)
      → P l
      → P l'
  unfolding call
  prefix-kept l l' removed now e h = ground (arith, k.finishes l now h)

  pub accept_locked-kept :
      (n : FlowNode) (locked : LockedProduct) (now : ℕ)
      → P n.master.ledger
      → P (accept_locked n locked now).master.ledger
  unfolding accept_locked
  accept_locked-kept n locked now h = grind (arith, faulted-kept P k, emit_locked-master)

  send_job-kept :
      (n : FlowNode) (locked : LockedProduct) (cycle : ActuationCycle) (sending : Sending) (now : ℕ)
      → P n.master.ledger
      → P (send_job n locked cycle sending now).master.ledger
  unfolding send_job
  send_job-kept n locked cycle sending now h = grind (arith, device_paused-kept P k)

  pub send_actuation_goal-kept :
      (n : FlowNode) (locked : LockedProduct) (sending : Sending) (now : ℕ)
      → P n.master.ledger
      → P (send_actuation_goal n locked sending now).master.ledger
  unfolding send_actuation_goal
  send_actuation_goal-kept n locked sending now h = grind (arith, faulted-kept P k, send_job-kept)

  pub schedule_actuation-kept :
      (n : FlowNode) (locked : LockedProduct) (job command : String) (sending : Sending) (now : ℕ)
      → P n.master.ledger
      → P (schedule_actuation n locked job command sending now).master.ledger
  unfolding schedule_actuation
  schedule_actuation-kept n locked job command sending now h =
      grind (arith, update-kept P k, faulted-kept P k, send_actuation_goal-kept)

  job_accepted-kept :
      (n : FlowNode) (job : String) (cycle : ActuationCycle) (now : ℕ)
      → P n.master.ledger
      → P (job_accepted n job cycle now).master.ledger
  unfolding job_accepted
  job_accepted-kept n job cycle now h = grind (arith, update-kept P k, faulted-kept P k)

  pub handle_actuation_goal_response-kept :
      (n : FlowNode) (job command : String) (response : GoalResponse) (now : ℕ)
      → P n.master.ledger
      → P (handle_actuation_goal_response n job command response now).master.ledger
  unfolding handle_actuation_goal_response
  handle_actuation_goal_response-kept n job command response now h =
      grind (arith, device_paused-kept P k, job_accepted-kept)

  remove_completed_fifo_prefix-kept :
      (n : FlowNode) (now : ℕ)
      → P n.master.ledger
      → P (remove_completed_fifo_prefix n now).master.ledger
  unfolding remove_completed_fifo_prefix
  remove_completed_fifo_prefix-kept n now h =
      elim (Option-cases (remove_completed_prefix n.master.ledger now)) [
        | inl e ↦ ground arith
        | inr (x, e) ↦ ground (
          arith,
          prefix-kept n.master.ledger x.0 x.1 now e h,
          pop_jobs-master x.1 (set_ledger n x.0),
        )
      ]

  complete_job-kept :
      (n : FlowNode) (job : String) (cycle : ActuationCycle) (actuation : String) (now : ℕ)
      → P n.master.ledger
      → P (complete_job n job cycle actuation now).master.ledger
  unfolding complete_job
  complete_job-kept n job cycle actuation now h =
      grind (arith, update-kept P k, faulted-kept P k, remove_completed_fifo_prefix-kept)

  job_finished-kept :
      (n : FlowNode) (job : String) (cycle : ActuationCycle) (result : Option ActuationResult)
      (now : ℕ)
      → P n.master.ledger
      → P (job_finished n job cycle result now).master.ledger
  unfolding job_finished
  job_finished-kept n job cycle result now h = grind (arith, faulted-kept P k, complete_job-kept)

  pub handle_actuation_result-kept :
      (n : FlowNode) (job command : String) (result : Option ActuationResult) (now : ℕ)
      → P n.master.ledger
      → P (handle_actuation_result n job command result now).master.ledger
  unfolding handle_actuation_result
  handle_actuation_result-kept n job command result now h = grind (arith, job_finished-kept)
