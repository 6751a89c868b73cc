-- ===== src/Master/Flow/Keeps/Recovery.antt =====
-- master_node.py: the ledger after what a pause, a reset and a deadline do to the cycles.
use ai_vision_inspection.Base.{
  ℕ, String, List, [], ◌∷◌, some, ◌≡◌, refl, arith, Option-cases, inl, inr,
}
use ai_vision_inspection.Constants.{StationId}
use ai_vision_inspection.Master.Product.{ProductContext}
use ai_vision_inspection.Master.Ledger.{Ledger}
use ai_vision_inspection.Master.Flow.{FlowNode, StationCycle, ActuationCycle, Scope, Scopes}
use ai_vision_inspection.Master.Flow.Keeps.{IsKept, update-kept, faulted-kept}
use ai_vision_inspection.Constants.{a, b}
use ai_vision_inspection.Master.Ledger.Calls.{call}
use ai_vision_inspection.Master.Ledger.Removal.{clear_active}
use ai_vision_inspection.Master.Operation.{MasterNode}
use ai_vision_inspection.Master.Operation.Frame.{
  confirm_running-ledger, reset_succeeded-ledger, reset_failed-ledger,
}
use ai_vision_inspection.Master.Flow.Station.{Sending}
use ai_vision_inspection.Master.Flow.Recovery.{
  Supply, resume_captures, start_deferred, start_all_deferred, send_again, send_all_again,
  resume_deferred_operations, confirm_running, cancel_captures, cancel_actuations, recover_product,
  recover_station_cycle, recover_stations, operated, cancel_after_recovery,
  prepare_in_place_recovery,
}
use ai_vision_inspection.Master.Flow.Reset.{clear_line, confirm_reset_completed, record_residency}
use ai_vision_inspection.Master.Flow.Keeps.Station.{start_station_cycle-kept, recovered_cycle-kept}
use ai_vision_inspection.Master.Flow.Keeps.Capture.{
  cancel_station_b_after_a_terminal-kept, confirm_conveyor_resumed-kept,
}
use ai_vision_inspection.Master.Flow.Keeps.Actuation.{send_actuation_goal-kept}

cancel_captures-master :
    (es : List (StationId × StationCycle)) (n : FlowNode) → (cancel_captures n es).master ≡ n.master
unfolding cancel_captures
cancel_captures-master [] n = refl
cancel_captures-master ((s, cycle) ∷ es) n = grind (arith, cancel_captures-master es)

cancel_actuations-master :
    (es : List (String × ActuationCycle)) (n : FlowNode)
    → (cancel_actuations n es).master ≡ n.master
unfolding cancel_actuations
cancel_actuations-master [] n = refl
cancel_actuations-master ((job, cycle) ∷ es) n = grind (arith, cancel_actuations-master es)

pub operated-ledger : (n : FlowNode) (m : MasterNode) → (operated n m).master.ledger ≡ m.ledger
unfolding operated
operated-ledger n m = grind (arith, cancel_captures-master, cancel_actuations-master)

pub record_residency-master :
    (es : List (StationId × StationCycle)) (n : FlowNode)
    → (record_residency n es).master ≡ n.master
unfolding record_residency
record_residency-master [] n = refl
record_residency-master ((s, cycle) ∷ es) n = grind (arith, record_residency-master es)

module _ (P : Ledger → Type 0) (k : IsKept P) where
  resume_captures-kept :
      (es : Scopes) (n : FlowNode) (now : ℕ)
      → P n.master.ledger
      → P (resume_captures n es now).master.ledger
  unfolding resume_captures
  resume_captures-kept [] n now h = h
  resume_captures-kept (((id, s), u) ∷ es) n now h =
      resume_captures-kept es _ now (confirm_conveyor_resumed-kept P k n id s now h)

  start_deferred-kept :
      (n : FlowNode) (scope : Scope) (supply : Supply) (now : ℕ)
      → P n.master.ledger
      → P (start_deferred n scope supply now).master.ledger
  unfolding start_deferred
  start_deferred-kept n scope supply now h = grind (arith, start_station_cycle-kept P k)

  start_all_deferred-kept :
      (es : Scopes) (n : FlowNode) (supply : Supply) (now : ℕ)
      → P n.master.ledger
      → P (start_all_deferred n es supply now).master.ledger
  unfolding start_all_deferred
  start_all_deferred-kept [] n supply now h = h
  start_all_deferred-kept ((scope, u) ∷ es) n supply now h =
      start_all_deferred-kept es _ supply now (start_deferred-kept n scope supply now h)

  send_again-kept :
      (n : FlowNode) (cycle : ActuationCycle) (sending : Sending) (now : ℕ)
      → P n.master.ledger
      → P (send_again n cycle sending now).master.ledger
  unfolding send_again
  send_again-kept n cycle sending now h = grind (arith, send_actuation_goal-kept P k)

  send_all_again-kept :
      (es : List (String × ActuationCycle)) (n : FlowNode) (sending : Sending) (now : ℕ)
      → P n.master.ledger
      → P (send_all_again n es sending now).master.ledger
  unfolding send_all_again
  send_all_again-kept [] n sending now h = h
  send_all_again-kept ((job, cycle) ∷ es) n sending now h =
      send_all_again-kept es _ sending now (send_again-kept n cycle sending now h)

  resume_deferred_operations-kept :
      (n : FlowNode) (supply : Supply) (sending : Sending) (now : ℕ)
      → P n.master.ledger
      → P (resume_deferred_operations n supply sending now).master.ledger
  unfolding resume_deferred_operations
  resume_deferred_operations-kept n supply sending now h =
      grind (arith, resume_captures-kept, start_all_deferred-kept, send_all_again-kept)

  pub confirm_running-kept :
      (n : FlowNode) (supply : Supply) (sending : Sending) (now : ℕ)
      → P n.master.ledger
      → P (confirm_running n supply sending now).master.ledger
  unfolding confirm_running
  confirm_running-kept n supply sending now h =
      grind (arith, confirm_running-ledger, resume_deferred_operations-kept)

  recover_product-kept :
      (n : FlowNode) (cycle : StationCycle) (c : ProductContext) (s : StationId) (now : ℕ)
      → P n.master.ledger
      → P (recover_product n cycle c s now).0.master.ledger
  unfolding recover_product
  recover_product-kept n cycle c s now h =
      grind (arith, update-kept P k, faulted-kept P k, recovered_cycle-kept P k)

  recover_station_cycle-kept :
      (n : FlowNode) (s : StationId) (now : ℕ)
      → P n.master.ledger
      → P (recover_station_cycle n s now).0.master.ledger
  unfolding recover_station_cycle
  recover_station_cycle-kept n s now h = grind (arith, faulted-kept P k, recover_product-kept)

  recover_stations-kept :
      (ss : List StationId) (n : FlowNode) (now : ℕ)
      → P n.master.ledger
      → P (recover_stations n ss now).0.master.ledger
  unfolding recover_stations
  recover_stations-kept [] n now h = h
  recover_stations-kept (s ∷ ss) n now h = grind (
    arith,
    recover_station_cycle-kept n s now h,
    recover_stations-kept ss (recover_station_cycle n s now).0 now,
  )

  cancel_after_recovery-kept :
      (es : List Scope) (n : FlowNode) (now : ℕ)
      → P n.master.ledger
      → P (cancel_after_recovery n es now).master.ledger
  unfolding cancel_after_recovery
  cancel_after_recovery-kept [] n now h = h
  cancel_after_recovery-kept ((id, a) ∷ es) n now h =
      cancel_after_recovery-kept es _ now (cancel_station_b_after_a_terminal-kept P k n id _ now h)
  cancel_after_recovery-kept ((id, b) ∷ es) n now h = cancel_after_recovery-kept es n now h

  prepare_in_place_recovery-kept :
      (n : FlowNode) (now : ℕ)
      → P n.master.ledger
      → P (prepare_in_place_recovery n now).0.master.ledger
  unfolding prepare_in_place_recovery
  prepare_in_place_recovery-kept n now h = grind (
    arith,
    faulted-kept P k,
    cancel_captures-master,
    recover_stations-kept,
    cancel_after_recovery-kept,
  )

  cleared-kept :
      (l l' : Ledger) (removed : List ProductContext) (now : ℕ)
      → clear_active l now ≡ some (l', removed)
      → P l
      → P l'
  unfolding call
  cleared-kept l l' removed now e h = ground (arith, k.clears l now h)

  clear_line-kept :
      (n : FlowNode) (now : ℕ) → P n.master.ledger → P (clear_line n now).0.master.ledger
  unfolding clear_line
  clear_line-kept n now h = elim (Option-cases (clear_active n.master.ledger now)) [
    | inl e ↦ ground arith
    | inr (x, e) ↦ ground (arith, cleared-kept n.master.ledger x.0 x.1 now e h)
  ]

  pub confirm_reset_completed-kept :
      (n : FlowNode) (now : ℕ)
      → P n.master.ledger
      → P (confirm_reset_completed n now).0.master.ledger
  unfolding confirm_reset_completed
  confirm_reset_completed-kept n now h = grind (
    arith, cancel_captures-master, cancel_actuations-master, clear_line-kept,
    prepare_in_place_recovery-kept, reset_failed-ledger, reset_succeeded-ledger,
  )
