-- ===== src/Master/Flow/Keeps/Report.antt =====
-- master_node.py: the ledger after the results and the failures of the stations.
use ai_vision_inspection.Base.{ℕ, String, arith}
use ai_vision_inspection.Constants.{StationId}
use ai_vision_inspection.Master.Product.{ProductContext, StationDecision}
use ai_vision_inspection.Master.Ledger.{Ledger}
use ai_vision_inspection.Master.Flow.{FlowNode}
use ai_vision_inspection.Master.Flow.Keeps.{IsKept, update-kept, faulted-kept, device_paused-kept}
use ai_vision_inspection.Master.Messages.{StationMessageFacts, StationMessageDecision}
use ai_vision_inspection.Master.Flow.Report.{
  StationMessage, contract_broken, apply_accepted_station_result, on_station_result,
  handle_station_result, apply_accepted_station_failure, on_station_failure, handle_station_failure,
}
use ai_vision_inspection.Master.Flow.Keeps.Capture.{cancel_station_b_after_a_terminal-kept}

module _ (P : Ledger → Type 0) (k : IsKept P) where
  contract_broken-kept :
      (n : FlowNode) (s : StationId) (id : String) (reason : String) (now : ℕ)
      → P n.master.ledger
      → P (contract_broken n s id reason now).master.ledger
  unfolding contract_broken
  contract_broken-kept n s id reason now h =
      grind (arith, update-kept P k, cancel_station_b_after_a_terminal-kept P k)

module _ (P : Ledger → Type 0) (k : IsKept P) {Score : Type 0} where
  apply_accepted_station_result-kept :
      (n : FlowNode) (f : StationMessageFacts Score) (c : ProductContext) (d : StationDecision)
      (now : ℕ)
      → P n.master.ledger
      → P (apply_accepted_station_result n f c d now).master.ledger
  unfolding apply_accepted_station_result
  apply_accepted_station_result-kept n f c d now h =
      grind (arith, update-kept P k, faulted-kept P k, cancel_station_b_after_a_terminal-kept P k)

  on_station_result-kept :
      (n : FlowNode) (f : StationMessageFacts Score) (d : StationMessageDecision) (now : ℕ)
      → P n.master.ledger
      → P (on_station_result n f d now).master.ledger
  unfolding on_station_result
  on_station_result-kept n f d now h =
      grind (arith, faulted-kept P k, contract_broken-kept P k, apply_accepted_station_result-kept)

  pub handle_station_result-kept :
      (n : FlowNode) (m : StationMessage Score) (now : ℕ)
      → P n.master.ledger
      → P (handle_station_result n m now).master.ledger
  unfolding handle_station_result
  handle_station_result-kept n m now h = grind (arith, on_station_result-kept)

  apply_accepted_station_failure-kept :
      (n : FlowNode) (m : StationMessage Score) (c : ProductContext) (s : StationId) (now : ℕ)
      → P n.master.ledger
      → P (apply_accepted_station_failure n m c s now).master.ledger
  unfolding apply_accepted_station_failure
  apply_accepted_station_failure-kept n m c s now h = grind (
    arith,
    update-kept P k,
    faulted-kept P k,
    device_paused-kept P k,
    cancel_station_b_after_a_terminal-kept P k,
  )

  on_station_failure-kept :
      (n : FlowNode) (m : StationMessage Score) (d : StationMessageDecision) (now : ℕ)
      → P n.master.ledger
      → P (on_station_failure n m d now).master.ledger
  unfolding on_station_failure
  on_station_failure-kept n m d now h =
      grind (arith, faulted-kept P k, contract_broken-kept P k, apply_accepted_station_failure-kept)

  pub handle_station_failure-kept :
      (n : FlowNode) (m : StationMessage Score) (now : ℕ)
      → P n.master.ledger
      → P (handle_station_failure n m now).master.ledger
  unfolding handle_station_failure
  handle_station_failure-kept n m now h = grind (arith, on_station_failure-kept)
