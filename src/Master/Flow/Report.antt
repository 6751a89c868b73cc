-- ===== src/Master/Flow/Report.antt =====
-- master_node.py: the results and the failures that a station reports.
use ai_vision_inspection.Base.{
  ℕ, String, Option, none, some, Bool, true, false, not, nat_eq, if◌then◌else◌, Result, ok, raise,
}
use Prim.Native.String as Native
use ai_vision_inspection.Constants.{StationId, a, b, Verdict, ng, fault_stop}
use ai_vision_inspection.Master.Product.{
  ProductContext, ProductError, StationDecision, identity_conflict,
}
use ai_vision_inspection.Master.Product.Cycle.{same}
use ai_vision_inspection.Master.Product.Command.{result, failure, contract_failure}
use ai_vision_inspection.Master.Product.Verdicts.{
  apply_station_result, record_station_failure, verdict_is,
}
use ai_vision_inspection.Master.Messages.{
  StationMessageFacts, StationMessageDecision, StationContractDefect, score_not_finite,
  classify_station_message, invalid_station_id, expired_product, capture_owner_conflict,
  unknown_product, unregistered_capture, removed_product, superseded_capture, late_after_lock,
  contract_incomplete, accepted,
}
use ai_vision_inspection.Master.Flow.{FlowNode, in_state, faulted, device_paused, applied}
use ai_vision_inspection.Master.Flow.Cancel.{cancel_station_b_after_a_terminal}

-- StationResult or StationInferenceFailed; the last two fields are those of a failure.
pub record StationMessage (Score : Type 0) : Type 0 where
  pub session_id : String
  pub facts : StationMessageFacts Score
  pub error_code : ℕ
  pub reason : String

abbrev gpu_out_of_memory_code : ℕ
gpu_out_of_memory_code = 2003

abbrev cancel_if_a : FlowNode → StationId → String → String → ℕ → FlowNode
cancel_if_a n a id reason now = cancel_station_b_after_a_terminal n id reason now
cancel_if_a n b id reason now = n

-- The contract of a message was broken.
unfoldable pub contract_broken : FlowNode → StationId → String → String → ℕ → FlowNode
contract_broken n s id reason now =
    cancel_if_a (applied n id (contract_failure s reason)) s id reason now

abbrev contract_reason : StationContractDefect → String
contract_reason score_not_finite = "station result score must be finite"
contract_reason _ = "station result payload is invalid or incomplete"

-- What follows `apply_station_result`; the other two classes of errors would leave the handler.
abbrev result_done : FlowNode → String → StationDecision → Result ProductError Bool → ℕ → FlowNode
result_done n id d (raise identity_conflict) now = faulted n now
result_done n id d (raise _) now = n
result_done n id d (ok false) now = n
result_done n id d (ok true) now =
    if verdict_is d ng then cancel_if_a n d.station_id id "Station A terminal NG" now else n

abbrev if_broken : FlowNode → String → Option StationId → String → ℕ → FlowNode
if_broken n id none reason now = n
if_broken n id (some s) reason now = contract_broken n s id reason now

abbrev pause_for_memory : FlowNode → ℕ → ℕ → FlowNode
pause_for_memory n error_code now =
    if nat_eq error_code gpu_out_of_memory_code then device_paused n now else n

module _ {Score : Type 0} where
  abbrev station_decision : StationMessageFacts Score → StationId → Verdict → StationDecision
  station_decision f s v = record {
    station_id = s;
    verdict = v;
    revision = f.result_revision;
    capture_id = f.capture_id;
    inference_job_id = f.inference_job_id;
    frame_batch_id = f.frame_batch_id;
  }

  -- `_apply_accepted_station_result`
  unfoldable pub apply_accepted_station_result :
      FlowNode → StationMessageFacts Score → ProductContext → StationDecision → ℕ → FlowNode
  apply_accepted_station_result n f c d now =
      result_done (applied n f.product_id (result d)) f.product_id d (apply_station_result c d).1
        now

  abbrev if_decided : FlowNode → StationMessageFacts Score → StationMessageDecision → ℕ → FlowNode
  if_decided n f d now = elim d.context [
    | none ↦ n
    | some c ↦ elim d.station_id [
      | none ↦ n
      | some s ↦ elim d.verdict [
        | none ↦ n
        | some v ↦ apply_accepted_station_result n f c (station_decision f s v) now
      ]
    ]
  ]

  unfoldable pub on_station_result :
      FlowNode → StationMessageFacts Score → StationMessageDecision → ℕ → FlowNode
  on_station_result n f d now = elim d.outcome [
    | invalid_station_id ↦ n
    | expired_product ↦ n
    | capture_owner_conflict ↦ faulted n now
    | unknown_product ↦ faulted n now
    | unregistered_capture ↦ faulted n now
    | removed_product ↦ n
    | superseded_capture ↦ n
    | late_after_lock ↦ n
    | contract_incomplete ↦ if_broken n f.product_id d.station_id (contract_reason d.defect) now
    | accepted ↦ if_decided n f d now
  ]

  -- `_handle_station_result`
  unfoldable pub handle_station_result : FlowNode → StationMessage Score → ℕ → FlowNode
  handle_station_result n m now =
      if not (same m.session_id n.master.settings.session_id)
      then n
      else if in_state n fault_stop
      then n
      else on_station_result n m.facts (classify_station_message n.master.ledger m.facts true) now

  abbrev failure_done :
      FlowNode → StationId → StationMessage Score → Result ProductError Bool → ℕ → FlowNode
  failure_done n s m (raise identity_conflict) now = faulted n now
  failure_done n s m (raise _) now = n
  failure_done n s m (ok false) now = n
  failure_done n s m (ok true) now =
      pause_for_memory
        (cancel_if_a n s m.facts.product_id (Native.◌++◌ "Station A inference failure: " m.reason)
          now)
        m.error_code now

  -- `_apply_accepted_station_failure`
  unfoldable pub apply_accepted_station_failure :
      FlowNode → StationMessage Score → ProductContext → StationId → ℕ → FlowNode
  apply_accepted_station_failure n m c s now =
      let f = m.facts in
      failure_done
        (applied n f.product_id
          (failure s f.capture_id f.frame_batch_id f.inference_job_id f.result_revision m.reason))
        s m
        (record_station_failure c s f.capture_id f.frame_batch_id f.inference_job_id
          f.result_revision m.reason).1
        now

  abbrev if_failed : FlowNode → StationMessage Score → StationMessageDecision → ℕ → FlowNode
  if_failed n m d now = elim d.context [
    | none ↦ n
    | some c ↦ elim d.station_id [ none ↦ n | some s ↦ apply_accepted_station_failure n m c s now ]
  ]

  unfoldable pub on_station_failure :
      FlowNode → StationMessage Score → StationMessageDecision → ℕ → FlowNode
  on_station_failure n m d now = elim d.outcome [
    | invalid_station_id ↦ n
    | expired_product ↦ n
    | capture_owner_conflict ↦ faulted n now
    | unknown_product ↦ faulted n now
    | unregistered_capture ↦ faulted n now
    | removed_product ↦ n
    | superseded_capture ↦ n
    | late_after_lock ↦ n
    | contract_incomplete ↦
        if_broken n m.facts.product_id d.station_id "station failure payload is incomplete" now
    | accepted ↦ if_failed n m d now
  ]

  -- `_handle_station_failure`
  unfoldable pub handle_station_failure : FlowNode → StationMessage Score → ℕ → FlowNode
  handle_station_failure n m now =
      if not (same m.session_id n.master.settings.session_id)
      then n
      else if in_state n fault_stop
      then n
      else on_station_failure n m (classify_station_message n.master.ledger m.facts false) now
