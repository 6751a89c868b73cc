-- ===== src/Master/Messages.antt =====
-- classify_station_message (product_flow.py): what the master does with a result or a failure that
-- a station reports, decided before anything is changed.
pub mod Accepted
use ai_vision_inspection.Base.{
  ℕ, suc, zero, String, String-discrete, Option, none, some, Bool, true, false, ◌&&◌, ◌||◌, not,
  is_some, is_empty, equals, nat_eq, if◌then◌else◌,
}
use ai_vision_inspection.Constants.{StationId, a, b, Verdict, pass, ng, forced_ng}
use ai_vision_inspection.Master.Product.{ProductContext, station}
use ai_vision_inspection.Master.Ledger.{
  Ledger, Owner, Owner-discrete, get, capture_owner, is_retired_product, is_retired_capture,
}

pub data StationMessageOutcome : Type 0 where
  invalid_station_id expired_product capture_owner_conflict : StationMessageOutcome
  unknown_product unregistered_capture removed_product : StationMessageOutcome
  superseded_capture late_after_lock contract_incomplete accepted : StationMessageOutcome

pub data StationContractDefect : Type 0 where
  no_defect score_not_finite payload_incomplete : StationContractDefect

-- A score is a finite float, and only its presence matters here: its type is a parameter.
pub record StationMessageFacts (Score : Type 0) : Type 0 where
  pub product_id : String
  pub fifo_sequence : ℕ
  pub station_id_raw : ℕ
  pub capture_id : String
  pub frame_batch_id : String
  pub inference_job_id : String
  pub result_revision : ℕ
  pub verdict_raw : Option ℕ
  pub score : Option Score

pub record StationMessageDecision : Type 0 where
  pub outcome : StationMessageOutcome
  pub station_id : Option StationId
  pub context : Option ProductContext
  pub verdict : Option Verdict
  pub active_capture_id : String
  pub defect : StationContractDefect

-- `StationId(raw)`; `none` is the ValueError.
abbrev pub parse_station : ℕ → Option StationId
parse_station raw = if nat_eq raw 1 then some a else if nat_eq raw 2 then some b else none

-- `Verdict(raw)`; `none` is the ValueError.
abbrev pub parse_verdict : ℕ → Option Verdict
parse_verdict raw =
    if nat_eq raw 1
    then some pass
    else if nat_eq raw 2
    then some ng
    else if nat_eq raw 3
    then some forced_ng
    else none

abbrev pub expected_verdict : Bool → Option ℕ → Option Verdict
expected_verdict expects none = none
expected_verdict expects (some raw) = if expects then parse_verdict raw else none

abbrev pub decision :
    StationMessageOutcome → Option StationId → Option ProductContext → StationMessageDecision
decision outcome id context = record {
  outcome = outcome;
  station_id = id;
  context = context;
  verdict = none;
  active_capture_id = "";
  defect = no_defect;
}

module _ {Score : Type 0} (ledger : Ledger) (facts : StationMessageFacts Score)
    (expects : Bool) where
  -- The product is not in the ledger.
  unfoldable pub classify_unknown : StationId → StationMessageDecision
  classify_unknown id =
      if is_retired_product ledger facts.product_id facts.fifo_sequence
        || is_retired_capture ledger facts.capture_id
      then decision expired_product (some id) none
      else if is_some (capture_owner ledger facts.capture_id)
      then decision capture_owner_conflict (some id) none
      else decision unknown_product (some id) none

  -- The contract of the payload, for a message that fits the state of its product.
  unfoldable pub find_defect : StationContractDefect
  find_defect =
      if expects && not (is_some facts.score)
      then score_not_finite
      else if expects && not (is_some (expected_verdict expects facts.verdict_raw))
          || nat_eq facts.result_revision 0
          || is_empty facts.frame_batch_id
          || is_empty facts.inference_job_id
      then payload_incomplete
      else no_defect

  unfoldable pub judged :
      StationId → ProductContext → StationContractDefect → StationMessageDecision
  judged id c no_defect = record (decision accepted (some id) (some c)) {
    verdict = expected_verdict expects facts.verdict_raw;
  }
  judged id c d = record (decision contract_incomplete (some id) (some c)) { defect = d }

  -- The owner of the capture is the product at that station.
  unfoldable pub owned : StationId → ProductContext → Option Owner → Bool
  owned id c none = false
  owned id c (some owner) = equals Owner-discrete owner (c.product_id, id)

  unfoldable pub classify_known : StationId → ProductContext → StationMessageDecision
  unfolding find_defect judged owned
  classify_known id c =
      if not (owned id c (capture_owner ledger facts.capture_id))
      then decision unregistered_capture (some id) (some c)
      else if c.removed
      then decision removed_product (some id) (some c)
      else if not (equals String-discrete (station c id).capture_id facts.capture_id)
      then record (decision superseded_capture (some id) (some c)) {
        active_capture_id = (station c id).capture_id;
      }
      else if is_some c.locked
      then decision late_after_lock (some id) (some c)
      else judged id c find_defect

  unfoldable pub classify_at : Option StationId → StationMessageDecision
  unfolding classify_unknown classify_known
  classify_at none = decision invalid_station_id none none
  classify_at (some id) = elim (get ledger facts.product_id facts.fifo_sequence) [
    | none ↦ classify_unknown id
    | some c ↦ classify_known id c
  ]

  unfoldable pub classify_station_message : StationMessageDecision
  unfolding classify_at
  classify_station_message = classify_at (parse_station facts.station_id_raw)
