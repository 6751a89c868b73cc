-- ===== src/Master/Messages/Accepted.antt =====
-- What an accepted message of a station has passed, and what becomes of the messages of a product
-- that was pruned.
use ai_vision_inspection.Base.{
  ℕ, List, [], ◌∷◌, ◌∙◌, ◌<◌, String, String-discrete, none, some, Bool, true, false, is_some,
  is_empty, ◌≡◌, refl, arith, ok, ◌↔◌, not, ◌||◌,
}
use ai_vision_inspection.Base.Dict
use ai_vision_inspection.Constants.{StationId, Verdict}
use ai_vision_inspection.Master.Product.{ProductContext, StationDecision, station}
use ai_vision_inspection.Master.Product.Verdicts.{mismatch, apply_station_result}
use ai_vision_inspection.Master.Ledger.{
  Ledger, Owner, retired_capacity, ProductKey-discrete, get, capture_owner, is_retired_product,
}
use ai_vision_inspection.Master.Ledger.Removal.{
  prune, forget, retire_captures, retire_one, trim_retired,
}
use ai_vision_inspection.Master.Ledger.Calls.{prune-by_id}
use ai_vision_inspection.Master.Messages.{
  StationMessageFacts, parse_station, expected_verdict, accepted, expired_product,
  classify_station_message,
}

module _ {Score : Type 0} (ledger : Ledger) (facts : StationMessageFacts Score)
    (expects : Bool) where
  -- The message names a product and a station, and passed each test on the way.
  pub record IsFit (id : StationId) (c : ProductContext) : Type 0 where
    pub parsed : parse_station facts.station_id_raw ≡ some id
    pub known : get ledger facts.product_id facts.fifo_sequence ≡ some c
    pub owner : capture_owner ledger facts.capture_id ≡ some (c.product_id, id)
    pub present : c.removed ≡ false
    pub active : (station c id).capture_id ≡ facts.capture_id
    pub unlocked : c.locked ≡ none
    pub revised : 0 < facts.result_revision
    pub batch : is_empty facts.frame_batch_id ≡ false
    pub job : is_empty facts.inference_job_id ≡ false
    pub scored : (not expects || is_some facts.score) ≡ true
    pub judged : (not expects || is_some (expected_verdict expects facts.verdict_raw)) ≡ true

  -- The decision that the callback builds of the message.
  abbrev pub decision_of : StationId → Verdict → StationDecision
  decision_of id v = record {
    station_id = id;
    verdict = v;
    revision = facts.result_revision;
    capture_id = facts.capture_id;
    inference_job_id = facts.inference_job_id;
    frame_batch_id = facts.frame_batch_id;
  }

  accepted-IsFit :
      (id : StationId) (c : ProductContext)
      → parse_station facts.station_id_raw ≡ some id
      → get ledger facts.product_id facts.fifo_sequence ≡ some c
      → (classify_station_message ledger facts expects).outcome ≡ accepted
      → IsFit id c
  unfolding classify_station_message
  accepted-IsFit id c p q h = ground arith

  IsFit-accepted :
      (id : StationId) (c : ProductContext)
      → IsFit id c
      → (classify_station_message ledger facts expects).outcome ≡ accepted
  unfolding classify_station_message
  IsFit-accepted id c v = ground arith

  -- A message about a known product and a valid station is accepted exactly when it is fit: its
  -- capture is owned by that product at that station and is the active one, the product is on the
  -- line and not locked, and the payload is complete.
  pub accepted_iff :
      (id : StationId) (c : ProductContext)
      → parse_station facts.station_id_raw ≡ some id
      → get ledger facts.product_id facts.fifo_sequence ≡ some c
      → ((classify_station_message ledger facts expects).outcome ≡ accepted) ↔ IsFit id c
  accepted_iff id c p q = (accepted-IsFit id c p q, IsFit-accepted id c)

  -- A result that was accepted is recorded: at a station that has no decision and knows no other
  -- batch or job, applying it returns true and leaves its decision.
  pub accepted_applies :
      (id : StationId) (c : ProductContext) (v : Verdict)
      → parse_station facts.station_id_raw ≡ some id
      → get ledger facts.product_id facts.fifo_sequence ≡ some c
      → (classify_station_message ledger facts expects).outcome ≡ accepted
      → (station c id).decision ≡ none
      → mismatch (station c id).frame_batch_id facts.frame_batch_id ≡ false
      → mismatch (station c id).inference_job_id facts.inference_job_id ≡ false
      → let d = decision_of id v in
        ((apply_station_result c d).1 ≡ ok true)
        × ((station (apply_station_result c d).0 id).decision ≡ some d)
  unfolding apply_station_result
  accepted_applies id c v p q h none_yet batch job =
      let fit = accepted-IsFit id c p q h in ground (arith, fit.active, fit.unlocked)

retire-retired_products :
    (id : String) (es : List (String × Owner)) (l : Ledger)
    → (retire_captures id es l).retired_products ≡ l.retired_products
unfolding retire_captures retire_one
retire-retired_products id [] l = refl
retire-retired_products id ((capture, owner) ∷ es) l =
    retire-retired_products id es (retire_one id capture owner l) ∙ one
  where
    one : (retire_one id capture owner l).retired_products ≡ l.retired_products
    one = ground arith

-- The tombstone of a product that is pruned outlives the trimming.
prune-retired :
    (l : Ledger) (id : String) (c : ProductContext)
    → is_retired_product (prune l id c) c.product_id c.fifo_sequence ≡ true
unfolding prune trim_retired forget
prune-retired l id c = rw (retire-retired_products c.product_id l.capture_owners _) (
    rw
      (Dict.get-trim-move_to_end ProductKey-discrete retired_capacity
        (c.product_id, c.fifo_sequence) tt l.retired_products (omega arith))
      refl)

get-prune : (l : Ledger) (id : String) (c : ProductContext) (n : ℕ) → get (prune l id c) id n ≡ none
unfolding get
get-prune l id c n = ground (arith, prune-by_id l id c, Dict.get-pop String-discrete id id l.by_id)

-- A message for a product that is pruned at this moment is answered as expired, whatever the rest
-- of the message says, and not as an unknown product.
prune-expired :
    {Score : Type 0} (l : Ledger) (facts : StationMessageFacts Score) (expects : Bool)
    (c : ProductContext) (id : StationId)
    → parse_station facts.station_id_raw ≡ some id
    → facts.product_id ≡ c.product_id
    → facts.fifo_sequence ≡ c.fifo_sequence
    → (classify_station_message (prune l c.product_id c) facts expects).outcome ≡ expired_product
unfolding classify_station_message
prune-expired l facts expects c id p q r =
    ground (arith, get-prune l c.product_id c facts.fifo_sequence, prune-retired l c.product_id c)
