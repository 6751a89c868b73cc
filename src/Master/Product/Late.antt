-- ===== src/Master/Product/Late.antt =====
-- Messages of the stations that arrive after the lock of the product.
use ai_vision_inspection.Base.{ℕ, String, some, Bool, false, ◌≡◌, arith, ◌⊎◌, ok, raise}
use ai_vision_inspection.Constants.{StationId}
use ai_vision_inspection.Master.Product.{
  ProductContext, StationDecision, LockedProduct, identity_conflict, Outcome,
}
use ai_vision_inspection.Master.Product.Verdicts.{
  apply_station_result, record_station_failure, record_station_contract_failure,
}

-- The call changed nothing: it was ignored, or refused for an identifier that differs.
abbrev pub Ignored : ProductContext → Outcome Bool → Type 0
Ignored c r = (r ≡ (c, ok false)) ⊎ (r ≡ (c, raise identity_conflict))

module _ (c : ProductContext) (l : LockedProduct) (locked : c.locked ≡ some l) where
  -- A result for a locked product changes nothing: it is ignored, or refused for an identifier that
  -- differs.
  pub apply_late : (d : StationDecision) → Ignored c (apply_station_result c d)
  unfolding apply_station_result
  apply_late d = ground arith

  pub failure_late :
      (id : StationId) (capture_id batch_id job_id : String) (revision : ℕ) (reason : String)
      → Ignored c (record_station_failure c id capture_id batch_id job_id revision reason)
  unfolding record_station_failure
  failure_late id capture_id batch_id job_id revision reason = ground arith

  pub contract_late :
      (id : StationId) (reason : String) → Ignored c (record_station_contract_failure c id reason)
  unfolding record_station_contract_failure
  contract_late id reason = ground arith

pub apply-locked_same :
    (c : ProductContext) (d : StationDecision) → (apply_station_result c d).0.locked ≡ c.locked
unfolding apply_station_result
apply-locked_same c d = ground arith
