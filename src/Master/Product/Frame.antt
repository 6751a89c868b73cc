-- ===== src/Master/Product/Frame.antt =====
-- What no call on a product changes: its identity and its mark of removal.
use ai_vision_inspection.Base.{◌≡◌, arith}
use ai_vision_inspection.Master.Product.{ProductContext, StationDecision}
use ai_vision_inspection.Master.Product.Verdicts.{apply_station_result}
use ai_vision_inspection.Master.Product.Command.{Command, result, step}

pub record SameProduct (c c' : ProductContext) : Type 0 where
  pub product_id : c'.product_id ≡ c.product_id
  pub fifo_sequence : c'.fifo_sequence ≡ c.fifo_sequence
  pub removed : c'.removed ≡ c.removed

result-SameProduct :
    (c : ProductContext) (d : StationDecision) → SameProduct c (apply_station_result c d).0
unfolding apply_station_result
result-SameProduct c d = record {
  product_id = ground arith;
  fifo_sequence = ground arith;
  removed = ground arith;
}

pub step-SameProduct : (c : ProductContext) (x : Command) → SameProduct c (step c x)
unfolding step
step-SameProduct c (result d) = result-SameProduct c d
step-SameProduct c _ = ground arith
