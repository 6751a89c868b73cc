-- ===== src/Master/Flow/Reset.antt =====
-- master_node.py: the end of a reset, and what is noted when the vision node is lost.
use ai_vision_inspection.Base.{
  ℕ, List, [], ◌∷◌, none, some, Bool, true, false, ◌&&◌, not, equals, if◌then◌else◌, Result, ok,
  raise,
}
use ai_vision_inspection.Base.Dict
use ai_vision_inspection.Constants.{StationId, resetting}
use ai_vision_inspection.Master.Equipment.{line_clear_guards_satisfied, in_place_guards_satisfied}
use ai_vision_inspection.Master.Product.{station, result_completed}
use ai_vision_inspection.Master.Ledger.{Owner-discrete, next_sequence}
use ai_vision_inspection.Master.Ledger.Removal.{clear_active}
use ai_vision_inspection.Master.Sensors as Sensors
use ai_vision_inspection.Master.Reorder as Reorder
use ai_vision_inspection.Master.Operation.{
  RecoveryPolicy-discrete, line_clear_required, MasterNode, fifo_aligned,
}
use ai_vision_inspection.Master.Operation.Recovery.{report_reset_failed, report_reset_succeeded}
use ai_vision_inspection.Master.Flow.{StationCycle, FlowNode, in_state, set_ledger}
use ai_vision_inspection.Master.Flow.Capture.{product_of}
use ai_vision_inspection.Master.Flow.Recovery.{
  cancel_tracked_operation_goals, prepare_in_place_recovery,
}

abbrev set_master : FlowNode → MasterNode × Bool → FlowNode × Bool
set_master n (m, done) = (record n { master = m }, done)

abbrev forget_queue : FlowNode → FlowNode
forget_queue n = record n {
  master = record n.master { paused_by_queue = false; queue_recovered_pending = false };
}

-- The rest of the clearing, once the buffer is reset; a ValueError of it leaves the method.
abbrev with_buffer : FlowNode → Result Reorder.BufferError Reorder.ReorderBuffer → FlowNode × Bool
with_buffer n (raise e) = (n, false)
with_buffer n (ok buffer) = (
  forget_queue (record n {
    result_reorder = buffer;
    station_cycles = [];
    actuation_cycles = [];
    actuation_id_owners = record { capacity = 4096; entries = [] };
    deferred_station_starts = [];
    deferred_capture_resumes = [];
  }),
  true,
)

-- Nothing of the products on the line is kept; `false` is an exception, a KeyError of the ledger's
-- or the buffer's, that leaves the method.
unfoldable pub clear_line : FlowNode → ℕ → FlowNode × Bool
clear_line n now = elim (clear_active n.master.ledger now) [
  | none ↦ (n, false)
  | some (l, cleared) ↦
      with_buffer (record (set_ledger n l) { sensor_events = Sensors.reset n.sensor_events })
        (Reorder.reset n.result_reorder (next_sequence l))
]

abbrev cleared_done : FlowNode × Bool → FlowNode × Bool
cleared_done (n, false) = (n, false)
cleared_done (n, true) = set_master n (report_reset_succeeded n.master true)

abbrev in_place_done : FlowNode × Bool → FlowNode × Bool
in_place_done (n, false) = (n, false)
in_place_done (n, true) =
    set_master (forget_queue n) (report_reset_succeeded (forget_queue n).master false)

abbrev refused : FlowNode → FlowNode × Bool
refused n = (record n { master = (report_reset_failed n.master false).0 }, false)

abbrev pub requires_line_clear : FlowNode → Bool
requires_line_clear n = equals RecoveryPolicy-discrete n.master.recovery_policy line_clear_required

-- `confirm_reset_completed`
unfoldable pub confirm_reset_completed : FlowNode → ℕ → FlowNode × Bool
confirm_reset_completed n now =
    if not (in_state n resetting)
    then (n, false)
    else if requires_line_clear n
    then (if not (line_clear_guards_satisfied n.master.equipment)
        then refused n
        else cleared_done (clear_line (cancel_tracked_operation_goals n) now))
    else if not (in_place_guards_satisfied n.master.equipment && fifo_aligned n.master)
    then refused n
    else in_place_done (prepare_in_place_recovery n now)

-- `_record_vision_outage_residency`
unfoldable pub record_residency : FlowNode → List (StationId × StationCycle) → FlowNode
record_residency n [] = n
record_residency n ((s, cycle) ∷ es) = elim (product_of n cycle) [
  | none ↦ record_residency n es
  | some c ↦
      let here = record n {
        vision_outage_affected =
            Dict.put Owner-discrete (c.product_id, s) tt n.vision_outage_affected;
      } in
      let settled = record here {
        vision_outage_residual =
            Dict.put Owner-discrete (c.product_id, s) tt n.vision_outage_residual;
      } in
      if result_completed (station c s)
      then record_residency n es
      else if (station c s).position_settled
      then record_residency settled es
      else record_residency here es
]
