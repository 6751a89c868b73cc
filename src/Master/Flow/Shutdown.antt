-- ===== src/Master/Flow/Shutdown.antt =====
-- master_node.py: the goals of the Actions at the end of a shutdown.
use ai_vision_inspection.Base.{ℕ, ◌++◌, ◌≡◌, ◌≢◌, arith}
use ai_vision_inspection.Master.Operation.{ready_to_exit}
use ai_vision_inspection.Master.Operation.Frame.{call-ledger}
use ai_vision_inspection.Master.Operation.Ending.{call-EndsCancelled}
use ai_vision_inspection.Master.Operation.Steps as Operation
use ai_vision_inspection.Master.Flow.{FlowNode}
use ai_vision_inspection.Master.Flow.Steps.{Event, step}
use ai_vision_inspection.Master.Flow.Preserved.{cancellations, operated_lem}

-- Whatever call of the operation ends the shutdown, a request or a confirmed stop, in any state of the line, it
-- sends one cancellation for each capture whose goal the node holds and for each actuation whose goal it
-- holds and that is not completed, and nothing else for a product; the ledger and the cycles stay.
pub exit_cancels_goals :
    (Score : Type 0) (n : FlowNode) (c : Operation.Call) (now : ℕ)
    → n.master.shutdown_phase ≢ ready_to_exit
    → (step {Score = Score} n (Event.operation c) now).master.shutdown_phase ≡ ready_to_exit
    → ((step {Score = Score} n (Event.operation c) now).emissions ≡ n.emissions ++ cancellations n)
      × ((step {Score = Score} n (Event.operation c) now).master.ledger ≡ n.master.ledger)
      × ((step {Score = Score} n (Event.operation c) now).station_cycles ≡ n.station_cycles)
      × ((step {Score = Score} n (Event.operation c) now).actuation_cycles ≡ n.actuation_cycles)
unfolding step
exit_cancels_goals Score n c now h e =
    let m = Operation.call n.master c now in
    ground
      (arith, operated_lem n m, call-EndsCancelled n.master c now h, call-ledger n.master c now)
