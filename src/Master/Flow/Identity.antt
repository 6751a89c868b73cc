-- ===== src/Master/Flow/Identity.antt =====
-- master_node.py: the answers of the actuator that name another command than the one in hand, and those
-- that cannot be trusted.
use ai_vision_inspection.Base.{
  ℕ, String, String-discrete, Option, none, some, false, ◌≡◌, ◌≢◌, ◌⊎◌, arith,
}
use ai_vision_inspection.Base.Dict
use ai_vision_inspection.Constants.{fault_stop}
use ai_vision_inspection.Master.Flow.{FlowNode, ActuationCycle, faulted}
use ai_vision_inspection.Master.Flow.Capture.{GoalResponse}
use ai_vision_inspection.Master.Flow.Actuation.{
  active_job, ActuationResult, handle_actuation_goal_response, job_finished,
  handle_actuation_result,
}
use ai_vision_inspection.Master.Flow.Keeps.{faulted-ledger, faulted-state}

-- The response and the result of a command that is not the one of the actuator's job change nothing.
other_command_ignored :
    (n : FlowNode) (job command : String) (cycle : ActuationCycle) (response : GoalResponse)
    (result : Option ActuationResult) (now : ℕ)
    → Dict.get String-discrete job n.actuation_cycles ≡ some cycle
    → cycle.command_id ≢ command
    → (handle_actuation_goal_response n job command response now ≡ n)
      × (handle_actuation_result n job command result now ≡ n)
unfolding handle_actuation_goal_response handle_actuation_result active_job
other_command_ignored n job command cycle response result now e d = ground arith

-- The answer is lost, names another product, says that it failed, or has no identifier.
abbrev pub IsFaulty : ActuationCycle → Option ActuationResult → Type 0
IsFaulty cycle none = Unit
IsFaulty cycle (some r) =
    (r.product_id ≢ cycle.product_id) ⊎ (r.success ≡ false) ⊎ (r.actuation_id ≡ "")

-- A result of the actuator's job that is lost, that names another product, that failed or that has no
-- identifier stops the line. It leaves the ledger, the cycles of the stations and of the actuator and the
-- owners of the actuations as they are, and no goal, cancellation or verdict is sent for it.
pub untrusted_actuation_stops :
    (n : FlowNode) (job command : String) (cycle : ActuationCycle) (o : Option ActuationResult)
    (now : ℕ)
    → Dict.get String-discrete job n.actuation_cycles ≡ some cycle
    → cycle.command_id ≡ command
    → IsFaulty cycle o
    → ((handle_actuation_result n job command o now).master.system_state ≡ fault_stop)
      × ((handle_actuation_result n job command o now).master.ledger ≡ n.master.ledger)
      × ((handle_actuation_result n job command o now).station_cycles ≡ n.station_cycles)
      × ((handle_actuation_result n job command o now).actuation_cycles ≡ n.actuation_cycles)
      × ((handle_actuation_result n job command o now).actuation_id_owners ≡ n.actuation_id_owners)
      × ((handle_actuation_result n job command o now).emissions ≡ n.emissions)
unfolding handle_actuation_result active_job job_finished faulted
untrusted_actuation_stops n job command cycle none now e c u =
    ground (arith, faulted-ledger n now, faulted-state n now)
untrusted_actuation_stops n job command cycle (some r) now e c u =
    ground (arith, faulted-ledger n now, faulted-state n now)
