-- ===== src/Examples/Flow/Answers.antt =====
-- Answers that the master node of M/master_node.py gets while a station or the actuator waits.
use ai_vision_inspection.Base.{ℕ, String-discrete, [], ◌∷◌, ◌++◌, some, true, ◌≡◌, inr, refl}
use ai_vision_inspection.Base.Dict
use ai_vision_inspection.Constants.{SystemState, run_sys, fault_stop, StationId, a, b, pass, upper}
use ai_vision_inspection.Constants
use ai_vision_inspection.Master.Equipment.{sim_safe, all_conveyors_stopped}
use ai_vision_inspection.Master.Operation.{ShutdownPhase-discrete, ready_to_exit}
use ai_vision_inspection.Master.Operation.Deadlines.{
  finalize_shutdown_sequence, begin_shutdown_sequence, request_shutdown,
}
use ai_vision_inspection.Master.Operation.Steps.{asks_shutdown, call}
use ai_vision_inspection.Master.Flow.{
  FlowNode, StationCycle, ActuationCycle, waiting_capture_result, waiting_result,
  capture_goal_canceled,
}
use ai_vision_inspection.Master.Flow.Capture.{active_cycle, handle_capture_result}
use ai_vision_inspection.Master.Flow.Recovery.{cancel_captures, cancel_actuations, operated}
use ai_vision_inspection.Master.Flow.Steps.{Event, step}
use ai_vision_inspection.Master.Flow.Actuation.{ActuationResult, handle_actuation_result}
use ai_vision_inspection.Master.Flow.Preserved.{Preserved, cancellations}
use ai_vision_inspection.Master.Flow.Latched.{step-Preserved}
use ai_vision_inspection.Master.Flow.Shutdown.{exit_cancels_goals}
use ai_vision_inspection.Master.Flow.Identity.{untrusted_actuation_stops}
use ai_vision_inspection.Examples.Flow.{line_in, captured, image, product}

-- A product waits for its capture at Station A.
abbrev cycle_a : StationCycle
cycle_a = record {
  product_id = product;
  fifo_sequence = 1;
  station_id = a;
  conveyor_id = upper;
  position_command_id = "pa";
  capture_id = "ca";
  phase = waiting_capture_result;
  deadline_ns = 0;
  has_goal_handle = true;
}

abbrev waiting_line : SystemState → FlowNode
waiting_line s = record (line_in s) { station_cycles = (a, cycle_a) ∷ [] }

abbrev job : ActuationCycle
job = record {
  product_id = product;
  fifo_sequence = 1;
  actuator_job_id = "job";
  command_id = "command";
  phase = waiting_result;
  deadline_ns = 0;
  has_goal_handle = true;
}

abbrev actuating : FlowNode
actuating = record (line_in run_sys) { actuation_cycles = ("job", job) ∷ [] }

abbrev late : Event ℕ
late = Event.capture_result a "ca" (some (captured 1 "ca" (image "a1" ∷ [])))

-- The program is asked to end while the capture is under way.
abbrev ending : Event ℕ
ending = Event.operation asks_shutdown

step-Preserved_example :
    Preserved (waiting_line fault_stop) 5 (step (waiting_line fault_stop) ending 5)
step-Preserved_example = step-Preserved (waiting_line fault_stop) ending 5 refl

abbrev ended : FlowNode
ended = step (waiting_line fault_stop) ending 5

ended_is_ready : ended.master.shutdown_phase ≡ ready_to_exit
unfolding ai_vision_inspection.Master.Flow.Steps.step operated cancel_captures cancel_actuations
    call request_shutdown begin_shutdown_sequence finalize_shutdown_sequence ShutdownPhase-discrete
    all_conveyors_stopped Constants.SystemState-discrete sim_safe
ended_is_ready = refl

exit_cancels_goals_example :
    (ended.emissions
      ≡ (waiting_line fault_stop).emissions ++ cancellations (waiting_line fault_stop))
    × (ended.master.ledger ≡ (waiting_line fault_stop).master.ledger)
    × (ended.station_cycles ≡ (waiting_line fault_stop).station_cycles)
    × (ended.actuation_cycles ≡ (waiting_line fault_stop).actuation_cycles)
exit_cancels_goals_example =
    exit_cancels_goals ℕ (waiting_line fault_stop) asks_shutdown 5 (λ h. cc) ended_is_ready

-- The capture is cancelled then.
ending_cancels : ended.emissions ≡ capture_goal_canceled "ca" ∷ []
unfolding ai_vision_inspection.Master.Flow.Steps.step operated cancel_captures cancel_actuations
    call request_shutdown begin_shutdown_sequence finalize_shutdown_sequence ShutdownPhase-discrete
    all_conveyors_stopped Constants.SystemState-discrete sim_safe
ending_cancels = refl

ignored : (step (waiting_line fault_stop) late 5).emissions ≡ []
unfolding ai_vision_inspection.Master.Flow.Steps.step handle_capture_result active_cycle Dict.get
    Constants.StationId-discrete Constants.SystemState-discrete String-discrete
ignored = refl

job_is_known : Dict.get String-discrete "job" actuating.actuation_cycles ≡ some job
unfolding Dict.get String-discrete
job_is_known = refl

abbrev no_identity : ActuationResult
no_identity = record { product_id = product; success = true; actuation_id = "" }

abbrev after_no_identity : FlowNode
after_no_identity = handle_actuation_result actuating "job" "command" (some no_identity) 5

untrusted_actuation_stops_example :
    (after_no_identity.master.system_state ≡ fault_stop)
    × (after_no_identity.master.ledger ≡ actuating.master.ledger)
    × (after_no_identity.station_cycles ≡ actuating.station_cycles)
    × (after_no_identity.actuation_cycles ≡ actuating.actuation_cycles)
    × (after_no_identity.actuation_id_owners ≡ actuating.actuation_id_owners)
    × (after_no_identity.emissions ≡ actuating.emissions)
untrusted_actuation_stops_example =
    untrusted_actuation_stops actuating "job" "command" job (some no_identity) 5 job_is_known refl
      (inr (inr refl))
