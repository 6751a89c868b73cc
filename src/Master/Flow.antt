-- ===== src/Master/Flow.antt =====
-- master_node.py: the products on the line, from the three sensors through the stations to the
-- actuator, on top of the state in Master/Operation. The profile is `hardware`. The identifiers that
-- `new_uuid` makes, the clock and the answers of the Action clients are arguments; log events and the
-- texts of the faults are left out. What the node sends is a list of emissions.
pub mod Station
pub mod Capture
pub mod Report
pub mod Cancel
pub mod Actuation
pub mod Entry
pub mod Recovery
pub mod Reset
pub mod Timeout
pub mod Steps
pub mod Keeps
pub mod Calls
pub mod Frozen
pub mod Preserved
pub mod Latched
pub mod Shutdown
pub mod Capacity
pub mod Earned
pub mod Identity
use ai_vision_inspection.Base.{
  ℕ, ◌+◌, ◌*◌, String, List, [], ◌∷◌, ◌++◌, Option, none, some, Bool, true, false, equals,
  if◌then◌else◌, Result, ok, raise,
}
use ai_vision_inspection.Base.Dict
use ai_vision_inspection.Constants.{
  StationId, a, b, StationId-discrete, ConveyorId, upper, lower, SystemState, SystemState-discrete,
  device_recovery_manual,
}
use ai_vision_inspection.Common.Idempotency.{IdempotencyStore}
use ai_vision_inspection.Master.Product.{ProductContext, ProductError, LockedProduct}
use ai_vision_inspection.Master.Product.Command.{Command}
use ai_vision_inspection.Master.Ledger.{Ledger, Owner-discrete, get_by_id}
use ai_vision_inspection.Master.Ledger.Calls.{update}
use ai_vision_inspection.Master.Reorder.{ReorderBuffer}
use ai_vision_inspection.Master.Sensors.{SensorEventRegistry}
use ai_vision_inspection.Master.Operation.{MasterNode}
use ai_vision_inspection.Master.Operation.Requests.{request_recoverable_device_pause}
use ai_vision_inspection.Master.Operation.Recovery.{fault_stopped}

pub data StationCyclePhase : Type 0 where
  waiting_position capture_goal waiting_capture_result resume_pending : StationCyclePhase

unfoldable pub StationCyclePhase-discrete : Discrete StationCyclePhase
StationCyclePhase-discrete = hlevel

pub data ActuationPhase : Type 0 where
  goal_pending waiting_result completed : ActuationPhase

unfoldable pub ActuationPhase-discrete : Discrete ActuationPhase
ActuationPhase-discrete = hlevel

-- A goal handle is only its presence.
pub record StationCycle : Type 0 where
  pub product_id : String
  pub fifo_sequence : ℕ
  pub station_id : StationId
  pub conveyor_id : ConveyorId
  pub position_command_id : String
  pub capture_id : String
  pub phase : StationCyclePhase
  pub deadline_ns : ℕ
  pub has_goal_handle : Bool

pub record ActuationCycle : Type 0 where
  pub product_id : String
  pub fifo_sequence : ℕ
  pub actuator_job_id : String
  pub command_id : String
  pub phase : ActuationPhase
  pub deadline_ns : ℕ
  pub has_goal_handle : Bool

pub record FlowSettings : Type 0 where
  pub fifo_soft_limit : ℕ
  pub fifo_hard_capacity : ℕ
  pub sensor_id_to_index : List (String × ℕ)
  pub accepted_sensor_edge : ℕ
  pub position_timeout_ms : ℕ
  pub capture_timeout_ms : ℕ
  pub conveyor_resume_timeout_ms : ℕ
  pub actuation_timeout_ms : ℕ
  pub completed_context_retention_ms : ℕ
  pub skip_station_b_after_station_a_ng : Bool
  pub camera_ids_a : List String
  pub camera_ids_b : List String

pub data CancelReason : Type 0 where
  station_a_terminal_ng sensor3_locked : CancelReason

-- The goal of an actuation; the flag says PASS_THROUGH, and otherwise DIVERT_NG.
pub record ActuationGoal : Type 0 where
  pub product_id : String
  pub fifo_sequence : ℕ
  pub sensor3_event_id : String
  pub actuator_job_id : String
  pub command_id : String
  pub pass_through : Bool

-- A message, or a call of an Action client.
pub data Emission : Type 0 where
  inference_canceled : String → ℕ → Option StationId → CancelReason → Emission
  result_locked : LockedProduct → Emission
  conveyor_resume : ConveyorId → ℕ → Emission
  capture_goal_sent : String → ℕ → StationId → String → String → Emission
  capture_goal_canceled : String → Emission
  actuation_goal_canceled : String → Emission
  actuation_goal_sent : ActuationGoal → Emission

-- A product at a station.
abbrev pub Scope : Type 0
Scope = String × StationId

abbrev pub Scopes : Type 0
Scopes = List (Scope × Unit {0})

pub record FlowNode : Type 0 where
  pub master : MasterNode
  pub flow : FlowSettings
  pub station_cycles : List (StationId × StationCycle)
  pub actuation_cycles : List (String × ActuationCycle)
  pub deferred_station_starts : Scopes
  pub deferred_capture_resumes : Scopes
  pub vision_outage_affected : Scopes
  pub vision_outage_residual : Scopes
  pub sensor_events : SensorEventRegistry
  pub result_reorder : ReorderBuffer
  pub actuation_id_owners : IdempotencyStore String
  pub next_context_prune_ns : ℕ
  pub emissions : List Emission

abbrev pub in_state : FlowNode → SystemState → Bool
in_state n s = equals SystemState-discrete n.master.system_state s

abbrev pub cycle_at : FlowNode → StationId → Option StationCycle
cycle_at n s = Dict.get StationId-discrete s n.station_cycles

abbrev pub set_cycle : FlowNode → StationId → StationCycle → FlowNode
set_cycle n s c = record n { station_cycles = Dict.put StationId-discrete s c n.station_cycles }

abbrev pub pop_cycle : FlowNode → StationId → FlowNode
pop_cycle n s = record n { station_cycles = Dict.pop StationId-discrete s n.station_cycles }

abbrev pub phase_is : StationCycle → StationCyclePhase → Bool
phase_is c p = equals StationCyclePhase-discrete c.phase p

abbrev pub is_station_b : StationId → Bool
is_station_b a = false
is_station_b b = true

abbrev pub conveyor_of : StationId → ConveyorId
conveyor_of a = upper
conveyor_of b = lower

abbrev pub cameras_of : FlowSettings → StationId → List String
cameras_of f a = f.camera_ids_a
cameras_of f b = f.camera_ids_b

abbrev pub defer_start : FlowNode → String → StationId → FlowNode
defer_start n id s = record n {
  deferred_station_starts = Dict.put Owner-discrete (id, s) tt n.deferred_station_starts;
}

abbrev pub discard_start : FlowNode → String → StationId → FlowNode
discard_start n id s = record n {
  deferred_station_starts = Dict.pop Owner-discrete (id, s) n.deferred_station_starts;
}

abbrev pub defer_resume : FlowNode → String → StationId → FlowNode
defer_resume n id s = record n {
  deferred_capture_resumes = Dict.put Owner-discrete (id, s) tt n.deferred_capture_resumes;
}

abbrev pub discard_resume : FlowNode → String → StationId → FlowNode
discard_resume n id s = record n {
  deferred_capture_resumes = Dict.pop Owner-discrete (id, s) n.deferred_capture_resumes;
}

abbrev pub emit : FlowNode → Emission → FlowNode
emit n e = record n { emissions = n.emissions ++ e ∷ [] }

abbrev pub set_ledger : FlowNode → Ledger → FlowNode
set_ledger n l = record n { master = record n.master { ledger = l } }

-- `_fault_stop`
unfoldable pub faulted : FlowNode → ℕ → FlowNode
faulted n now = record n { master = fault_stopped n.master now }

abbrev with_master : FlowNode → Option (MasterNode × Bool) → FlowNode
with_master n none = n
with_master n (some (m, done)) = record n { master = m }

-- `request_recoverable_device_pause(reason, pause_reason=DEVICE_RECOVERY_MANUAL)`
unfoldable pub device_paused : FlowNode → ℕ → FlowNode
device_paused n now =
    with_master n (request_recoverable_device_pause n.master device_recovery_manual now)

abbrev pub context : FlowNode → String → Option ProductContext
context n id = get_by_id n.master.ledger id

-- A call on the context of a product, whether it returns or raises.
abbrev pub applied : FlowNode → String → Command → FlowNode
applied n id x = set_ledger n (update n.master.ledger id x)

-- `try: context.method(...) except ProductFlowError: self._fault_stop(...); return`, and what follows.
abbrev pub tried :
    {A : Type 0}
    → FlowNode
    → String
    → Command
    → Result ProductError A
    → ℕ
    → (FlowNode → FlowNode)
    → FlowNode
tried n id x (raise e) now next = faulted (applied n id x) now
tried n id x (ok v) now next = next (applied n id x)

abbrev pub ms : ℕ → ℕ → ℕ
ms now timeout = now + timeout * 1000000
