-- ===== src/Master/Operation.antt =====
-- master_node.py: the state that decides whether the line runs, and the steps that every request takes.
-- The profile is `hardware`: Control confirms what `sim` confirms at once. Log events, the publishers and
-- the texts of reasons are left out; a published SystemCommand is its type with the command epoch. The
-- clock is an argument, in nanoseconds.
pub mod Requests
pub mod Recovery
pub mod Deadlines
pub mod Steps
pub mod Running
pub mod LineClear
pub mod Frame
pub mod Cancels
pub mod Ending
use ai_vision_inspection.Base.{
  ℕ, ◌+◌, ◌*◌, String, Bool, true, false, ◌&&◌, nat_eq, if◌then◌else◌, List, [], ◌∷◌, ◌++◌, Option,
  none, some,
}
use ai_vision_inspection.Constants.{
  NodeHealthState, recovering, fault, SystemState, SystemState-discrete, run_sys, pausing,
  fault_stop, resetting, PauseReason,
}
use ai_vision_inspection.Constants
use ai_vision_inspection.Master.SystemFsm.{SystemEvent, SystemTransition, decide_system_transition}
use ai_vision_inspection.Master.Equipment.{EquipmentSnapshot}
use ai_vision_inspection.Master.Ledger.{Ledger}
use ai_vision_inspection.Master.Ledger.Fifo.{validate_alignment}
use ai_vision_inspection.Master.Worker.{WorkerRuntimeState, Expected, can_mark_ready}

pub data RecoveryPolicy : Type 0 where
  no_recovery line_clear_required equipment_check_required retry_in_place : RecoveryPolicy

unfoldable pub RecoveryPolicy-discrete : Discrete RecoveryPolicy
RecoveryPolicy-discrete = hlevel

pub data ShutdownPhase : Type 0 where
  idle waiting_stop finalizing ready_to_exit blocked : ShutdownPhase

unfoldable pub ShutdownPhase-discrete : Discrete ShutdownPhase
ShutdownPhase-discrete = hlevel

pub data CommandType : Type 0 where
  pause resume reset : CommandType

-- What the configuration of the master fixes.
pub record Settings : Type 0 where
  pub session_id : String
  pub expected_interface_version : String
  pub node_heartbeat_timeout_ms : ℕ
  pub pause_stop_timeout_ms : ℕ
  pub conveyor_run_timeout_ms : ℕ
  pub shutdown_stop_timeout_ms : ℕ
  pub init_retry_interval_ms : ℕ
  pub hardware_mapping_confirmed : Bool
  pub station_a_cameras : ℕ
  pub station_b_cameras : ℕ

pub record MasterNode : Type 0 where
  pub settings : Settings
  pub system_state : SystemState
  pub health_state : NodeHealthState
  pub recovery_policy : RecoveryPolicy
  pub pause_reason : Option PauseReason
  pub pending_run_confirmation : Bool
  pub run_confirmation_deadline_ns : ℕ
  pub pause_deadline_ns : ℕ
  pub shutdown_deadline_ns : ℕ
  pub shutdown_requested : Bool
  pub shutdown_phase : ShutdownPhase
  pub paused_by_queue : Bool
  pub queue_recovered_pending : Bool
  pub log_spool_open : Bool
  pub command_epoch : ℕ
  pub equipment : EquipmentSnapshot
  pub ledger : Ledger
  pub worker_states : List WorkerRuntimeState
  pub system_commands : List (CommandType × ℕ)
  -- How often the goals of the Actions were to be cancelled, which the node of Master/Flow does at once.
  pub goal_cancellations : ℕ

abbrev health_of : SystemState → NodeHealthState → NodeHealthState
health_of Constants.SystemState.ready h = Constants.NodeHealthState.ready
health_of run_sys h = Constants.NodeHealthState.ready
health_of resetting h = recovering
health_of fault_stop h = fault
health_of _ h = h

abbrev apply_transition : MasterNode → Option SystemTransition → MasterNode × Bool
apply_transition m none = (m, false)
apply_transition m (some t) =
    (record m { system_state = t.current; health_state = health_of t.current m.health_state }, true)

-- The flag says that there was a transition; a rejected event changes nothing.
unfoldable pub apply_event : MasterNode → SystemEvent → MasterNode × Bool
apply_event m event = apply_transition m (decide_system_transition m.system_state event "")

abbrev pub publish_system_command : MasterNode → CommandType → MasterNode
publish_system_command m command_type = record m {
  system_commands = m.system_commands ++ (command_type, m.command_epoch) ∷ [];
}

-- `_request_all_conveyors_stop`
unfoldable pub request_all_conveyors_stop : MasterNode → ℕ → MasterNode
request_all_conveyors_stop m now =
    publish_system_command
      (record m {
        pause_deadline_ns = elim (SystemState-discrete m.system_state pausing) [
          | yes _ ↦ now + m.settings.pause_stop_timeout_ms * 1000000
          | no _ ↦ 0
        ];
      })
      pause

-- `_request_conveyor_run`
unfoldable pub request_conveyor_run : MasterNode → ℕ → MasterNode
request_conveyor_run m now = record (publish_system_command m resume) {
  run_confirmation_deadline_ns = now + m.settings.conveyor_run_timeout_ms * 1000000;
}

abbrev expected_worker : MasterNode → ℕ → Expected
expected_worker m now = record {
  session_id = m.settings.session_id;
  interface_version = m.settings.expected_interface_version;
  command_epoch = m.command_epoch;
  now_ns = now;
  heartbeat_timeout_ns = m.settings.node_heartbeat_timeout_ms * 1000000;
}

unfoldable pub all_ready : Expected → List WorkerRuntimeState → Bool
all_ready e [] = true
all_ready e (w ∷ ws) = w.is_ready && can_mark_ready w e && all_ready e ws

-- `_all_workers_ready_for_session`
unfoldable pub all_workers_ready : MasterNode → ℕ → Bool
all_workers_ready m now = all_ready (expected_worker m now) m.worker_states

abbrev is_aligned : Option Bool → Bool
is_aligned none = false
is_aligned (some b) = b

-- `_validate_fifo_alignment`; a ledger without the context of an identifier on its line would raise.
unfoldable pub fifo_aligned : MasterNode → Bool
fifo_aligned m = is_aligned (validate_alignment m.ledger)
