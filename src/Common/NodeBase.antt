-- ===== src/Common/NodeBase.antt =====
-- node_base.py: the state that every node keeps, and the messages that its handlers read. The ROS
-- entities, the executor and the counters of the node's own heartbeat are not part of the state.
pub mod Heartbeat
pub mod Commands
pub mod Profiles
pub mod Initialize
pub mod Epochs
use ai_vision_inspection.Base.{
  ℕ, ◌+◌, ◌-◌, ◌*◌, String, String-discrete, Bool, true, false, ◌&&◌, ◌||◌, not, is_empty, equals,
  leb, ltb, nat_eq, if◌then◌else◌, List, [], ◌∷◌, Option, none, some, Result, ok, raise, Text,
  codes, length,
}
use ai_vision_inspection.Constants.{
  NodeHealthState, NodeHealthState-discrete, ready, recovering, degraded, fault, SystemState,
  SystemState-discrete, boot, initializing, run_sys, pausing, paused, fault_stop, resetting,
  ErrorCode, node_init_failed, command_conflict,
}
use ai_vision_inspection.Constants
use ai_vision_inspection.Common.Idempotency.{
  IdempotencyStore, ReplayDecision, new, replay, conflict, inspect, remember,
}

pub data Profile : Type 0 where
  sim hardware : Profile

-- The message CommandHeader; `session_id` is the one of its header.
pub record CommandHeader : Type 0 where
  pub session_id : String
  pub command_epoch : ℕ
  pub command_id : String
  pub payload_digest : String

pub record SystemCommand : Type 0 where
  pub command : CommandHeader
  pub command_type : ℕ
  pub target_conveyor_id : ℕ

-- SystemCommand.command_type
abbrev pub pause_command : ℕ
pause_command = 1

abbrev pub resume_command : ℕ
resume_command = 2

abbrev pub reset_command : ℕ
reset_command = 3

abbrev pub all_conveyors : ℕ
all_conveyors = 0

pub record MasterHeartbeat : Type 0 where
  pub interface_version : String
  pub session_id : String
  pub command_epoch : ℕ
  pub master_instance_id : String
  pub system_state : ℕ

-- `SystemState(value)`; `none` is the ValueError.
abbrev pub system_state_of : ℕ → Option SystemState
system_state_of value =
    if nat_eq value 0
    then some boot
    else if nat_eq value 1
    then some initializing
    else if nat_eq value 2
    then some Constants.ready
    else if nat_eq value 3
    then some run_sys
    else if nat_eq value 4
    then some pausing
    else if nat_eq value 5
    then some paused
    else if nat_eq value 6
    then some fault_stop
    else if nat_eq value 7
    then some resetting
    else none

-- What decides an initialization request, next to its id.
pub record Signature : Type 0 where
  pub retry_of_request_id : String
  pub session_id : String
  pub config_version : String
  pub config_digest : String
  pub expected_interface_version : String

pub data InitReason : Type 0 where
  payload_differs canceled version_differs config_required cleanup_failed : InitReason
  missing_keys : List String → InitReason
  resources_raised : InitReason
  outcome_reason : String → InitReason

-- The values of an InitializeNode result that its request decides.
pub record InitValues : Type 0 where
  pub success : Bool
  pub error_code : ErrorCode
  pub reason : InitReason
  pub retryable : Bool

pub record NodeBase : Type 0 where
  pub is_master : Bool
  pub profile : Profile
  pub interface_version : String
  pub master_heartbeat_timeout_ms : ℕ
  pub health_state : NodeHealthState
  pub session_id : String
  pub config_version : String
  pub config_digest : String
  pub command_epoch : ℕ
  pub system_state : SystemState
  pub last_master_heartbeat_ns : Option ℕ
  pub last_master_instance_id : String
  pub initialize_requests : List (String × (Signature × InitValues))
  pub initialize_in_progress : Bool
  pub seen_system_commands : IdempotencyStore Bool
