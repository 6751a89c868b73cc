-- ===== src/Common/NodeBase/Commands.antt =====
-- node_base.py: system commands and the check of a command's header. `is_uuid4` stands on Python's uuid
-- module and is a parameter.
pub mod Effects
use ai_vision_inspection.Base.{
  ℕ, ◌+◌, ◌-◌, ◌*◌, String, String-discrete, Bool, true, false, ◌&&◌, ◌||◌, not, is_empty, equals,
  leb, ltb, nat_eq, if◌then◌else◌, List, [], ◌∷◌, Option, none, some, Result, ok, raise, Text,
  codes, length,
}
use ai_vision_inspection.Constants.{
  NodeHealthState, NodeHealthState-discrete, ready, recovering, degraded, fault, SystemState,
  SystemState-discrete, boot, initializing, run_sys, pausing, paused, fault_stop, resetting,
  ErrorCode, node_init_failed, command_conflict,
}
use ai_vision_inspection.Constants
use ai_vision_inspection.Common.Idempotency.{
  IdempotencyStore, ReplayDecision, new, replay, conflict, inspect, remember,
}
use ai_vision_inspection.Common.NodeBase.{
  Profile, CommandHeader, SystemCommand, pause_command, resume_command, reset_command,
  all_conveyors, MasterHeartbeat, system_state_of, Signature, InitReason, InitValues, NodeBase,
}

-- `[0-9a-f]{64}`
abbrev is_lower_hex : ℕ → Bool
is_lower_hex c = leb 48 c && leb c 57 || leb 97 c && leb c 102

abbrev all_lower_hex : Text → Bool
all_lower_hex [] = true
all_lower_hex (c ∷ cs) = is_lower_hex c && all_lower_hex cs

unfoldable pub is_sha256_hex : String → Bool
is_sha256_hex value = nat_eq (length (codes value)) 64 && all_lower_hex (codes value)

-- The hook that a handler calls last; a node of the program overrides them.
pub data Hook : Type 0 where
  no_hook targeted_conveyor every_conveyor : Hook

-- The state that a command to all conveyors leaves.
unfoldable pub commanded : NodeBase → ℕ → NodeBase
commanded n command_type =
    if nat_eq command_type pause_command
    then record n { system_state = pausing }
    else if nat_eq command_type resume_command
    then record n { system_state = run_sys }
    else if nat_eq command_type reset_command
    then record n { system_state = resetting; health_state = recovering }
    else n

abbrev carried_out : NodeBase → SystemCommand → NodeBase × Hook
carried_out n m =
    if not (nat_eq m.target_conveyor_id all_conveyors)
    then (n, targeted_conveyor)
    else (commanded n m.command_type, every_conveyor)

-- `remember` raises for a command with another digest only, which `inspect` has answered before.
abbrev accepted_command :
    NodeBase → SystemCommand → {E : Type 0} → Result E (IdempotencyStore Bool) → NodeBase × Hook
accepted_command n m (raise e) = (n, no_hook)
accepted_command n m (ok store) =
    carried_out (record n { seen_system_commands = store; command_epoch = m.command.command_epoch })
      m

abbrev replayed_command :
    NodeBase → SystemCommand → IdempotencyStore Bool × ReplayDecision Bool → NodeBase × Hook
replayed_command n m (store, conflict) =
    (record n { seen_system_commands = store; health_state = fault }, no_hook)
replayed_command n m (store, replay result) = (record n { seen_system_commands = store }, no_hook)
replayed_command n m (store, new) =
    if ltb m.command.command_epoch n.command_epoch
    then (record n { seen_system_commands = store }, no_hook)
    else accepted_command n m (remember store m.command.command_id m.command.payload_digest true)

unfoldable pub handle_system_command : (String → Bool) → NodeBase → SystemCommand → NodeBase × Hook
handle_system_command is_uuid4 n m =
    if not (equals String-discrete m.command.session_id n.session_id) || is_empty n.session_id
    then (n, no_hook)
    else if not (is_uuid4 m.command.command_id) || not (is_sha256_hex m.command.payload_digest)
    then (n, no_hook)
    else replayed_command n m
        (inspect n.seen_system_commands m.command.command_id m.command.payload_digest)

abbrev one_of : SystemState → List SystemState → Bool
one_of s [] = false
one_of s (t ∷ ts) = equals SystemState-discrete s t || one_of s ts

-- Why a command is refused.
pub data Refusal : Type 0 where
  not_ready session_mismatch epoch_mismatch id_not_uuid4 digest_not_sha256 : Refusal
  state_not_allowed : SystemState → Refusal

abbrev pub refusal_code : Refusal → ErrorCode
refusal_code not_ready = node_init_failed
refusal_code _ = command_conflict

-- `none` accepts the command.
unfoldable pub validate_command_header :
    (String → Bool) → NodeBase → CommandHeader → List SystemState → Option Refusal
validate_command_header is_uuid4 n command allowed =
    if not (equals NodeHealthState-discrete n.health_state ready)
    then some not_ready
    else if not (equals String-discrete command.session_id n.session_id)
    then some session_mismatch
    else if not (nat_eq command.command_epoch n.command_epoch)
    then some epoch_mismatch
    else if not (is_uuid4 command.command_id)
    then some id_not_uuid4
    else if not (is_sha256_hex command.payload_digest)
    then some digest_not_sha256
    else if not (one_of n.system_state allowed)
    then some (state_not_allowed n.system_state)
    else none
