-- ===== src/Examples/Commands.antt =====
-- Concrete nodes for the properties of the node base.
use ai_vision_inspection.Base.{
  String, String-discrete, Bool, true, false, not, is_empty, List, [], ◌∷◌, Option, none, some, ◌≡◌,
  ◌≢◌, ◌⊎◌, refl, arith,
}
use ai_vision_inspection.Base.Dict
use ai_vision_inspection.Constants.{
  NodeHealthState, SystemState, SystemState-discrete, NodeHealthState-discrete, run_sys, pausing,
  no_error,
}
use ai_vision_inspection.Constants
use ai_vision_inspection.Common.Idempotency.{inspect, remember}
use ai_vision_inspection.Common.NodeBase.{
  hardware, SystemCommand, pause_command, all_conveyors, MasterHeartbeat, NodeBase,
}
use ai_vision_inspection.Common.NodeBase.Heartbeat.{handle_master_heartbeat}
use ai_vision_inspection.Common.NodeBase.Commands.{
  is_sha256_hex, no_hook, every_conveyor, commanded, handle_system_command,
}
use ai_vision_inspection.Common.NodeBase.Commands.Effects.{handle_system_command-once}
use ai_vision_inspection.Common.NodeBase.Epochs.{Run, started, then_step, heartbeat, system_command}
use ai_vision_inspection.Common.NodeBase.Initialize.{
  NodeInitializationOutcome, InitializeRequest, InitResult, goal_succeeded, execute_initialize,
}
use ai_vision_inspection.Common.NodeBase.Initialize.Sessions.{
  execute_initialize-session, execute_initialize-twice,
}

-- A stand-in for the UUID test.
abbrev pub some_id : String → Bool
some_id value = not (is_empty value)

abbrev pub digest : String
digest = "0123456789abcdef0123456789abcdef0123456789abcdef0123456789abcdef"

abbrev pub node : NodeBase
node = record {
  is_master = false;
  profile = hardware;
  interface_version = "2";
  master_heartbeat_timeout_ms = 2000;
  health_state = Constants.NodeHealthState.ready;
  session_id = "s";
  config_version = "v";
  config_digest = digest;
  command_epoch = 1;
  system_state = run_sys;
  last_master_heartbeat_ns = none;
  last_master_instance_id = "";
  initialize_requests = [];
  initialize_in_progress = true;
  seen_system_commands = record { capacity = 4096; entries = [] };
}

abbrev pub pause_all : SystemCommand
pause_all = record {
  command = record {
    session_id = "s";
    command_epoch = 2;
    command_id = "c";
    payload_digest = digest;
  };
  command_type = pause_command;
  target_conveyor_id = all_conveyors;
}

abbrev pub paused_node : NodeBase
paused_node = record node {
  command_epoch = 2;
  system_state = pausing;
  seen_system_commands = record { capacity = 4096; entries = ("c", (digest, true)) ∷ [] };
}

pub handles_pause : handle_system_command some_id node pause_all ≡ (paused_node, every_conveyor)
unfolding handle_system_command is_sha256_hex commanded inspect remember Dict.get Dict.put Dict.pop
    Dict.trim Dict.move_to_end String-discrete
handles_pause = refl

pub calls_hook : every_conveyor ≢ no_hook
calls_hook = λ h. cc

handles_pause_again : handle_system_command some_id paused_node pause_all ≡ (paused_node, no_hook)
unfolding handle_system_command is_sha256_hex inspect Dict.get Dict.pop Dict.move_to_end
    String-discrete
handles_pause_again = refl

handle_system_command-once_example :
    (no_hook ≡ no_hook)
    × (paused_node.command_epoch ≡ paused_node.command_epoch)
    × (paused_node.system_state ≡ paused_node.system_state)
    × (paused_node.health_state ≡ paused_node.health_state)
handle_system_command-once_example =
    handle_system_command-once some_id node paused_node paused_node pause_all every_conveyor no_hook
      (omega arith) handles_pause calls_hook handles_pause_again

abbrev beat : MasterHeartbeat
beat = record {
  interface_version = "2";
  session_id = "s";
  command_epoch = 5;
  master_instance_id = "m";
  system_state = 3;
}

abbrev two_callbacks :
    Run some_id node
      (handle_system_command some_id (handle_master_heartbeat node 9 beat) pause_all).0
two_callbacks = then_step (then_step started (heartbeat 9 beat)) (system_command pause_all)

abbrev request : InitializeRequest
request = record {
  request_id = "r";
  signature = record {
    retry_of_request_id = "";
    session_id = "t";
    config_version = "v2";
    config_digest = digest;
    expected_interface_version = "2";
  };
}

abbrev works : Option NodeInitializationOutcome
works = some (record { success = true; reason = "ok"; retryable = false; error_code = no_error })

abbrev first : NodeBase × InitResult
first = execute_initialize node request false [] works true

abbrev again : NodeBase × InitResult
again = execute_initialize first.0 request false ("key" ∷ []) none false

execute_initialize-session_example :
    ((first.1.values.success ≡ true)
      × (first.1.end ≡ goal_succeeded)
      × (first.0.session_id ≡ "t")
      × (first.1.active_session_id ≡ "t")
      × (first.0.config_version ≡ request.signature.config_version)
      × (first.0.config_digest ≡ digest)
      × (first.0.health_state ≡ Constants.NodeHealthState.ready)
      × (first.0.system_state ≡ Constants.SystemState.ready))
    ⊎ ((first.1.values.success ≡ false)
        × (first.1.end ≢ goal_succeeded)
        × (first.0.session_id ≡ "s")
        × (first.0.config_version ≡ node.config_version)
        × (first.0.config_digest ≡ digest)
        × (first.0.system_state ≡ run_sys)
        × ((first.0.health_state ≡ Constants.NodeHealthState.ready)
            ⊎ (first.0.health_state ≡ Constants.init_blocked)))
unfolding Dict.get
execute_initialize-session_example =
    execute_initialize-session node request false [] works true first.0 first.1 refl refl

execute_initialize-twice_example : (again.0 ≡ first.0) × (again.1 ≡ first.1)
unfolding Dict.get
execute_initialize-twice_example =
    execute_initialize-twice node request false [] works true first.0 again.0 first.1 again.1 false
      ("key" ∷ []) none false refl refl refl refl

abbrev nothing : List String
nothing = []
