-- ===== src/Common/NodeBase/Epochs.antt =====
-- node_base.py: the runs of a node's handlers, and how its command epoch and its session go along them.
use ai_vision_inspection.Base.{ℕ, ◌≤◌, String, Bool, List, Option, arith}
use ai_vision_inspection.Common.NodeBase.{NodeBase, SystemCommand, MasterHeartbeat}
use ai_vision_inspection.Common.NodeBase.Heartbeat.{handle_master_heartbeat, check_master_heartbeat}
use ai_vision_inspection.Common.NodeBase.Commands.{handle_system_command, commanded}
use ai_vision_inspection.Common.NodeBase.Initialize.{
  NodeInitializationOutcome, InitializeRequest, initialized, execute_cached, execute_initialize,
  handle_initialize_goal,
}

-- One callback of the executor.
pub data Step (is_uuid4 : String → Bool) : NodeBase → NodeBase → Type 0 where
  heartbeat :
      {n : NodeBase} (now : ℕ) (m : MasterHeartbeat)
      → Step is_uuid4 n (handle_master_heartbeat n now m)
  watchdog : {n : NodeBase} (now : ℕ) → Step is_uuid4 n (check_master_heartbeat n now)
  system_command :
      {n : NodeBase} (m : SystemCommand) → Step is_uuid4 n (handle_system_command is_uuid4 n m).0
  initialize_goal :
      {n : NodeBase} (r : InitializeRequest)
      → Step is_uuid4 n (handle_initialize_goal is_uuid4 n r).0
  initialize :
      {n : NodeBase} (r : InitializeRequest) (cancel : Bool) (missing : List String)
      (outcome : Option NodeInitializationOutcome) (hook_returns : Bool)
      → Step is_uuid4 n (execute_initialize n r cancel missing outcome hook_returns).0

-- The callbacks that ran, the last one at the end.
pub data Run (is_uuid4 : String → Bool) (n : NodeBase) : NodeBase → Type 0 where
  started : Run is_uuid4 n n
  then_step : {m k : NodeBase} → Run is_uuid4 n m → Step is_uuid4 m k → Run is_uuid4 n k

module _ (is_uuid4 : String → Bool) where
  command_epoch-Step : {n k : NodeBase} → Step is_uuid4 n k → n.command_epoch ≤ k.command_epoch
  unfolding handle_master_heartbeat check_master_heartbeat handle_system_command commanded
      execute_initialize execute_cached initialized handle_initialize_goal
  command_epoch-Step (heartbeat now m) = ground arith
  command_epoch-Step (watchdog now) = ground arith
  command_epoch-Step (system_command m) = ground arith
  command_epoch-Step (initialize_goal r) = ground arith
  command_epoch-Step (initialize r cancel missing outcome hook_returns) = ground arith

  -- The command epoch of a node never goes down, whichever callbacks run.
  command_epoch-monotone :
      (n : NodeBase) {k : NodeBase} → Run is_uuid4 n k → n.command_epoch ≤ k.command_epoch
  command_epoch-monotone n started = omega arith
  command_epoch-monotone n (then_step run step) =
      ground (arith, command_epoch-monotone n run, command_epoch-Step step)
