-- ===== src/Common/NodeBase/Commands/Effects.antt =====
-- node_base.py: which system commands take effect.
use ai_vision_inspection.Base.{◌≤◌, String, Bool, true, false, is_empty, ◌≡◌, ◌≢◌, arith}
use ai_vision_inspection.Common.Idempotency.{new, replay, inspect}
use ai_vision_inspection.Common.Idempotency.Replay.{inspect-remember, inspect-new}
use ai_vision_inspection.Common.NodeBase.{NodeBase, SystemCommand}
use ai_vision_inspection.Common.NodeBase.Commands.{
  is_sha256_hex, Hook, no_hook, handle_system_command, commanded,
}

module _ (is_uuid4 : String → Bool) where
  -- A hook is called only for a command of the node's session, with a UUID and a digest, whose id is not
  -- stored and whose epoch is not below the node's; the node's epoch becomes that of the command.
  handle_system_command-effect :
      (n n' : NodeBase) (m : SystemCommand) (hook : Hook)
      → handle_system_command is_uuid4 n m ≡ (n', hook)
      → hook ≢ no_hook
      → (m.command.session_id ≡ n.session_id)
        × (is_empty n.session_id ≡ false)
        × (is_uuid4 m.command.command_id ≡ true)
        × (is_sha256_hex m.command.payload_digest ≡ true)
        × ((inspect n.seen_system_commands m.command.command_id m.command.payload_digest).1 ≡ new)
        × (n.command_epoch ≤ m.command.command_epoch)
        × (n'.command_epoch ≡ m.command.command_epoch)
  unfolding handle_system_command commanded
  handle_system_command-effect n n' m hook h c = ground arith

  -- The store answers such a command with a replay afterwards.
  handle_system_command-stored :
      (n n' : NodeBase) (m : SystemCommand) (hook : Hook)
      → 1 ≤ n.seen_system_commands.capacity
      → handle_system_command is_uuid4 n m ≡ (n', hook)
      → hook ≢ no_hook
      → ((inspect n'.seen_system_commands m.command.command_id m.command.payload_digest).1
          ≡ replay true)
        × (n'.session_id ≡ n.session_id)
  unfolding handle_system_command commanded
  handle_system_command-stored n n' m hook r h c =
      let s = (inspect n.seen_system_commands m.command.command_id m.command.payload_digest).0 in
      ground (
        arith,
        inspect-new n.seen_system_commands m.command.command_id m.command.payload_digest,
        inspect-remember s n'.seen_system_commands m.command.command_id m.command.payload_digest
            m.command.payload_digest true,
      )

  -- A command whose hook was called and that is delivered again calls no hook, and leaves the epoch, the
  -- system state and the health of the node as they are.
  pub handle_system_command-once :
      (n n' n'' : NodeBase) (m : SystemCommand) (hook hook' : Hook)
      → 1 ≤ n.seen_system_commands.capacity
      → handle_system_command is_uuid4 n m ≡ (n', hook)
      → hook ≢ no_hook
      → handle_system_command is_uuid4 n' m ≡ (n'', hook')
      → (hook' ≡ no_hook)
        × (n''.command_epoch ≡ n'.command_epoch)
        × (n''.system_state ≡ n'.system_state)
        × (n''.health_state ≡ n'.health_state)
  unfolding handle_system_command commanded
  handle_system_command-once n n' n'' m hook hook' r h c h' = ground (
    arith,
    handle_system_command-stored n n' m hook r h c,
    handle_system_command-effect n n' m hook h c,
  )
