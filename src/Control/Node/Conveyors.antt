-- ===== src/Control/Node/Conveyors.antt =====
-- control_node.py: the hooks that run the conveyors on a system command, and the state that the node
-- publishes again in a new session. An exception of the line is only logged.
pub mod Stopping
use ai_vision_inspection.Base.{
  ℕ, String, Bool, true, false, not, nat_eq, if◌then◌else◌, List, [], ◌∷◌, Option, none, some, Text,
  codes, Result,
}
use ai_vision_inspection.Constants.{ConveyorId, upper, lower}
use ai_vision_inspection.Common.NodeBase.{
  Profile, sim, hardware, SystemCommand, NodeBase, pause_command, resume_command,
}
use ai_vision_inspection.Common.NodeBase.Commands.{
  Hook, no_hook, targeted_conveyor, every_conveyor, handle_system_command,
}
use ai_vision_inspection.Control.Node.{ControlNode, send_mega, publish_equipment_state}

abbrev pub conveyor_number : ConveyorId → ℕ
conveyor_number upper = 1
conveyor_number lower = 2

-- `ConveyorId(value)`; `none` is the ValueError.
abbrev conveyor_of : ℕ → Option ConveyorId
conveyor_of value =
    if nat_eq value 1 then some upper else if nat_eq value 2 then some lower else none

abbrev pub send_logged : ControlNode → Text → ConveyorId → ControlNode
send_logged n operation conveyor_id = (send_mega n operation (conveyor_number conveyor_id ∷ [])).0

abbrev run_conveyor : ControlNode → Profile → ConveyorId → ControlNode
run_conveyor n sim conveyor_id = n
run_conveyor n hardware conveyor_id = send_logged n (codes "RUN") conveyor_id

unfoldable pub handle_targeted_conveyor_command : ControlNode → SystemCommand → ControlNode
handle_targeted_conveyor_command n m = elim (conveyor_of m.target_conveyor_id) [
  | none ↦ n
  | some conveyor_id ↦
      if not (nat_eq m.command_type resume_command)
      then n
      else run_conveyor n n.base.profile conveyor_id
]

-- `none` for a command that moves no conveyor.
abbrev operation_of : ℕ → Option Text
operation_of command_type =
    if nat_eq command_type pause_command
    then some (codes "STOP")
    else if nat_eq command_type resume_command
    then some (codes "RUN")
    else none

abbrev move_all : ControlNode → Profile → Option Text → ControlNode
move_all n sim operation = n
move_all n hardware none = n
move_all n hardware (some operation) = send_logged (send_logged n operation upper) operation lower

unfoldable pub handle_all_conveyors_command : ControlNode → SystemCommand → ControlNode
handle_all_conveyors_command n m = move_all n n.base.profile (operation_of m.command_type)

-- The hook that the handler of the base class calls is the one of this node.
abbrev hooked : ControlNode → SystemCommand → NodeBase × Hook → ControlNode
hooked n m (base, no_hook) = record n { base = base }
hooked n m (base, targeted_conveyor) = handle_targeted_conveyor_command (record n { base = base }) m
hooked n m (base, every_conveyor) = handle_all_conveyors_command (record n { base = base }) m

unfoldable pub receive_system_command : (String → Bool) → ControlNode → SystemCommand → ControlNode
receive_system_command is_uuid4 n m = hooked n m (handle_system_command is_uuid4 n.base m)

unfoldable pub on_initialization_succeeded : ControlNode → ControlNode
on_initialization_succeeded n = elim n.latest_equipment_state [
  | none ↦ n
  | some values ↦ publish_equipment_state n values
]
