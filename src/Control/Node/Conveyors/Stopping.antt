-- ===== src/Control/Node/Conveyors/Stopping.antt =====
-- control_node.py, node_base.py: the frames that a system command to all conveyors writes to the line.
use ai_vision_inspection.Base.{
  ◌≤◌, ◌≡◌, ◌≢◌, refl, ap, ◌∙◌, sym, arith, Bool, true, String, [], ◌∷◌, ◌++◌, some, Text, codes,
}
use mathlib.Core.List.{append_assoc}
use ai_vision_inspection.Constants.{ConveyorId, upper, lower}
use ai_vision_inspection.Common.NodeBase.{hardware, SystemCommand, pause_command, NodeBase}
use ai_vision_inspection.Common.NodeBase.Commands.{
  no_hook, every_conveyor, handle_system_command, commanded, Hook,
}
use ai_vision_inspection.Common.NodeBase.Commands.Effects.{handle_system_command-once}
use ai_vision_inspection.Control.Protocol.{is_ascii, decode_frame}
use ai_vision_inspection.Control.Node.{ControlNode, command_fields, next_mega_sequence}
use ai_vision_inspection.Control.Node.Conveyors.{
  conveyor_number, send_logged, handle_all_conveyors_command, receive_system_command,
}
use ai_vision_inspection.Control.Node.Sending.{IsPlain, send_mega-decodes}

-- The node after a command to a conveyor, with the frame that it wrote.
abbrev Commanded : ControlNode → Text → ConveyorId → Type 0
Commanded n operation conveyor_id =
    (frame : Text) × (decode_frame frame
      ≡ some (
          command_fields (next_mega_sequence n.mega_sequence) operation
            (conveyor_number conveyor_id ∷ [])))
    × (send_logged n operation conveyor_id ≡ record n {
      mega_sequence = next_mega_sequence n.mega_sequence;
      written = n.written ++ frame ∷ [];
    })

send_logged-Commanded :
    (n : ControlNode) (operation : Text) (conveyor_id : ConveyorId)
    → n.mega_connected ≡ true
    → IsPlain operation
    → Commanded n operation conveyor_id
send_logged-Commanded n operation conveyor_id c p =
    let d = send_mega-decodes n operation (conveyor_number conveyor_id ∷ []) c p in
    (d.0, d.2, ap (λ s. s.0) d.1)

stop_IsPlain : IsPlain (codes "STOP")
unfolding is_ascii
stop_IsPlain = (refl, refl)

all_conveyors-stop :
    (n : ControlNode) (m : SystemCommand)
    → n.base.profile ≡ hardware
    → n.mega_connected ≡ true
    → m.command_type ≡ pause_command
    → handle_all_conveyors_command n m
      ≡ send_logged (send_logged n (codes "STOP") upper) (codes "STOP") lower
unfolding handle_all_conveyors_command
all_conveyors-stop n m p c t = ground arith

all_conveyors-stops :
    (n : ControlNode) (m : SystemCommand)
    → n.base.profile ≡ hardware
    → n.mega_connected ≡ true
    → m.command_type ≡ pause_command
    → (first second : Text) × (decode_frame first
        ≡ some (command_fields (next_mega_sequence n.mega_sequence) (codes "STOP") (1 ∷ [])))
      × (decode_frame second
          ≡ some (
              command_fields
                (next_mega_sequence (next_mega_sequence n.mega_sequence))
                (codes "STOP")
                (2 ∷ [])))
      × ((handle_all_conveyors_command n m).written ≡ n.written ++ first ∷ second ∷ [])
all_conveyors-stops n m p c t =
    let one = send_logged-Commanded n (codes "STOP") upper c stop_IsPlain in
    let next = record n {
      mega_sequence = next_mega_sequence n.mega_sequence;
      written = n.written ++ one.0 ∷ [];
    } in
    let two = send_logged-Commanded next (codes "STOP") lower c stop_IsPlain in
    (
      one.0,
      two.0,
      one.1,
      two.1,
      ap (λ k. k.written)
            (all_conveyors-stop n m p c t
              ∙ ap (λ k. send_logged k (codes "STOP") lower) one.2
              ∙ two.2)
          ∙ append_assoc n.written (one.0 ∷ []) (two.0 ∷ []),
    )

module _ (is_uuid4 : String → Bool) (n : ControlNode) (m : SystemCommand) where
  handle_system_command-profile :
      (handle_system_command is_uuid4 n.base m).0.profile ≡ n.base.profile
  unfolding handle_system_command commanded
  handle_system_command-profile = ground arith

  -- A PAUSE to all conveyors that the node of a hardware line takes writes two frames, which decode to
  -- STOP of the upper and of the lower conveyor with the next two sequence numbers.
  pub receive_system_command-stops :
      (base : NodeBase)
      → n.base.profile ≡ hardware
      → n.mega_connected ≡ true
      → m.command_type ≡ pause_command
      → handle_system_command is_uuid4 n.base m ≡ (base, every_conveyor)
      → (first second : Text) × (decode_frame first
          ≡ some (command_fields (next_mega_sequence n.mega_sequence) (codes "STOP") (1 ∷ [])))
        × (decode_frame second
            ≡ some (
                command_fields
                  (next_mega_sequence (next_mega_sequence n.mega_sequence))
                  (codes "STOP")
                  (2 ∷ [])))
        × ((receive_system_command is_uuid4 n m).written ≡ n.written ++ first ∷ second ∷ [])
  unfolding receive_system_command
  receive_system_command-stops base p c t h =
      let q = ap (λ s. s.0.profile) (sym h) ∙ handle_system_command-profile ∙ p in
      rw h (all_conveyors-stops (record n { base = base }) m q c t)

  -- A command that called a hook and is delivered again writes no frame and takes no sequence number.
  receive_system_command-once :
      (base : NodeBase) (hook : Hook)
      → 1 ≤ n.base.seen_system_commands.capacity
      → handle_system_command is_uuid4 n.base m ≡ (base, hook)
      → hook ≢ no_hook
      → (n' : ControlNode) → n'.base ≡ base
      → ((receive_system_command is_uuid4 n' m).written ≡ n'.written)
        × ((receive_system_command is_uuid4 n' m).mega_sequence ≡ n'.mega_sequence)
  unfolding receive_system_command
  receive_system_command-once base hook r h k n' e =
      let again = handle_system_command is_uuid4 base m in
      ground (
        arith,
        handle_system_command-once is_uuid4 n.base base again.0 m hook again.1 r h k refl,
        ap (λ b. handle_system_command is_uuid4 b m) e,
      )
