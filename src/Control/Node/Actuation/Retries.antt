-- ===== src/Control/Node/Actuation/Retries.antt =====
-- control_node.py: what a first and a repeated actuation write to the line.
use ai_vision_inspection.Base.{
  ℕ, ◌+◌, ◌*◌, ◌≤◌, ◌≡◌, refl, arith, Bool, true, String, List, [], ◌∷◌, ◌++◌, some, none, Option,
  Result, ok, raise, Text, codes, ap, ◌∙◌, if◌then◌else◌,
}
use ai_vision_inspection.Constants.{run_sys, pausing}
use ai_vision_inspection.Common.Idempotency.{new, replay, inspect}
use ai_vision_inspection.Common.Idempotency.Replay.{
  inspect-remember, inspect-new, remember-conflict, inspect_twice,
}
use ai_vision_inspection.Common.NodeBase.{Profile, sim, hardware}
use ai_vision_inspection.Common.NodeBase.Commands.{validate_command_header}
use ai_vision_inspection.Common.NodeBase.Initialize.{GoalEnd, goal_succeeded, goal_aborted}
use ai_vision_inspection.Control.Protocol.{is_ascii, decode_frame}
use ai_vision_inspection.Control.Node.{
  ControlNode, SendError, ActuationValues, send_mega, sent, actuation_key, command_fields,
  next_mega_sequence, decimal,
}
use ai_vision_inspection.Control.Node.Replies.{wait_for_mega}
use ai_vision_inspection.Control.Node.Reading.{wait_for_mega-Kept}
use ai_vision_inspection.Control.Node.Sending.{IsPlain, send_mega-decodes}
use ai_vision_inspection.Control.Node.Actuation.{
  ActuateRequest, Surroundings, answered, hardware_values, actuate, decided_actuation,
  execute_actuation,
}

-- What an actuation does not change.
abbrev Stable : ControlNode → ControlNode → Type 0
Stable n m = (m.base ≡ n.base) × (m.actuation_results ≡ n.actuation_results)

send_mega-Stable :
    (n : ControlNode) (operation : Text) (values : List ℕ)
    → Stable n (send_mega n operation values).0
unfolding send_mega sent
send_mega-Stable n operation values = ground arith

answered-Stable :
    (r : ActuateRequest) (w : Surroundings) (s : ControlNode × Result SendError ℕ)
    → Stable s.0 (answered r w s).0
answered-Stable r w (m, raise e) = (refl, refl)
answered-Stable r w (m, ok sequence) =
    let k =
      wait_for_mega-Kept (actuation_key (decimal sequence)) (w.now + w.timeout_ms * 1000000) m w.now
        w.frames in
    (k.0, k.3)

actuate-Stable :
    (p : Profile) (n : ControlNode) (r : ActuateRequest) (w : Surroundings)
    → Stable n (actuate p n r w).0
unfolding actuate
actuate-Stable sim n r w = (refl, refl)
actuate-Stable hardware n r w =
    let s = send_mega n (codes "ACTUATE") (r.actuator_command ∷ []) in
    ground
      (arith, send_mega-Stable n (codes "ACTUATE") (r.actuator_command ∷ []), answered-Stable r w s)

-- The node that has written the frame of an actuation.
abbrev pub asked : ControlNode → Text → ControlNode
asked n frame = record n {
  mega_sequence = next_mega_sequence n.mega_sequence;
  written = n.written ++ frame ∷ [];
}

-- The status that the wait for the answer to the next command ends with.
abbrev pub awaited : ControlNode → Surroundings → ControlNode × Option Text
awaited m w =
    wait_for_mega (actuation_key (decimal m.mega_sequence)) (w.now + w.timeout_ms * 1000000) m w.now
      w.frames

actuate_IsPlain : IsPlain (codes "ACTUATE")
unfolding is_ascii
actuate_IsPlain = (refl, refl)

actuate-asks :
    (n : ControlNode) (r : ActuateRequest) (w : Surroundings)
    → n.mega_connected ≡ true
    → (frame : Text) × (decode_frame frame
        ≡ some (
            command_fields
              (next_mega_sequence n.mega_sequence)
              (codes "ACTUATE")
              (r.actuator_command ∷ [])))
      × ((actuate hardware n r w).0.written ≡ n.written ++ frame ∷ [])
      × ((actuate hardware n r w).1 ≡ hardware_values r w (awaited (asked n frame) w).1)
unfolding actuate
actuate-asks n r w c =
    let d = send_mega-decodes n (codes "ACTUATE") (r.actuator_command ∷ []) c actuate_IsPlain in
    let asked_n = asked n d.0 in
    let k =
      wait_for_mega-Kept (actuation_key (decimal asked_n.mega_sequence))
        (w.now + w.timeout_ms * 1000000) asked_n w.now w.frames in
    let run = ap (answered r w) d.1 in
    (d.0, d.2, ap (λ s. s.0.written) run ∙ k.1, ap (λ s. hardware_values r w s.1) run)

module _ (is_uuid4 : String → Bool) (n : ControlNode) (r : ActuateRequest) (w : Surroundings) where
  -- An actuation that is accepted and carried out for the first time keeps its result under its command.
  execute_actuation-stored :
      (n' : ControlNode) (v : ActuationValues) (end : GoalEnd)
      → 1 ≤ n.actuation_results.capacity
      → validate_command_header is_uuid4 n.base r.command (run_sys ∷ pausing ∷ []) ≡ none
      → (inspect n.actuation_results r.command.command_id r.command.payload_digest).1 ≡ new
      → execute_actuation is_uuid4 n r w ≡ (n', (v, end))
      → (n'.base ≡ n.base)
        × ((inspect n'.actuation_results r.command.command_id r.command.payload_digest).1
            ≡ replay v)
        × (end ≡ (if v.success then goal_succeeded else goal_aborted))
  unfolding execute_actuation decided_actuation
  execute_actuation-stored n' v end c a i h =
      let command_id = r.command.command_id in
      let digest = r.command.payload_digest in
      ground (
        arith,
        inspect-new n.actuation_results command_id digest i,
        actuate-Stable n.base.profile n r w,
        remember-conflict n.actuation_results command_id digest v,
        inspect-remember n.actuation_results n'.actuation_results command_id digest digest v c,
      )

  -- An actuation that was accepted and carried out, and that is requested again, ends in the same way with
  -- the same values; nothing is written to the line for it and no answer of the line is fetched.
  pub execute_actuation-retry :
      (n' n'' : ControlNode) (v v' : ActuationValues) (end end' : GoalEnd) (w' : Surroundings)
      → 1 ≤ n.actuation_results.capacity
      → validate_command_header is_uuid4 n.base r.command (run_sys ∷ pausing ∷ []) ≡ none
      → (inspect n.actuation_results r.command.command_id r.command.payload_digest).1 ≡ new
      → execute_actuation is_uuid4 n r w ≡ (n', (v, end))
      → execute_actuation is_uuid4 n' r w' ≡ (n'', (v', end'))
      → (v' ≡ v)
        × (end' ≡ end)
        × (n''.written ≡ n'.written)
        × (n''.mega_sequence ≡ n'.mega_sequence)
        × (n''.mega_events ≡ n'.mega_events)
        × (n''.published ≡ n'.published)
  unfolding execute_actuation decided_actuation
  execute_actuation-retry n' n'' v v' end end' w' c a i h h' =
      let command_id = r.command.command_id in
      let digest = r.command.payload_digest in
      let e = execute_actuation-stored n' v end c a i h in
      let accepted : validate_command_header is_uuid4 n'.base r.command (run_sys ∷ pausing ∷ [])
          ≡ none =
        ap (λ b. validate_command_header is_uuid4 b r.command (run_sys ∷ pausing ∷ [])) e.0 ∙ a in
      ground (
        arith,
        e,
        accepted,
        inspect_twice n'.actuation_results command_id digest command_id digest,
        remember-conflict (inspect n'.actuation_results command_id digest).0 command_id digest v,
      )

  execute_actuation-actuates :
      (n' : ControlNode) (v : ActuationValues) (end : GoalEnd)
      → validate_command_header is_uuid4 n.base r.command (run_sys ∷ pausing ∷ []) ≡ none
      → (inspect n.actuation_results r.command.command_id r.command.payload_digest).1 ≡ new
      → execute_actuation is_uuid4 n r w ≡ (n', (v, end))
      → (n'.written ≡ (actuate n.base.profile n r w).0.written)
        × (v ≡ (actuate n.base.profile n r w).1)
  unfolding execute_actuation decided_actuation
  execute_actuation-actuates n' v end a i h =
      ground
        (arith, inspect-new n.actuation_results r.command.command_id r.command.payload_digest i)

  -- On the hardware profile and an open line, a first actuation writes one frame, which decodes to the
  -- command ACTUATE with the next sequence number, and its values are those of the status that the wait
  -- for the answer with this number ends with.
  pub execute_actuation-first :
      (n' : ControlNode) (v : ActuationValues) (end : GoalEnd)
      → n.base.profile ≡ hardware
      → n.mega_connected ≡ true
      → validate_command_header is_uuid4 n.base r.command (run_sys ∷ pausing ∷ []) ≡ none
      → (inspect n.actuation_results r.command.command_id r.command.payload_digest).1 ≡ new
      → execute_actuation is_uuid4 n r w ≡ (n', (v, end))
      → (frame : Text) × (decode_frame frame
          ≡ some (
              command_fields
                (next_mega_sequence n.mega_sequence)
                (codes "ACTUATE")
                (r.actuator_command ∷ [])))
        × (n'.written ≡ n.written ++ frame ∷ [])
        × (v ≡ hardware_values r w (awaited (asked n frame) w).1)
  execute_actuation-first n' v end p o a i h =
      let d = actuate-asks n r w o in
      let e = execute_actuation-actuates n' v end a i h in
      let x = ap (λ q. actuate q n r w) p in
      (d.0, d.1, e.0 ∙ ap (λ y. y.0.written) x ∙ d.2, e.1 ∙ ap (λ y. y.1) x ∙ d.3)
