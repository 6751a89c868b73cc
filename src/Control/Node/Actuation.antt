-- ===== src/Control/Node/Actuation.antt =====
-- control_node.py: the actuation of a product. The UUID that the node draws and the frames that come in
-- while it waits are arguments; `is_uuid4` stands on Python's uuid module and is a parameter.
pub mod Retries
use ai_vision_inspection.Base.{
  ℕ, ◌+◌, ◌*◌, String, Bool, true, false, ◌&&◌, not, is_empty, if◌then◌else◌, List, [], ◌∷◌, Option,
  none, some, Result, ok, raise, Text, codes, nat_list_eq,
}
use ai_vision_inspection.Constants.{
  SystemState, run_sys, pausing, ErrorCode, no_error, command_conflict, actuator_failed,
}
use ai_vision_inspection.Common.Idempotency.{
  IdempotencyStore, ReplayDecision, new, replay, conflict, inspect, remember,
}
use ai_vision_inspection.Common.NodeBase.{Profile, sim, hardware, CommandHeader}
use ai_vision_inspection.Common.NodeBase.Commands.{Refusal, refusal_code, validate_command_header}
use ai_vision_inspection.Common.NodeBase.Initialize.{
  GoalResponse, accept, reject, GoalEnd, goal_succeeded, goal_aborted,
}
use ai_vision_inspection.Control.Node.{
  ActuationValues, Reason, actuation_completed, actuation_timeout, actuation_rejected,
  sim_completed, command_id_conflict, header_refused, SendError, ControlNode, decimal, send_mega,
  actuation_key,
}
use ai_vision_inspection.Control.Node.Replies.{wait_for_mega}

pub record ActuateRequest : Type 0 where
  pub command : CommandHeader
  pub product_id : String
  pub actuator_command : ℕ

unfoldable pub accept_equipment_goal : ActuateRequest → GoalResponse
accept_equipment_goal r =
    if not (is_empty r.product_id) && not (is_empty r.command.command_id) then accept else reject

-- What the world does while an actuation is carried out.
pub record Surroundings : Type 0 where
  pub now : ℕ
  pub timeout_ms : ℕ
  pub frames : List (ℕ × List Text)
  pub new_uuid : String

abbrev failure_reason : Option Text → Reason
failure_reason none = actuation_timeout
failure_reason (some status) = actuation_rejected status

abbrev is_ok : Option Text → Bool
is_ok none = false
is_ok (some status) = nat_list_eq status (codes "OK")

unfoldable pub hardware_values : ActuateRequest → Surroundings → Option Text → ActuationValues
hardware_values r w status =
    if is_ok status
    then record {
      success = true;
      product_id = r.product_id;
      actuation_id = w.new_uuid;
      error_code = no_error;
      reason = actuation_completed;
    }
    else record {
      success = false;
      product_id = r.product_id;
      actuation_id = "";
      error_code = actuator_failed;
      reason = failure_reason status;
    }

-- A line that is not open or that fails counts as no answer.
abbrev answered :
    ActuateRequest → Surroundings → ControlNode × Result SendError ℕ → ControlNode × Option Text
answered r w (n, raise e) = (n, none)
answered r w (n, ok sequence) =
    wait_for_mega (actuation_key (decimal sequence)) (w.now + w.timeout_ms * 1000000) n w.now
      w.frames

abbrev with_values :
    ActuateRequest → Surroundings → ControlNode × Option Text → ControlNode × ActuationValues
with_values r w (n, status) = (n, hardware_values r w status)

-- A command that is carried out for the first time.
unfoldable pub actuate :
    Profile → ControlNode → ActuateRequest → Surroundings → ControlNode × ActuationValues
actuate hardware n r w =
    with_values r w (answered r w (send_mega n (codes "ACTUATE") (r.actuator_command ∷ [])))
actuate sim n r w = (
  n,
  record {
    success = true;
    product_id = r.product_id;
    actuation_id = w.new_uuid;
    error_code = no_error;
    reason = sim_completed;
  },
)

abbrev refused : ErrorCode → Reason → ActuationValues
refused code reason = record {
  success = false;
  product_id = "";
  actuation_id = "";
  error_code = code;
  reason = reason;
}

abbrev goal_end : ActuationValues → GoalEnd
goal_end v = if v.success then goal_succeeded else goal_aborted

-- `remember` raises for another digest only, which `inspect` has answered with a conflict.
abbrev kept :
    ControlNode
    → ActuationValues
    → {E : Type 0} → Result E (IdempotencyStore ActuationValues)
    → ControlNode × (ActuationValues × GoalEnd)
kept n v (raise e) = (n, (v, goal_aborted))
kept n v (ok store) = (record n { actuation_results = store }, (v, goal_end v))

abbrev remembered :
    ActuateRequest → ControlNode × ActuationValues → ControlNode × (ActuationValues × GoalEnd)
remembered r (n, v) =
    kept n v (remember n.actuation_results r.command.command_id r.command.payload_digest v)

unfoldable pub decided_actuation :
    ControlNode
    → ActuateRequest
    → Surroundings
    → ReplayDecision ActuationValues
    → ControlNode × (ActuationValues × GoalEnd)
decided_actuation n r w conflict = (n, (refused command_conflict command_id_conflict, goal_aborted))
decided_actuation n r w (replay v) = remembered r (n, v)
decided_actuation n r w new = remembered r (actuate n.base.profile n r w)

unfoldable pub execute_actuation :
    (String → Bool)
    → ControlNode
    → ActuateRequest
    → Surroundings
    → ControlNode × (ActuationValues × GoalEnd)
execute_actuation is_uuid4 n r w =
    elim (validate_command_header is_uuid4 n.base r.command (run_sys ∷ pausing ∷ [])) [
      | some refusal ↦ (n, (refused (refusal_code refusal) (header_refused refusal), goal_aborted))
      | none ↦
          let inspected =
            inspect n.actuation_results r.command.command_id r.command.payload_digest in
          decided_actuation (record n { actuation_results = inspected.0 }) r w inspected.1
    ]
