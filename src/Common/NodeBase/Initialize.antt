-- ===== src/Common/NodeBase/Initialize.antt =====
-- node_base.py: the initialization action. What the node's own `validate_hardware_profile`,
-- `initialize_node_resources` and `on_initialization_succeeded` do is an argument; `is_uuid4` stands on
-- Python's uuid module and is a parameter.
pub mod Sessions
use ai_vision_inspection.Base.{
  String, String-discrete, Bool, true, false, ◌&&◌, ◌||◌, not, is_empty, equals, if◌then◌else◌,
  List, [], ◌∷◌, Option, none, some,
}
use ai_vision_inspection.Base.Dict
use ai_vision_inspection.Constants.{
  init_blocked, ErrorCode, no_error, node_init_failed, command_conflict, interface_version_mismatch,
}
use ai_vision_inspection.Constants
use ai_vision_inspection.Common.NodeBase.{
  Signature, InitReason, payload_differs, canceled, version_differs, config_required,
  cleanup_failed, missing_keys, resources_raised, outcome_reason, InitValues, NodeBase,
}
use ai_vision_inspection.Common.NodeBase.Commands.{is_sha256_hex}

pub record NodeInitializationOutcome : Type 0 where
  pub success : Bool
  pub reason : String
  pub retryable : Bool
  pub error_code : ErrorCode

pub record InitializeRequest : Type 0 where
  pub request_id : String
  pub signature : Signature

pub data GoalResponse : Type 0 where
  accept reject : GoalResponse

-- The terminal call on the goal handle.
pub data GoalEnd : Type 0 where
  goal_succeeded goal_aborted goal_canceled : GoalEnd

-- The result of the action: the values, and the session of the node when they were filled in.
pub record InitResult : Type 0 where
  pub values : InitValues
  pub active_session_id : String
  pub end : GoalEnd

unfoldable pub handle_initialize_goal :
    (String → Bool) → NodeBase → InitializeRequest → NodeBase × GoalResponse
handle_initialize_goal is_uuid4 n r =
    if not (is_uuid4 r.request_id) || not (is_uuid4 r.signature.session_id)
    then (n, reject)
    else if not (is_empty r.signature.retry_of_request_id)
        && not (is_uuid4 r.signature.retry_of_request_id)
    then (n, reject)
    else if equals String-discrete r.signature.retry_of_request_id r.request_id
    then (n, reject)
    else if n.initialize_in_progress
    then (n, reject)
    else (record n { initialize_in_progress = true }, accept)

abbrev init_failure : ErrorCode → InitReason → Bool → InitValues
init_failure code reason retryable = record {
  success = false;
  error_code = code;
  reason = reason;
  retryable = retryable;
}

-- `except Exception` around `initialize_node_resources`
abbrev outcome_or_failure :
    Option NodeInitializationOutcome → ErrorCode × (InitReason × (Bool × Bool))
outcome_or_failure none = (node_init_failed, (resources_raised, (true, false)))
outcome_or_failure (some o) = (o.error_code, (outcome_reason o.reason, (o.retryable, o.success)))

-- A hook that raises gives the session and the configuration back.
abbrev session_taken : NodeBase → Signature → InitReason → Bool → NodeBase × InitValues
session_taken n g reason false =
    (record n { health_state = init_blocked }, init_failure node_init_failed cleanup_failed true)
session_taken n g reason true = (
  record n {
    session_id = g.session_id;
    config_version = g.config_version;
    config_digest = g.config_digest;
    health_state = Constants.ready;
    system_state = Constants.SystemState.ready;
  },
  record { success = true; error_code = no_error; reason = reason; retryable = false },
)

abbrev resources_initialized :
    NodeBase → Signature → ErrorCode × (InitReason × (Bool × Bool)) → Bool → NodeBase × InitValues
resources_initialized n g (code, (reason, (retryable, success))) hook_returns =
    if not success
    then (record n { health_state = init_blocked }, init_failure code reason retryable)
    else session_taken n g reason hook_returns

-- An initialization that no cached answer and no cancellation ends.
unfoldable pub initialized :
    NodeBase
    → Signature
    → List String
    → Option NodeInitializationOutcome
    → Bool
    → NodeBase × InitValues
initialized n g missing outcome hook_returns =
    if not (equals String-discrete g.expected_interface_version n.interface_version)
    then (n, init_failure interface_version_mismatch version_differs false)
    else if is_empty g.config_version || not (is_sha256_hex g.config_digest)
    then (n, init_failure node_init_failed config_required true)
    else elim missing [
      | k ∷ ks ↦ (
        record n { health_state = init_blocked },
        init_failure node_init_failed (missing_keys (k ∷ ks)) true,
      )
      | [] ↦ resources_initialized n g (outcome_or_failure outcome) hook_returns
    ]

abbrev same_signature : Signature → Signature → Bool
same_signature g h =
    equals String-discrete g.retry_of_request_id h.retry_of_request_id
    && equals String-discrete g.session_id h.session_id
    && equals String-discrete g.config_version h.config_version
    && equals String-discrete g.config_digest h.config_digest
    && equals String-discrete g.expected_interface_version h.expected_interface_version

-- The flag is cleared in `finally`.
abbrev finished : NodeBase → InitValues → GoalEnd → NodeBase × InitResult
finished n v end = (
  record n { initialize_in_progress = false },
  record { values = v; active_session_id = n.session_id; end = end },
)

abbrev ended : Bool → GoalEnd
ended true = goal_succeeded
ended false = goal_aborted

abbrev stored : String → Signature → NodeBase × InitValues → NodeBase × InitResult
stored request_id g (n, v) =
    finished
      (record n {
        initialize_requests = Dict.put String-discrete request_id (g, v) n.initialize_requests;
      })
      v (ended v.success)

unfoldable pub execute_cached :
    NodeBase
    → InitializeRequest
    → Bool
    → List String
    → Option NodeInitializationOutcome
    → Bool
    → Option (Signature × InitValues)
    → NodeBase × InitResult
unfolding initialized
execute_cached n r cancel missing outcome hook_returns (some (g, v)) =
    if not (same_signature g r.signature)
    then finished n (init_failure command_conflict payload_differs false) goal_aborted
    else finished n v (ended v.success)
execute_cached n r cancel missing outcome hook_returns none =
    if cancel
    then finished n (init_failure node_init_failed canceled true) goal_canceled
    else stored r.request_id r.signature (initialized n r.signature missing outcome hook_returns)

unfoldable pub execute_initialize :
    NodeBase
    → InitializeRequest
    → Bool
    → List String
    → Option NodeInitializationOutcome
    → Bool
    → NodeBase × InitResult
unfolding execute_cached
execute_initialize n r cancel missing outcome hook_returns =
    execute_cached n r cancel missing outcome hook_returns
      (Dict.get String-discrete r.request_id n.initialize_requests)
