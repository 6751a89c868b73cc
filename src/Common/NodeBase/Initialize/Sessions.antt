-- ===== src/Common/NodeBase/Initialize/Sessions.antt =====
-- node_base.py: what an initialization does to the session of a node, and what its retry answers.
use ai_vision_inspection.Base.{
  String, String-discrete, Bool, true, false, is_empty, List, [], Option, none, some, ◌≡◌, ◌≢◌,
  arith, ◌⊎◌, ◌↔◌,
}
use ai_vision_inspection.Base.Dict
use ai_vision_inspection.Constants.{init_blocked}
use ai_vision_inspection.Constants
use ai_vision_inspection.Common.NodeBase.{NodeBase}
use ai_vision_inspection.Common.NodeBase.Commands.{is_sha256_hex}
use ai_vision_inspection.Common.NodeBase.Initialize.{
  NodeInitializationOutcome, InitializeRequest, InitResult, goal_succeeded, initialized,
  execute_cached, execute_initialize, handle_initialize_goal, accept,
}

module _ (n : NodeBase) (r : InitializeRequest) (cancel : Bool) (missing : List String)
    (outcome : Option NodeInitializationOutcome) (hook_returns : Bool) where
  -- A request that was not executed before gives the node its session and the version and the digest of its
  -- configuration, and makes it ready, when it succeeds; otherwise the session, both of the configuration
  -- and the system state stay, and the node is ready only if it was before.
  pub execute_initialize-session :
      (n' : NodeBase) (result : InitResult)
      → Dict.get String-discrete r.request_id n.initialize_requests ≡ none
      → execute_initialize n r cancel missing outcome hook_returns ≡ (n', result)
      → ((result.values.success ≡ true)
          × (result.end ≡ goal_succeeded)
          × (n'.session_id ≡ r.signature.session_id)
          × (result.active_session_id ≡ r.signature.session_id)
          × (n'.config_version ≡ r.signature.config_version)
          × (n'.config_digest ≡ r.signature.config_digest)
          × (n'.health_state ≡ Constants.NodeHealthState.ready)
          × (n'.system_state ≡ Constants.SystemState.ready))
        ⊎ ((result.values.success ≡ false)
            × (result.end ≢ goal_succeeded)
            × (n'.session_id ≡ n.session_id)
            × (n'.config_version ≡ n.config_version)
            × (n'.config_digest ≡ n.config_digest)
            × (n'.system_state ≡ n.system_state)
            × ((n'.health_state ≡ n.health_state) ⊎ (n'.health_state ≡ init_blocked)))
  unfolding execute_initialize execute_cached initialized
  execute_initialize-session n' result c h = ground arith

  -- It succeeds exactly when it is not canceled, asks for the node's interface version, names a
  -- configuration with its SHA-256, no hardware parameter is missing, and the resources and the hook of
  -- the node succeed.
  execute_initialize-success :
      Dict.get String-discrete r.request_id n.initialize_requests ≡ none
      → ((execute_initialize n r cancel missing outcome hook_returns).1.values.success ≡ true) ↔ (
          (cancel ≡ false)
          × (r.signature.expected_interface_version ≡ n.interface_version)
          × (is_empty r.signature.config_version ≡ false)
          × (is_sha256_hex r.signature.config_digest ≡ true)
          × (missing ≡ [])
          × ((o : NodeInitializationOutcome) × (outcome ≡ some o) × (o.success ≡ true))
          × (hook_returns ≡ true))
  unfolding execute_initialize execute_cached initialized
  execute_initialize-success c = ground arith

  -- A request that was executed and not canceled is answered with the same values when it is executed
  -- again, whatever its resources and hook would do then, and the node stays as it is.
  pub execute_initialize-twice :
      (n' n'' : NodeBase) (result result' : InitResult) (cancel' : Bool) (missing' : List String)
      (outcome' : Option NodeInitializationOutcome) (hook_returns' : Bool)
      → Dict.get String-discrete r.request_id n.initialize_requests ≡ none
      → cancel ≡ false
      → execute_initialize n r cancel missing outcome hook_returns ≡ (n', result)
      → execute_initialize n' r cancel' missing' outcome' hook_returns' ≡ (n'', result')
      → (n'' ≡ n') × (result' ≡ result)
  unfolding execute_initialize execute_cached
  execute_initialize-twice n' n'' result result' cancel' missing' outcome' hook_returns' c k h h' =
      let (m, v) = initialized n r.signature missing outcome hook_returns in
      ground (
        arith,
        Dict.get-put_self String-discrete r.request_id (r.signature, v) m.initialize_requests,
      )

  -- A goal is accepted exactly when its ids are UUIDs, it does not retry itself and no goal is in
  -- progress; every execution, whatever its end, leaves none in progress.
  execute_initialize-serialized :
      (is_uuid4 : String → Bool) (next : InitializeRequest)
      → (((handle_initialize_goal is_uuid4 n next).1 ≡ accept) ↔ (
          (is_uuid4 next.request_id ≡ true)
          × (is_uuid4 next.signature.session_id ≡ true)
          × ((next.signature.retry_of_request_id ≡ "")
              ⊎ (is_uuid4 next.signature.retry_of_request_id ≡ true))
          × (next.signature.retry_of_request_id ≢ next.request_id)
          × (n.initialize_in_progress ≡ false)))
        × ((execute_initialize n r cancel missing outcome hook_returns).0.initialize_in_progress
            ≡ false)
  unfolding execute_initialize execute_cached handle_initialize_goal
  execute_initialize-serialized is_uuid4 next = ground arith
