-- ===== src/Master/Worker.antt =====
-- worker_supervision.py: what the master knows of one worker node. Times are nanoseconds of a
-- monotonic clock.

pub mod Evidence
pub mod Heartbeats
use ai_vision_inspection.Base.{
  ℕ, ◌+◌, String, String-discrete, Bool, true, false, ◌&&◌, ◌||◌, not, is_empty, equals, ltb, leb,
  nat_eq, if◌then◌else◌,
}
use ai_vision_inspection.Constants.{NodeHealthState, NodeHealthState-discrete, starting}
use ai_vision_inspection.Constants

pub data NodeId : Type 0 where
  master control vision log : NodeId

pub data WorkerInitPhase : Type 0 where
  idle waiting_goal_response waiting_result waiting_status retry_wait ready : WorkerInitPhase

pub record HeartbeatUpdate : Type 0 where
  pub accepted : Bool
  pub restarted : Bool
  pub reason : String

pub record WorkerRuntimeState : Type 0 where
  pub worker_id : NodeId
  pub phase : WorkerInitPhase
  pub attempt : ℕ
  pub request_id : String
  pub retry_of_request_id : String
  pub deadline_ns : ℕ
  pub retry_due_ns : ℕ
  pub status_request_id : String
  pub status_poll_due_ns : ℕ
  pub action_ready : Bool
  pub status_verified : Bool
  pub is_ready : Bool
  pub status_node_instance_id : String
  pub heartbeat_node_instance_id : String
  pub interface_version : String
  pub software_version : String
  pub active_session_id : String
  pub command_epoch : ℕ
  pub status_heartbeat_sequence : ℕ
  pub status_health_state : NodeHealthState
  pub heartbeat_health_state : NodeHealthState
  pub status_ready : Bool
  pub status_master_heartbeat_alive : Bool
  pub heartbeat_sequence : ℕ
  pub heartbeat_received_ns : ℕ
  pub heartbeat_session_id : String
  pub last_error_code : ℕ
  pub last_reason : String
  pub manual_intervention_required : Bool

-- `WorkerRuntimeState(worker_id)`
abbrev pub new_worker : NodeId → WorkerRuntimeState
new_worker id = record {
  worker_id = id;
  phase = idle;
  attempt = 0;
  request_id = "";
  retry_of_request_id = "";
  deadline_ns = 0;
  retry_due_ns = 0;
  status_request_id = "";
  status_poll_due_ns = 0;
  action_ready = false;
  status_verified = false;
  is_ready = false;
  status_node_instance_id = "";
  heartbeat_node_instance_id = "";
  interface_version = "";
  software_version = "";
  active_session_id = "";
  command_epoch = 0;
  status_heartbeat_sequence = 0;
  status_health_state = starting;
  heartbeat_health_state = starting;
  status_ready = false;
  status_master_heartbeat_alive = false;
  heartbeat_sequence = 0;
  heartbeat_received_ns = 0;
  heartbeat_session_id = "";
  last_error_code = 0;
  last_reason = "";
  manual_intervention_required = false;
}

unfoldable pub begin_attempt : WorkerRuntimeState → String → ℕ → ℕ → ℕ → WorkerRuntimeState
begin_attempt w request_id attempt now_ns timeout_ns = record w {
  phase = waiting_goal_response;
  attempt = attempt;
  retry_of_request_id = w.request_id;
  request_id = request_id;
  deadline_ns = now_ns + timeout_ns;
  retry_due_ns = 0;
  status_request_id = "";
  status_poll_due_ns = 0;
  action_ready = false;
  status_verified = false;
  is_ready = false;
  last_error_code = 0;
  last_reason = "";
  manual_intervention_required = false;
}

unfoldable pub mark_goal_accepted : WorkerRuntimeState → WorkerRuntimeState
mark_goal_accepted w = record w { phase = waiting_result }

-- The result of the InitializeNode action.
pub record ActionResult : Type 0 where
  pub interface_version : String
  pub software_version : String
  pub active_session_id : String
  pub reason : String

unfoldable pub mark_action_ready : WorkerRuntimeState → ActionResult → ℕ → ℕ → WorkerRuntimeState
mark_action_ready w r now_ns timeout_ns = record w {
  phase = waiting_status;
  action_ready = true;
  interface_version = r.interface_version;
  software_version = r.software_version;
  active_session_id = r.active_session_id;
  last_reason = r.reason;
  deadline_ns = now_ns + timeout_ns;
}

unfoldable pub begin_status_check : WorkerRuntimeState → String → WorkerRuntimeState
begin_status_check w request_id = record w {
  phase = waiting_status;
  status_request_id = request_id;
  status_poll_due_ns = 0;
}

unfoldable pub schedule_status_poll : WorkerRuntimeState → ℕ → ℕ → WorkerRuntimeState
schedule_status_poll w now_ns interval_ns = record w {
  phase = waiting_status;
  status_request_id = "";
  status_poll_due_ns = now_ns + interval_ns;
}

unfoldable pub invalidate_epoch_evidence : WorkerRuntimeState → ℕ → ℕ → WorkerRuntimeState
unfolding schedule_status_poll
invalidate_epoch_evidence w now_ns interval_ns =
    let w' = record w {
      status_verified = false;
      is_ready = false;
      status_request_id = "";
      deadline_ns = 0;
    } in
    if w'.action_ready then schedule_status_poll w' now_ns interval_ns else w'

-- The answer of GetNodeStatus.
pub record NodeStatus : Type 0 where
  pub node_instance_id : String
  pub interface_version : String
  pub software_version : String
  pub active_session_id : String
  pub command_epoch : ℕ
  pub heartbeat_sequence : ℕ
  pub health_state : NodeHealthState
  pub ready : Bool
  pub master_heartbeat_alive : Bool

unfoldable pub record_status : WorkerRuntimeState → NodeStatus → WorkerRuntimeState
record_status w s = record w {
  status_verified = true;
  status_node_instance_id = s.node_instance_id;
  interface_version = s.interface_version;
  software_version = s.software_version;
  active_session_id = s.active_session_id;
  command_epoch = s.command_epoch;
  status_heartbeat_sequence = s.heartbeat_sequence;
  status_health_state = s.health_state;
  status_ready = s.ready;
  status_master_heartbeat_alive = s.master_heartbeat_alive;
}

unfoldable pub schedule_retry : WorkerRuntimeState → ℕ → ℕ → ℕ → String → Bool → WorkerRuntimeState
schedule_retry w now_ns interval_ns error_code reason manual = record w {
  phase = retry_wait;
  deadline_ns = 0;
  retry_due_ns = now_ns + interval_ns;
  status_request_id = "";
  status_poll_due_ns = 0;
  action_ready = false;
  status_verified = false;
  is_ready = false;
  last_error_code = error_code;
  last_reason = reason;
  manual_intervention_required = manual;
}

-- A heartbeat and the time at which it came in; its sequence is a uint64.
pub record Heartbeat : Type 0 where
  pub node_instance_id : String
  pub sequence : ℕ
  pub health_state : NodeHealthState
  pub interface_version : String
  pub session_id : String
  pub received_ns : ℕ

abbrev pub same_instance : WorkerRuntimeState → Heartbeat → Bool
same_instance w h = equals String-discrete w.heartbeat_node_instance_id h.node_instance_id

abbrev pub is_restart : WorkerRuntimeState → Heartbeat → Bool
is_restart w h = not (is_empty w.heartbeat_node_instance_id) && not (same_instance w h)

unfoldable pub heard : WorkerRuntimeState → Heartbeat → WorkerRuntimeState
heard w h = record w {
  heartbeat_node_instance_id = h.node_instance_id;
  heartbeat_sequence = h.sequence;
  heartbeat_health_state = h.health_state;
  interface_version = h.interface_version;
  heartbeat_session_id = h.session_id;
  heartbeat_received_ns = h.received_ns;
}

abbrev refused : String → HeartbeatUpdate
refused reason = record { accepted = false; restarted = false; reason = reason }

unfoldable pub accept_heartbeat :
    WorkerRuntimeState → Heartbeat → WorkerRuntimeState × HeartbeatUpdate
unfolding heard
accept_heartbeat w h =
    if is_empty h.node_instance_id || nat_eq h.sequence 0
    then (w, refused "invalid identity or sequence")
    else if same_instance w h && leb h.sequence w.heartbeat_sequence
    then (w, refused "stale or duplicate sequence")
    else let w' =
        if is_restart w h
        then record w { action_ready = false; status_verified = false; is_ready = false }
        else w in
      (heard w' h, record { accepted = true; restarted = is_restart w h; reason = "" })

-- `now_ns - received <= timeout_ns`, without the subtraction.
unfoldable pub heartbeat_is_fresh : WorkerRuntimeState → ℕ → ℕ → Bool
heartbeat_is_fresh w now_ns timeout_ns =
    ltb 0 w.heartbeat_received_ns && leb now_ns (w.heartbeat_received_ns + timeout_ns)

-- What the master expects of a worker.
pub record Expected : Type 0 where
  pub session_id : String
  pub interface_version : String
  pub command_epoch : ℕ
  pub now_ns : ℕ
  pub heartbeat_timeout_ns : ℕ

abbrev health_is_ready : NodeHealthState → Bool
health_is_ready s = equals NodeHealthState-discrete s NodeHealthState.ready

unfoldable pub can_mark_ready : WorkerRuntimeState → Expected → Bool
unfolding heartbeat_is_fresh
can_mark_ready w e =
    w.action_ready
    && w.status_verified
    && equals String-discrete w.status_node_instance_id w.heartbeat_node_instance_id
    && equals String-discrete w.active_session_id e.session_id
    && equals String-discrete w.heartbeat_session_id e.session_id
    && equals String-discrete w.interface_version e.interface_version
    && nat_eq w.command_epoch e.command_epoch
    && leb w.status_heartbeat_sequence w.heartbeat_sequence
    && w.status_ready
    && w.status_master_heartbeat_alive
    && health_is_ready w.status_health_state
    && health_is_ready w.heartbeat_health_state
    && heartbeat_is_fresh w e.now_ns e.heartbeat_timeout_ns

unfoldable pub mark_ready : WorkerRuntimeState → WorkerRuntimeState
mark_ready w = record w {
  phase = ready;
  is_ready = true;
  deadline_ns = 0;
  retry_due_ns = 0;
  status_poll_due_ns = 0;
}
