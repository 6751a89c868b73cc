-- ===== src/Common/NodeBase/Heartbeat.antt =====
-- node_base.py: the master's heartbeat, its watchdog and the readiness that a node reports. The clock is
-- an argument, in nanoseconds.
use ai_vision_inspection.Base.{
  ℕ, ◌-◌, ◌*◌, String, String-discrete, Bool, true, false, ◌&&◌, not, is_empty, equals, leb, ltb,
  if◌then◌else◌, Option, none, some,
}
use ai_vision_inspection.Constants.{NodeHealthState-discrete, ready, degraded, fault, SystemState}
use ai_vision_inspection.Common.NodeBase.{MasterHeartbeat, system_state_of, NodeBase}

abbrev heartbeat_state : NodeBase → ℕ → Option SystemState → NodeBase
heartbeat_state n now none = record n { health_state = fault }
heartbeat_state n now (some s) = record n { system_state = s; last_master_heartbeat_ns = some now }

unfoldable pub handle_master_heartbeat : NodeBase → ℕ → MasterHeartbeat → NodeBase
handle_master_heartbeat n now m =
    if not (equals String-discrete m.interface_version n.interface_version)
    then n
    else if not (is_empty n.session_id) && not (equals String-discrete m.session_id n.session_id)
    then n
    else if ltb m.command_epoch n.command_epoch
    then n
    else heartbeat_state
        (record n {
          command_epoch = m.command_epoch;
          last_master_instance_id = m.master_instance_id;
        })
        now (system_state_of m.system_state)

-- `elapsed_ms <= timeout`, in nanoseconds.
unfoldable pub master_heartbeat_alive : NodeBase → ℕ → Bool
master_heartbeat_alive n now = if n.is_master then true else elim n.last_master_heartbeat_ns [
  | none ↦ false
  | some last ↦ leb (now - last) (n.master_heartbeat_timeout_ms * 1000000)
]

unfoldable pub check_master_heartbeat : NodeBase → ℕ → NodeBase
check_master_heartbeat n now =
    if equals NodeHealthState-discrete n.health_state ready && not (master_heartbeat_alive n now)
    then record n { health_state = degraded }
    else n

-- The field `ready` of the answer to GetNodeStatus.
unfoldable pub status_ready : NodeBase → ℕ → String → Bool
status_ready n now session_id =
    equals NodeHealthState-discrete n.health_state ready
    && (not (is_empty session_id) && equals String-discrete session_id n.session_id)
    && master_heartbeat_alive n now
