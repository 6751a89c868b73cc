-- ===== src/Master/Flow/Station.antt =====
-- master_node.py: the cycle of a product at a station, up to the request of its capture.
use ai_vision_inspection.Base.{
  ℕ, ℕ_discrete, String, Option, none, some, Bool, true, false, ◌&&◌, not, is_some, nat_eq,
  if◌then◌else◌, ok, raise,
}
use ai_vision_inspection.Base.Dict
use ai_vision_inspection.Constants.{StationId, a, b, run_sys, fault_stop}
use ai_vision_inspection.Master.Product.{ProductContext, station, result_completed}
use ai_vision_inspection.Master.Product.Cycle.{
  same, begin_station_cycle, mark_position_settled, can_request_capture, mark_capture_requested,
}
use ai_vision_inspection.Master.Product.Command.{
  begin_cycle, position_settled, capture_requested, recover, bypass, recover_station,
}
use ai_vision_inspection.Master.Ledger.{get, register_capture}
use ai_vision_inspection.Master.Flow.{
  StationCycle, waiting_position, capture_goal, resume_pending, FlowNode, conveyor_resume,
  capture_goal_sent, in_state, cycle_at, set_cycle, pop_cycle, phase_is, is_station_b, conveyor_of,
  defer_start, discard_start, defer_resume, emit, set_ledger, faulted, device_paused, applied,
  tried, ms,
}

abbrev sensor_of : StationId → ℕ
sensor_of a = 1
sensor_of b = 2

abbrev new_cycle : FlowNode → String → ℕ → StationId → String → String → ℕ → StationCycle
new_cycle n id sequence s position capture now = record {
  product_id = id;
  fifo_sequence = sequence;
  station_id = s;
  conveyor_id = conveyor_of s;
  position_command_id = position;
  capture_id = capture;
  phase = waiting_position;
  deadline_ns = ms now n.flow.position_timeout_ms;
  has_goal_handle = false;
}

-- Once the context has begun its cycle: the capture gets its owner, and the cycle is kept.
unfoldable pub own_capture : FlowNode → String → ℕ → StationId → String → String → ℕ → FlowNode
own_capture n id sequence s position capture now =
    let (l, r) = register_capture n.master.ledger capture id s in
    elim r [
      | raise e ↦ faulted (set_ledger n l) now
      | ok u ↦
          discard_start
            (set_cycle (set_ledger n l) s (new_cycle n id sequence s position capture now)) id s
    ]

unfoldable pub begin_cycle_of :
    FlowNode → ProductContext → String → ℕ → StationId → String → String → ℕ → FlowNode
begin_cycle_of n c id sequence s position capture now =
    if is_station_b s && c.station_b_skip_requested
    then applied n id (bypass c.station_b_skip_reason)
    else if not (is_some (Dict.get ℕ_discrete (sensor_of s) c.sensor_steps))
    then faulted n now
    else tried n id (begin_cycle s position capture) (begin_station_cycle c s position capture).1
        now (λ n'. own_capture n' id sequence s position capture now)

-- `_start_station_cycle`; the two identifiers are new.
unfoldable pub start_station_cycle :
    FlowNode → String → ℕ → StationId → String → String → ℕ → FlowNode
start_station_cycle n id sequence s position capture now =
    if not (in_state n run_sys) then defer_start n id s else elim (cycle_at n s) [
      | some existing ↦ if same existing.product_id id then n else faulted n now
      | none ↦ elim (get n.master.ledger id sequence) [
        | none ↦ faulted n now
        | some c ↦ begin_cycle_of n c id sequence s position capture now
      ]
    ]

-- `_resume_conveyor_after_capture`
unfoldable pub resume_conveyor_after_capture : FlowNode → String → StationId → ℕ → FlowNode
resume_conveyor_after_capture n id s now = elim (cycle_at n s) [
  | none ↦ faulted n now
  | some cycle ↦
      if not (same cycle.product_id id)
      then faulted n now
      else let n' = set_cycle n s (record cycle {
        phase = resume_pending;
        deadline_ns = ms now n.flow.conveyor_resume_timeout_ms;
      }) in
        if not (in_state n' run_sys)
        then defer_resume n' id s
        else emit n' (conveyor_resume cycle.conveyor_id n.master.command_epoch)
]

-- A recovered context: with a result it only waits for its conveyor, otherwise it starts again.
unfoldable pub recovered_cycle : FlowNode → StationCycle → StationId → Bool → FlowNode
recovered_cycle n cycle s true =
    defer_resume (set_cycle n s (record cycle { phase = resume_pending; deadline_ns = 0 }))
      cycle.product_id s
recovered_cycle n cycle s false = defer_start (pop_cycle n s) cycle.product_id s

unfoldable pub recover_cycle : FlowNode → StationCycle → StationId → ℕ → FlowNode
recover_cycle n cycle s now = elim (get n.master.ledger cycle.product_id cycle.fifo_sequence) [
  | none ↦ device_paused n now
  | some c ↦
      tried n cycle.product_id (recover s) (recover_station c s).1 now
        (λ n'. device_paused (recovered_cycle n' cycle s (result_completed (station c s))) now)
]

-- `_pause_station_for_recovery`
unfoldable pub pause_station_for_recovery : FlowNode → StationId → ℕ → FlowNode
pause_station_for_recovery n s now = if in_state n fault_stop then n else elim (cycle_at n s) [
  | none ↦ device_paused n now
  | some cycle ↦ recover_cycle n cycle s now
]

-- What the client of an Action does with a goal.
pub data Sending : Type 0 where
  server_unavailable sending_raises sent : Sending

abbrev goal_sending : FlowNode → StationCycle → StationId → String → Sending → ℕ → FlowNode
goal_sending n cycle s command sent now =
    emit n (capture_goal_sent cycle.product_id cycle.fifo_sequence s cycle.capture_id command)
goal_sending n cycle s command _ now = pause_station_for_recovery n s now

abbrev is_unavailable : Sending → Bool
is_unavailable server_unavailable = true
is_unavailable _ = false

-- The goal of a capture for a product and a cycle that are known.
unfoldable pub send_capture_goal :
    FlowNode → StationCycle → ProductContext → StationId → String → Sending → ℕ → FlowNode
send_capture_goal n cycle c s command sending now =
    if is_station_b s && c.station_b_skip_requested
    then (if phase_is cycle resume_pending
        then n
        else resume_conveyor_after_capture n cycle.product_id s now)
    else if is_unavailable sending
    then pause_station_for_recovery n s now
    else tried n cycle.product_id (capture_requested s cycle.capture_id command)
        (mark_capture_requested c s cycle.capture_id command).1 now
        (λ n'.
          goal_sending
            (set_cycle n' s (record cycle {
              phase = capture_goal;
              deadline_ns = ms now n.flow.capture_timeout_ms;
            }))
            cycle s command sending now)

-- `_request_station_capture`
unfoldable pub request_station_capture :
    FlowNode → String → ℕ → StationId → String → Sending → ℕ → FlowNode
request_station_capture n id sequence s command sending now = elim (cycle_at n s) [
  | none ↦ faulted n now
  | some cycle ↦ elim (get n.master.ledger id sequence) [
    | none ↦ faulted n now
    | some c ↦
        if not (same cycle.product_id id)
        then faulted n now
        else send_capture_goal n cycle c s command sending now
  ]
]

-- `_maybe_request_station_capture`
unfoldable pub maybe_request_station_capture :
    FlowNode → StationId → String → Sending → ℕ → FlowNode
maybe_request_station_capture n s command sending now = elim (cycle_at n s) [
  | none ↦ n
  | some cycle ↦ elim (get n.master.ledger cycle.product_id cycle.fifo_sequence) [
    | none ↦ n
    | some c ↦
        if not (can_request_capture c s)
        then n
        else request_station_capture n cycle.product_id cycle.fifo_sequence s command sending now
  ]
]

pub record PositionSettled : Type 0 where
  pub session_id : String
  pub conveyor_id : ℕ

abbrev station_of : ℕ → Option StationId
station_of raw = if nat_eq raw 1 then some a else if nat_eq raw 2 then some b else none

-- The position of a product that its cycle waits for.
unfoldable pub settle : FlowNode → StationCycle → StationId → String → Sending → ℕ → FlowNode
settle n cycle s command sending now =
    elim (get n.master.ledger cycle.product_id cycle.fifo_sequence) [
      | none ↦ faulted n now
      | some c ↦
          if is_station_b s && c.station_b_skip_requested
          then n
          else tried n cycle.product_id (position_settled s cycle.position_command_id)
              (mark_position_settled c s cycle.position_command_id).1 now
              (λ n'. maybe_request_station_capture n' s command sending now)
    ]

-- `_handle_position_settled`
unfoldable pub handle_position_settled :
    FlowNode → PositionSettled → String → Sending → ℕ → FlowNode
handle_position_settled n message command sending now =
    if not (same message.session_id n.master.settings.session_id)
    then n
    else elim (station_of message.conveyor_id) [
      | none ↦ faulted n now
      | some s ↦ if in_state n fault_stop then n else elim (cycle_at n s) [
        | none ↦ n
        | some cycle ↦
            if not (phase_is cycle waiting_position)
            then n
            else settle n cycle s command sending now
      ]
    ]
