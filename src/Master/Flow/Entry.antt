-- ===== src/Master/Flow/Entry.antt =====
-- master_node.py: what the three sensors report, and the products that they move.
use Prim.Native.String as Native
use ai_vision_inspection.Base.{
  ℕ, zero, suc, ◌+◌, ◌/◌, ◌%◌, String, String-discrete, ℤ, Option, none, some, Bool, false, ◌||◌,
  not, ltb, leb, nat_eq, if◌then◌else◌, Result, ok, raise,
}
use ai_vision_inspection.Base.Dict
use ai_vision_inspection.Constants.{a, b, run_sys, pausing, flipping, sensor3_wait}
use ai_vision_inspection.Master.Product.{ProductContext, ProductError, LockedProduct}
use ai_vision_inspection.Master.Product.Cycle.{same, state_is}
use ai_vision_inspection.Master.Product.Skip.{accept_sensor2}
use ai_vision_inspection.Master.Product.Verdicts.{lock_at_sensor3}
use ai_vision_inspection.Master.Product.Command.{sensor, sensor2, lock}
use ai_vision_inspection.Master.Ledger.{register, active_size, next_sequence}
use ai_vision_inspection.Master.Ledger.Fifo.{oldest_in_state}
use ai_vision_inspection.Master.Sensors.{
  SensorEventOutcome, SensorCall, SensorEventRegistry, accept, accepted, duplicate,
}
use ai_vision_inspection.Master.Flow.{
  FlowNode, sensor3_locked, inference_canceled, in_state, defer_start, emit, set_ledger, faulted,
  device_paused, context, applied,
}
use ai_vision_inspection.Master.Flow.Station.{Sending, start_station_cycle}
use ai_vision_inspection.Master.Flow.Actuation.{accept_locked, schedule_actuation}

-- The last decimal digits of a number.
unfoldable pub last_digits : ℕ → ℕ → String
last_digits zero value = ""
last_digits (suc k) value =
    Native.◌++◌ (last_digits k (value / 10))
      (Native.slice "0123456789" (value % 10) (value % 10 + 1))

unfoldable pub digit_count : ℕ → ℕ → ℕ
digit_count zero value = 0
digit_count (suc fuel) value =
    let rest = digit_count fuel (value / 10) in if nat_eq value 0 then 0 else suc rest

-- `f"P-{session_id[:8]}-{fifo_sequence:06d}"`. The session is ASCII; a uint64 has at most 20 digits.
unfoldable pub product_name : String → ℕ → String
product_name session sequence =
    let count = digit_count 20 sequence in
    Native.◌++◌ "P-" (
      Native.◌++◌ (Native.slice session 0 8)
        (Native.◌++◌ "-" (last_digits (if ltb count 6 then 6 else count) sequence)))

pub record SensorEvent : Type 0 where
  pub session_id : String
  pub call : SensorCall
  pub edge : ℕ
  pub estimated_step : ℤ

-- The identifiers that the handlers make, and the answer of the Action client.
pub record Fresh : Type 0 where
  pub first_id : String
  pub second_id : String
  pub sending : Sending

abbrev accepts_sensors : FlowNode → Bool
accepts_sensors n = in_state n run_sys || in_state n pausing

-- A product that is on the line.
unfoldable pub entered : FlowNode → String → ℕ → Fresh → ℕ → FlowNode
entered n id sequence fresh now =
    if leb n.flow.fifo_soft_limit (active_size n.master.ledger)
    then (if in_state n run_sys then device_paused (defer_start n id a) now else defer_start n id a)
    else start_station_cycle n id sequence a fresh.first_id fresh.second_id now

abbrev registered :
    FlowNode → String → ℕ → SensorEvent → Fresh → ℕ → Result ProductError ProductContext → FlowNode
registered n id sequence e fresh now (raise x) = n
registered n id sequence e fresh now (ok c) =
    entered (applied n id (sensor 1 e.call.event_id e.estimated_step)) id sequence fresh now

-- A new product; an exception of `register` would leave the handler.
unfoldable pub register_product : FlowNode → SensorEvent → Fresh → ℕ → FlowNode
register_product n e fresh now =
    let sequence = next_sequence n.master.ledger in
    let id = product_name n.master.settings.session_id sequence in
    let (l, r) = register n.master.ledger id sequence in
    registered (set_ledger n l) id sequence e fresh now r

-- `_handle_sensor1_entry`
unfoldable pub handle_sensor1_entry : FlowNode → SensorEvent → Fresh → ℕ → FlowNode
handle_sensor1_entry n e fresh now =
    if not (accepts_sensors n)
    then n
    else if leb n.flow.fifo_hard_capacity (active_size n.master.ledger)
    then faulted n now
    else register_product n e fresh now

abbrev bypassed_at_b : Option ProductContext → Bool
bypassed_at_b none = false
bypassed_at_b (some c) = state_is c sensor3_wait

unfoldable pub at_sensor2 : FlowNode → ProductContext → Fresh → ℕ → FlowNode
at_sensor2 n c fresh now =
    if bypassed_at_b (context n c.product_id)
    then n
    else start_station_cycle n c.product_id c.fifo_sequence b fresh.first_id fresh.second_id now

abbrev sensor2_done :
    FlowNode → ProductContext → Fresh → ℕ → Result ProductError (Unit {0}) → FlowNode
sensor2_done n c fresh now (raise x) = faulted n now
sensor2_done n c fresh now (ok u) = at_sensor2 n c fresh now

-- `_handle_sensor2_entry`; a KeyError of the ledger would leave the handler.
unfoldable pub handle_sensor2_entry : FlowNode → SensorEvent → Fresh → ℕ → FlowNode
handle_sensor2_entry n e fresh now =
    if not (accepts_sensors n) then n else elim (oldest_in_state n.master.ledger flipping) [
      | none ↦ n
      | some (raise x) ↦ faulted n now
      | some (ok c) ↦
          sensor2_done (applied n c.product_id (sensor2 e.call.event_id e.estimated_step)) c fresh
            now (accept_sensor2 c e.call.event_id e.estimated_step).1
    ]

-- The rest of `_handle_sensor3_entry`, with the verdict that is locked.
unfoldable pub at_sensor3 : FlowNode → ProductContext → LockedProduct → Fresh → ℕ → FlowNode
at_sensor3 n c locked fresh now =
    schedule_actuation
      (accept_locked (emit n (inference_canceled c.product_id c.fifo_sequence none sensor3_locked))
        locked now)
      locked fresh.first_id fresh.second_id fresh.sending now

abbrev sensor3_done :
    FlowNode → ProductContext → Fresh → ℕ → Result ProductError LockedProduct → FlowNode
sensor3_done n c fresh now (raise x) = faulted n now
sensor3_done n c fresh now (ok locked) = at_sensor3 n c locked fresh now

-- `_handle_sensor3_entry`
unfoldable pub handle_sensor3_entry : FlowNode → SensorEvent → Fresh → ℕ → FlowNode
handle_sensor3_entry n e fresh now =
    if not (accepts_sensors n) then n else elim (oldest_in_state n.master.ledger sensor3_wait) [
      | none ↦ n
      | some (raise x) ↦ faulted n now
      | some (ok c) ↦
          sensor3_done (applied n c.product_id (lock e.call.event_id e.estimated_step)) c fresh now
            (lock_at_sensor3 c e.call.event_id e.estimated_step).1
    ]

unfoldable pub sensor_entry : FlowNode → ℕ → SensorEvent → Fresh → ℕ → FlowNode
sensor_entry n index e fresh now =
    if nat_eq index 1
    then handle_sensor1_entry n e fresh now
    else if nat_eq index 2
    then handle_sensor2_entry n e fresh now
    else if nat_eq index 3
    then handle_sensor3_entry n e fresh now
    else n

abbrev on_outcome :
    FlowNode → ℕ → SensorEvent → Fresh → ℕ → SensorEventRegistry × SensorEventOutcome → FlowNode
on_outcome n index e fresh now (r, duplicate) = record n { sensor_events = r }
on_outcome n index e fresh now (r, accepted) =
    if nat_eq e.edge n.flow.accepted_sensor_edge
    then sensor_entry (record n { sensor_events = r }) index e fresh now
    else record n { sensor_events = r }
on_outcome n index e fresh now (r, _) = faulted (record n { sensor_events = r }) now

-- `_handle_sensor_event`
unfoldable pub handle_sensor_event : FlowNode → SensorEvent → Fresh → ℕ → FlowNode
handle_sensor_event n e fresh now =
    if not (same e.session_id n.master.settings.session_id)
    then n
    else elim (Dict.get String-discrete e.call.sensor_id n.flow.sensor_id_to_index) [
      | none ↦ n
      | some index ↦ on_outcome n index e fresh now (accept n.sensor_events e.call)
    ]
