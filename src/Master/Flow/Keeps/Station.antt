-- ===== src/Master/Flow/Keeps/Station.antt =====
-- master_node.py: the ledger after the handlers of a station cycle.
use ai_vision_inspection.Base.{ℕ, String, Bool, ◌≡◌, arith}
use ai_vision_inspection.Constants.{StationId}
use ai_vision_inspection.Master.Product.{ProductContext}
use ai_vision_inspection.Master.Ledger.{Ledger, register_capture}
use ai_vision_inspection.Master.Ledger.Calls.{call}
use ai_vision_inspection.Master.Flow.{FlowNode, StationCycle}
use ai_vision_inspection.Master.Flow.Station.{
  own_capture, begin_cycle_of, start_station_cycle, resume_conveyor_after_capture, recovered_cycle,
  recover_cycle, pause_station_for_recovery, Sending, send_capture_goal, request_station_capture,
  maybe_request_station_capture, PositionSettled, settle, handle_position_settled,
}
use ai_vision_inspection.Master.Flow.Keeps.{IsKept, update-kept, faulted-kept, device_paused-kept}

module _ (P : Ledger → Type 0) (k : IsKept P) where
  register_capture-kept :
      (l : Ledger) (capture id : String) (s : StationId)
      → P l
      → P (register_capture l capture id s).0
  unfolding call
  register_capture-kept l capture id s h = k.captures l capture id s h

  recovered_cycle-ledger :
      (n : FlowNode) (cycle : StationCycle) (s : StationId) (completed : Bool)
      → (recovered_cycle n cycle s completed).master ≡ n.master
  unfolding recovered_cycle
  recovered_cycle-ledger n cycle s completed = ground arith

  own_capture-kept :
      (n : FlowNode) (id : String) (sequence : ℕ) (s : StationId) (position capture : String)
      (now : ℕ)
      → P n.master.ledger
      → P (own_capture n id sequence s position capture now).master.ledger
  unfolding own_capture
  own_capture-kept n id sequence s position capture now h =
      grind (arith, register_capture-kept, faulted-kept P k)

  begin_cycle_of-kept :
      (n : FlowNode) (c : ProductContext) (id : String) (sequence : ℕ) (s : StationId)
      (position capture : String) (now : ℕ)
      → P n.master.ledger
      → P (begin_cycle_of n c id sequence s position capture now).master.ledger
  unfolding begin_cycle_of
  begin_cycle_of-kept n c id sequence s position capture now h =
      grind (arith, update-kept P k, faulted-kept P k, own_capture-kept)

  pub start_station_cycle-kept :
      (n : FlowNode) (id : String) (sequence : ℕ) (s : StationId) (position capture : String)
      (now : ℕ)
      → P n.master.ledger
      → P (start_station_cycle n id sequence s position capture now).master.ledger
  unfolding start_station_cycle
  start_station_cycle-kept n id sequence s position capture now h =
      grind (arith, faulted-kept P k, begin_cycle_of-kept)

  pub resume_conveyor_after_capture-kept :
      (n : FlowNode) (id : String) (s : StationId) (now : ℕ)
      → P n.master.ledger
      → P (resume_conveyor_after_capture n id s now).master.ledger
  unfolding resume_conveyor_after_capture
  resume_conveyor_after_capture-kept n id s now h = grind (arith, faulted-kept P k)

  pub recovered_cycle-kept :
      (n : FlowNode) (cycle : StationCycle) (s : StationId) (completed : Bool)
      → P n.master.ledger
      → P (recovered_cycle n cycle s completed).master.ledger
  recovered_cycle-kept n cycle s completed h = grind (arith, recovered_cycle-ledger)

  recover_cycle-kept :
      (n : FlowNode) (cycle : StationCycle) (s : StationId) (now : ℕ)
      → P n.master.ledger
      → P (recover_cycle n cycle s now).master.ledger
  unfolding recover_cycle
  recover_cycle-kept n cycle s now h =
      grind (arith, update-kept P k, faulted-kept P k, device_paused-kept P k, recovered_cycle-kept)

  pub pause_station_for_recovery-kept :
      (n : FlowNode) (s : StationId) (now : ℕ)
      → P n.master.ledger
      → P (pause_station_for_recovery n s now).master.ledger
  unfolding pause_station_for_recovery
  pause_station_for_recovery-kept n s now h =
      grind (arith, device_paused-kept P k, recover_cycle-kept)

  send_capture_goal-kept :
      (n : FlowNode) (cycle : StationCycle) (c : ProductContext) (s : StationId) (command : String)
      (sending : Sending) (now : ℕ)
      → P n.master.ledger
      → P (send_capture_goal n cycle c s command sending now).master.ledger
  unfolding send_capture_goal
  send_capture_goal-kept n cycle c s command sending now h = grind (
    arith,
    update-kept P k,
    faulted-kept P k,
    resume_conveyor_after_capture-kept,
    pause_station_for_recovery-kept,
  )

  request_station_capture-kept :
      (n : FlowNode) (id : String) (sequence : ℕ) (s : StationId) (command : String)
      (sending : Sending) (now : ℕ)
      → P n.master.ledger
      → P (request_station_capture n id sequence s command sending now).master.ledger
  unfolding request_station_capture
  request_station_capture-kept n id sequence s command sending now h =
      grind (arith, faulted-kept P k, send_capture_goal-kept)

  maybe_request_station_capture-kept :
      (n : FlowNode) (s : StationId) (command : String) (sending : Sending) (now : ℕ)
      → P n.master.ledger
      → P (maybe_request_station_capture n s command sending now).master.ledger
  unfolding maybe_request_station_capture
  maybe_request_station_capture-kept n s command sending now h =
      grind (arith, request_station_capture-kept)

  settle-kept :
      (n : FlowNode) (cycle : StationCycle) (s : StationId) (command : String) (sending : Sending)
      (now : ℕ)
      → P n.master.ledger
      → P (settle n cycle s command sending now).master.ledger
  unfolding settle
  settle-kept n cycle s command sending now h =
      grind (arith, update-kept P k, faulted-kept P k, maybe_request_station_capture-kept)

  pub handle_position_settled-kept :
      (n : FlowNode) (message : PositionSettled) (command : String) (sending : Sending) (now : ℕ)
      → P n.master.ledger
      → P (handle_position_settled n message command sending now).master.ledger
  unfolding handle_position_settled
  handle_position_settled-kept n message command sending now h =
      grind (arith, faulted-kept P k, settle-kept)
