-- ===== src/Master/Flow/Keeps/Steps.antt =====
-- master_node.py: the ledger after the reports of the equipment and of the queue, after a deadline, and
-- after any step.
use ai_vision_inspection.Base.{ℕ, String, List, [], ◌∷◌, Bool, arith}
use ai_vision_inspection.Constants.{StationId, ConveyorId}
use ai_vision_inspection.Master.Ledger.{Ledger}
use ai_vision_inspection.Master.Flow.{FlowNode, StationCycle, ActuationCycle}
use ai_vision_inspection.Master.Flow.Keeps.{IsKept, faulted-kept, device_paused-kept}
use ai_vision_inspection.Master.Operation.Frame.{
  snapshot-ledger, confirm_stopped-ledger, pause_line-ledger, resume_after-ledger,
  check_line-ledger, call-ledger,
}
use ai_vision_inspection.Master.Flow.Station.{Sending}
use ai_vision_inspection.Master.Flow.Recovery.{Supply}
use ai_vision_inspection.Master.Flow.Timeout.{
  confirm_pending_cycle, confirm_pending_resume, on_running, on_all_running, on_all_stopped,
  on_reset, EquipmentState, handle_equipment_state, QueueState, handle_queue_state,
  on_capture_timeout, on_cycle_timeout, check_cycle_deadline, check_cycle_deadlines,
  check_job_deadlines, prune_cutoff, prune_contexts, check_operation_deadlines,
}
use ai_vision_inspection.Master.Ledger.Calls.{call, registers}
use ai_vision_inspection.Master.Flow.Entry.{SensorEvent, Fresh, handle_sensor_event}
use ai_vision_inspection.Master.Flow.Steps.{Event, step, steps}
use ai_vision_inspection.Master.Flow.Keeps.Station.{
  pause_station_for_recovery-kept, handle_position_settled-kept,
}
use ai_vision_inspection.Master.Flow.Keeps.Capture.{
  confirm_conveyor_resumed-kept, finish_capture_failure-kept, handle_capture_feedback-kept,
  handle_capture_goal_response-kept, handle_capture_result-kept,
}
use ai_vision_inspection.Master.Flow.Keeps.Report.{
  handle_station_result-kept, handle_station_failure-kept,
}
use ai_vision_inspection.Master.Flow.Keeps.Actuation.{
  handle_actuation_goal_response-kept, handle_actuation_result-kept,
}
use ai_vision_inspection.Master.Flow.Keeps.Entry.{handle_sensor_event-kept}
use ai_vision_inspection.Master.Flow.Keeps.Recovery.{
  confirm_running-kept, confirm_reset_completed-kept, record_residency-master, operated-ledger,
}

module _ (P : Ledger → Type 0) (k : IsKept P) where
  confirm_pending_cycle-kept :
      (n : FlowNode) (s : StationId) (cycle : StationCycle) (conveyor : ConveyorId) (now : ℕ)
      → P n.master.ledger
      → P (confirm_pending_cycle n s cycle conveyor now).master.ledger
  unfolding confirm_pending_cycle
  confirm_pending_cycle-kept n s cycle conveyor now h =
      grind (arith, confirm_conveyor_resumed-kept P k)

  confirm_pending_resume-kept :
      (es : List (StationId × StationCycle)) (n : FlowNode) (conveyor : ConveyorId) (now : ℕ)
      → P n.master.ledger
      → P (confirm_pending_resume n es conveyor now).master.ledger
  unfolding confirm_pending_resume
  confirm_pending_resume-kept [] n conveyor now h = h
  confirm_pending_resume-kept ((s, cycle) ∷ es) n conveyor now h =
      confirm_pending_resume-kept es _ conveyor now
        (confirm_pending_cycle-kept n s cycle conveyor now h)

  on_running-kept :
      (n : FlowNode) (begins : Bool) (conveyor : ConveyorId) (now : ℕ)
      → P n.master.ledger
      → P (on_running n begins conveyor now).master.ledger
  unfolding on_running
  on_running-kept n begins conveyor now h = grind (arith, confirm_pending_resume-kept)

  on_all_running-kept :
      (n : FlowNode) (supply : Supply) (sending : Sending) (now : ℕ)
      → P n.master.ledger
      → P (on_all_running n supply sending now).master.ledger
  unfolding on_all_running
  on_all_running-kept n supply sending now h = grind (arith, confirm_running-kept P k)

  on_all_stopped-kept :
      (n : FlowNode) (now : ℕ) → P n.master.ledger → P (on_all_stopped n now).master.ledger
  unfolding on_all_stopped
  on_all_stopped-kept n now h = grind (arith, confirm_stopped-ledger, operated-ledger)

  on_reset-kept : (n : FlowNode) (now : ℕ) → P n.master.ledger → P (on_reset n now).master.ledger
  unfolding on_reset
  on_reset-kept n now h = grind (arith, confirm_reset_completed-kept P k)

  handle_equipment_state-kept :
      (n : FlowNode) (e : EquipmentState) (supply : Supply) (sending : Sending) (now : ℕ)
      → P n.master.ledger
      → P (handle_equipment_state n e supply sending now).master.ledger
  unfolding handle_equipment_state
  handle_equipment_state-kept n e supply sending now h = grind (
    arith, snapshot-ledger, on_running-kept, on_all_running-kept, on_all_stopped-kept,
    on_reset-kept,
  )

  handle_queue_state-kept :
      (n : FlowNode) (session : String) (state : QueueState) (now : ℕ)
      → P n.master.ledger
      → P (handle_queue_state n session state now).master.ledger
  unfolding handle_queue_state
  handle_queue_state-kept n session state now h =
      grind (arith, pause_line-ledger, resume_after-ledger)

  on_capture_timeout-kept :
      (n : FlowNode) (cycle : StationCycle) (s : StationId) (now : ℕ)
      → P n.master.ledger
      → P (on_capture_timeout n cycle s now).master.ledger
  unfolding on_capture_timeout
  on_capture_timeout-kept n cycle s now h = grind (arith, finish_capture_failure-kept P k)

  on_cycle_timeout-kept :
      (n : FlowNode) (cycle : StationCycle) (s : StationId) (now : ℕ)
      → P n.master.ledger
      → P (on_cycle_timeout n cycle s now).master.ledger
  unfolding on_cycle_timeout
  on_cycle_timeout-kept n cycle s now h = grind (
    arith,
    on_capture_timeout-kept,
    faulted-kept P k,
    device_paused-kept P k,
    pause_station_for_recovery-kept P k,
  )

  check_cycle_deadline-kept :
      (n : FlowNode) (s : StationId) (now : ℕ)
      → P n.master.ledger
      → P (check_cycle_deadline n s now).master.ledger
  unfolding check_cycle_deadline
  check_cycle_deadline-kept n s now h = grind (arith, on_cycle_timeout-kept)

  check_cycle_deadlines-kept :
      (ss : List StationId) (n : FlowNode) (now : ℕ)
      → P n.master.ledger
      → P (check_cycle_deadlines n ss now).master.ledger
  unfolding check_cycle_deadlines
  check_cycle_deadlines-kept [] n now h = h
  check_cycle_deadlines-kept (s ∷ ss) n now h =
      check_cycle_deadlines-kept ss _ now (check_cycle_deadline-kept n s now h)

  check_job_deadlines-kept :
      (es : List (String × ActuationCycle)) (n : FlowNode) (now : ℕ)
      → P n.master.ledger
      → P (check_job_deadlines n es now).master.ledger
  unfolding check_job_deadlines
  check_job_deadlines-kept [] n now h = h
  check_job_deadlines-kept ((job, cycle) ∷ es) n now h =
      grind (arith, faulted-kept P k, device_paused-kept P k, check_job_deadlines-kept es)

  prune_contexts-kept :
      (n : FlowNode) (now : ℕ) → P n.master.ledger → P (prune_contexts n now).master.ledger
  unfolding prune_contexts call
  prune_contexts-kept n now h = ground (arith, k.prunes n.master.ledger (prune_cutoff n now) h)

  check_operation_deadlines-kept :
      (n : FlowNode) (now : ℕ)
      → P n.master.ledger
      → P (check_operation_deadlines n now).master.ledger
  unfolding check_operation_deadlines
  check_operation_deadlines-kept n now h = grind (
    arith, prune_contexts-kept, check_line-ledger, check_cycle_deadlines-kept,
    check_job_deadlines-kept,
  )

  -- Every step of the line keeps the predicate, if a sensor event does.
  pub step-kept :
      {Score : Type 0} (n : FlowNode) (e : Event Score) (now : ℕ)
      → ((s : SensorEvent) (fresh : Fresh) → P (handle_sensor_event n s fresh now).master.ledger)
      → P n.master.ledger
      → P (step n e now).master.ledger
  unfolding step
  step-kept n (Event.sensor_event e fresh) now sensed h = sensed e fresh
  step-kept n (Event.position_settled m command sending) now sensed h =
      handle_position_settled-kept P k n m command sending now h
  step-kept n (Event.capture_feedback s capture blocked) now sensed h =
      handle_capture_feedback-kept P k n s capture blocked now h
  step-kept n (Event.capture_response s capture r) now sensed h =
      handle_capture_goal_response-kept P k n s capture r now h
  step-kept n (Event.capture_result s capture r) now sensed h =
      handle_capture_result-kept P k n s capture r now h
  step-kept n (Event.conveyor_resumed id s) now sensed h =
      confirm_conveyor_resumed-kept P k n id s now h
  step-kept n (Event.station_result m) now sensed h = handle_station_result-kept P k n m now h
  step-kept n (Event.station_failure m) now sensed h = handle_station_failure-kept P k n m now h
  step-kept n (Event.actuation_response job command r) now sensed h =
      handle_actuation_goal_response-kept P k n job command r now h
  step-kept n (Event.actuation_result job command r) now sensed h =
      handle_actuation_result-kept P k n job command r now h
  step-kept n (Event.equipment_state e supply sending) now sensed h =
      handle_equipment_state-kept n e supply sending now h
  step-kept n (Event.queue_state session state) now sensed h =
      handle_queue_state-kept n session state now h
  step-kept n (Event.all_running supply sending) now sensed h =
      confirm_running-kept P k n supply sending now h
  step-kept n Event.reset_completed now sensed h = confirm_reset_completed-kept P k n now h
  step-kept n Event.vision_outage now sensed h = rw (record_residency-master n.station_cycles n) h
  step-kept n Event.deadlines now sensed h = check_operation_deadlines-kept n now h
  step-kept n (Event.operation c) now sensed h = grind (arith, operated-ledger, call-ledger)

  pub steps-kept :
      {Score : Type 0}
      (registers-kept : (l : Ledger) (id : String) (sequence : ℕ)
        → P l
        → P (call l (registers id sequence)))
      (n : FlowNode) (es : List (Event Score × ℕ))
      → P n.master.ledger
      → P (steps n es).master.ledger
  unfolding steps
  steps-kept r n [] h = h
  steps-kept r n ((e, now) ∷ es) h =
      steps-kept r (step n e now) es
        (step-kept n e now (λ s fresh. handle_sensor_event-kept P k r n s fresh now h) h)
