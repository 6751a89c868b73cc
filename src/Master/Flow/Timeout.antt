-- ===== src/Master/Flow/Timeout.antt =====
-- master_node.py: the reports of the equipment and of the vision queue, and the deadlines of the
-- cycles in `_check_operation_deadlines`, which prunes the old contexts first.
use ai_vision_inspection.Base.{
  ℕ, ◌+◌, ◌-◌, ◌*◌, ltb, leb, nat_eq, String, String-discrete, List, [], ◌∷◌, map, none, some, Bool,
  true, false, ◌&&◌, not, if◌then◌else◌,
}
use ai_vision_inspection.Base.Dict
use ai_vision_inspection.Constants.{
  StationId, ConveyorId, upper, lower, resetting, paused, fault_stop,
}
use ai_vision_inspection.Master.Equipment.{
  ByConveyor, is_true, line_clear_guards_satisfied, in_place_guards_satisfied,
  all_conveyors_running, all_conveyors_stopped,
}
use ai_vision_inspection.Master.Ledger.Removal.{prune_removed}
use ai_vision_inspection.Master.Product.Cycle.{same}
use ai_vision_inspection.Master.Operation.{fifo_aligned}
use ai_vision_inspection.Master.Operation.Recovery.{EquipmentUpdate, update_equipment_snapshot}
use ai_vision_inspection.Master.Operation.Deadlines.{
  confirm_all_conveyors_stopped, pause_line, resume_after_queue_recovery, check_line_deadlines,
}
use ai_vision_inspection.Master.Flow.{
  StationCycle, ActuationCycle, waiting_position, capture_goal, waiting_capture_result,
  resume_pending, goal_pending, waiting_result, completed, FlowNode, capture_goal_canceled,
  in_state, cycle_at, set_cycle, phase_is, defer_resume, emit, set_ledger, faulted, device_paused,
  ms,
}
use ai_vision_inspection.Master.Flow.Station.{Sending, pause_station_for_recovery}
use ai_vision_inspection.Master.Flow.Capture.{confirm_conveyor_resumed, finish_capture_failure}
use ai_vision_inspection.Master.Flow.Recovery.{Supply, confirm_running, operated}
use ai_vision_inspection.Master.Flow.Reset.{confirm_reset_completed, requires_line_clear}

abbrev conveyor_eq : ConveyorId → ConveyorId → Bool
conveyor_eq upper upper = true
conveyor_eq lower lower = true
conveyor_eq _ _ = false

abbrev runs_at : ByConveyor → ConveyorId → Bool
runs_at r upper = is_true r.upper_value
runs_at r lower = is_true r.lower_value

-- One round of `_confirm_pending_resume`.
unfoldable pub confirm_pending_cycle :
    FlowNode → StationId → StationCycle → ConveyorId → ℕ → FlowNode
confirm_pending_cycle n s cycle conveyor now =
    if conveyor_eq cycle.conveyor_id conveyor && phase_is cycle resume_pending
    then confirm_conveyor_resumed n cycle.product_id s now
    else n

-- `_confirm_pending_resume`, for the cycles that there were.
unfoldable pub confirm_pending_resume :
    FlowNode → List (StationId × StationCycle) → ConveyorId → ℕ → FlowNode
confirm_pending_resume n [] conveyor now = n
confirm_pending_resume n ((s, cycle) ∷ es) conveyor now =
    confirm_pending_resume (confirm_pending_cycle n s cycle conveyor now) es conveyor now

-- The conveyor has begun to run.
unfoldable pub on_running : FlowNode → Bool → ConveyorId → ℕ → FlowNode
on_running n begins conveyor now =
    if begins then confirm_pending_resume n n.station_cycles conveyor now else n

unfoldable pub on_all_running : FlowNode → Supply → Sending → ℕ → FlowNode
on_all_running n supply sending now =
    if n.master.pending_run_confirmation && all_conveyors_running n.master.equipment
    then confirm_running n supply sending now
    else n

unfoldable pub on_all_stopped : FlowNode → ℕ → FlowNode
on_all_stopped n now =
    if all_conveyors_stopped n.master.equipment
    then operated n (confirm_all_conveyors_stopped n.master now)
    else n

abbrev reset_guards : FlowNode → Bool
reset_guards n =
    if requires_line_clear n
    then line_clear_guards_satisfied n.master.equipment
    else in_place_guards_satisfied n.master.equipment && fifo_aligned n.master

unfoldable pub on_reset : FlowNode → ℕ → FlowNode
on_reset n now =
    if in_state n resetting && reset_guards n then (confirm_reset_completed n now).0 else n

-- EquipmentState: what Control reports; an E-stop is not among it.
pub record EquipmentState : Type 0 where
  pub session_id : String
  pub update : EquipmentUpdate

-- `_handle_equipment_state`
unfoldable pub handle_equipment_state : FlowNode → EquipmentState → Supply → Sending → ℕ → FlowNode
handle_equipment_state n e supply sending now =
    if not (same e.session_id n.master.settings.session_id)
    then n
    else let was = n.master.equipment.conveyor_running in
      let r = e.update.running in
      let n1 = record n {
        master = update_equipment_snapshot n.master (record e.update { estop = none }) now;
      } in
      let n2 = on_running n1 (runs_at r upper && not (runs_at was upper)) upper now in
      let n3 = on_running n2 (runs_at r lower && not (runs_at was lower)) lower now in
      on_reset (on_all_stopped (on_all_running n3 supply sending now) now) now

pub data QueueState : Type 0 where
  enqueue_blocked accepting other_state : QueueState

-- Its capture waits for a place in the queue without a deadline.
abbrev restart_deadline : ℕ → StationCycle → StationCycle
restart_deadline deadline cycle =
    if phase_is cycle waiting_capture_result && nat_eq cycle.deadline_ns 0
    then record cycle { deadline_ns = deadline }
    else cycle

abbrev queue_accepting : FlowNode → ℕ → FlowNode
queue_accepting n now =
    let n' = record n {
      master = record n.master { queue_recovered_pending = true };
      station_cycles =
          map (λ e. (e.0, restart_deadline (ms now n.flow.capture_timeout_ms) e.1))
            n.station_cycles;
    } in
    if in_state n paused
    then record n' { master = resume_after_queue_recovery n'.master now }
    else n'

abbrev on_queue : FlowNode → QueueState → ℕ → FlowNode
on_queue n enqueue_blocked now = if n.master.paused_by_queue then n else record n {
  master =
      pause_line (record n.master { paused_by_queue = true; queue_recovered_pending = false }) now;
}
on_queue n accepting now = if n.master.paused_by_queue then queue_accepting n now else n
on_queue n other_state now = n

-- `_handle_queue_state`
unfoldable pub handle_queue_state : FlowNode → String → QueueState → ℕ → FlowNode
handle_queue_state n session state now =
    if not (same session n.master.settings.session_id)
    then n
    else if in_state n fault_stop
    then n
    else on_queue n state now

abbrev expired : ℕ → ℕ → Bool
expired deadline now = not (nat_eq deadline 0) && ltb deadline now

unfoldable pub on_capture_timeout : FlowNode → StationCycle → StationId → ℕ → FlowNode
on_capture_timeout n cycle s now =
    if n.master.paused_by_queue
    then n
    else finish_capture_failure
        (if cycle.has_goal_handle then emit n (capture_goal_canceled cycle.capture_id) else n) cycle
        s "CaptureProduct timed out" 0 now

unfoldable pub on_cycle_timeout : FlowNode → StationCycle → StationId → ℕ → FlowNode
on_cycle_timeout n cycle s now = elim cycle.phase [
  | capture_goal ↦ on_capture_timeout n cycle s now
  | waiting_capture_result ↦ on_capture_timeout n cycle s now
  | waiting_position ↦
      if runs_at n.master.equipment.conveyor_running cycle.conveyor_id
      then pause_station_for_recovery n s now
      else faulted n now
  | resume_pending ↦ device_paused (defer_resume n cycle.product_id s) now
]

unfoldable pub check_cycle_deadline : FlowNode → StationId → ℕ → FlowNode
check_cycle_deadline n s now = elim (cycle_at n s) [
  | none ↦ n
  | some cycle ↦
      if not (expired cycle.deadline_ns now)
      then n
      else let stopped = record cycle { deadline_ns = 0 } in
        on_cycle_timeout (set_cycle n s stopped) stopped s now
]

-- The cycles are shared objects: each round reads the cycle as the earlier rounds left it.
unfoldable pub check_cycle_deadlines : FlowNode → List StationId → ℕ → FlowNode
check_cycle_deadlines n [] now = n
check_cycle_deadlines n (s ∷ ss) now = check_cycle_deadlines (check_cycle_deadline n s now) ss now

abbrev on_job_timeout : FlowNode → ActuationCycle → ℕ → FlowNode
on_job_timeout n cycle now = elim cycle.phase [
  | waiting_result ↦ faulted n now
  | goal_pending ↦ device_paused n now
  | completed ↦ n
]

unfoldable pub check_job_deadlines : FlowNode → List (String × ActuationCycle) → ℕ → FlowNode
check_job_deadlines n [] now = n
check_job_deadlines n ((job, cycle) ∷ es) now =
    check_job_deadlines
      (if expired cycle.deadline_ns now
        then on_job_timeout
            (record n {
              actuation_cycles =
                  Dict.put String-discrete job (record cycle { deadline_ns = 0 })
                    n.actuation_cycles;
            })
            cycle now
        else n)
      es now

-- Before the retention has passed once, the difference is negative in the source; it is 0 here, and no
-- removal has that time either.
abbrev pub prune_cutoff : FlowNode → ℕ → ℕ
prune_cutoff n now = now - n.flow.completed_context_retention_ms * 1000000

-- The contexts of products that left the line long ago, once in a minute.
unfoldable pub prune_contexts : FlowNode → ℕ → FlowNode
prune_contexts n now =
    if leb n.next_context_prune_ns now
    then record (set_ledger n (prune_removed n.master.ledger (prune_cutoff n now)).0) {
      next_context_prune_ns = now + 60000000000;
    }
    else n

-- `_check_operation_deadlines`
unfoldable pub check_operation_deadlines : FlowNode → ℕ → FlowNode
check_operation_deadlines n now =
    let pruned = prune_contexts n now in
    let n' = record pruned { master = check_line_deadlines pruned.master now } in
    if in_state n' fault_stop
    then n'
    else let n'' = check_cycle_deadlines n' (map (λ e. e.0) n'.station_cycles) now in
      check_job_deadlines n'' n''.actuation_cycles now
