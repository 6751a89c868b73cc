-- ===== src/Master/Operation/Running/Quiet.antt =====
-- master_node.py: which calls set the line running.
use ai_vision_inspection.Base.{
  ℕ, String, Bool, true, false, Option, none, some, ◌≡◌, ◌≢◌, ◌⊎◌, inl, inr, Option-cases, sym, ◌∙◌,
  refl, arith,
}
use ai_vision_inspection.Constants.{SystemState, SystemState-discrete, run_sys, paused, PauseReason}
use ai_vision_inspection.Constants
use ai_vision_inspection.Master.SystemFsm
use ai_vision_inspection.Master.SystemFsm.Safety.{apply-starts}
use ai_vision_inspection.Master.SystemFsm.{
  SystemEvent, SystemEvent-discrete, SystemTransition, decide_system_transition, find_rule,
  from_rule, fault_rule, transitions, apply_system_event, entered, all_conveyors_running,
  critical_fault, estop_asserted, start_request, resume_request, device_recovered,
}
use ai_vision_inspection.Master.Operation.{
  MasterNode, RecoveryPolicy, equipment_check_required, line_clear_required, blocked, apply_event,
  request_all_conveyors_stop, request_conveyor_run,
}
use ai_vision_inspection.Master.Operation.Requests.{
  request_run, confirm_all_conveyors_running, report_run_failed, request_pause,
  request_recoverable_device_pause, request_resume,
}
use ai_vision_inspection.Master.Operation.Recovery.{
  report_pause_failed, latched, report_critical_fault, report_estop_asserted, request_reset,
  advance_command_epoch, report_reset_succeeded, report_reset_failed, EquipmentUpdate,
  updated_equipment, update_equipment_snapshot, confirm_line_cleared,
}
use ai_vision_inspection.Master.Operation.Deadlines.{
  resume_after_queue_recovery, finalize_shutdown_sequence, confirm_all_conveyors_stopped,
  after_stop, stop_entered, waiting, pause_line, begin_shutdown_sequence, request_shutdown,
  check_pause_deadline, check_run_deadline, check_shutdown_deadline, check_line_deadlines,
}
use ai_vision_inspection.Master.Operation.Steps.{
  Call, call, kept, asks_run, asks_pause, asks_reset, asks_shutdown, asks_resume, asks_device_pause,
  confirms_running, confirms_stopped, run_failed, pause_failed, reset_failed, reset_succeeded,
  faults, estop, pauses, queue_recovered, deadlines, equipment, confirms_line_cleared,
}
use ai_vision_inspection.Master.Equipment.{mark_all_stopped}

abbrev Runs : MasterNode → Type 0
Runs m = m.system_state ≡ run_sys

-- The event that confirms a run.
abbrev confirms : SystemEvent → Bool
confirms all_conveyors_running = true
confirms _ = false

confirms_not : (e : SystemEvent) → confirms e ≡ false → e ≢ all_conveyors_running
confirms_not e c = ground arith

apply_event-system_state :
    (m : MasterNode) (e : SystemEvent)
    → (apply_event m e).0.system_state ≡ apply_system_event m.system_state e ""
unfolding apply_event apply_system_event
apply_event-system_state m e = elim (Option-cases (decide_system_transition m.system_state e "")) [
  | inl n ↦ ground arith
  | inr (t, n) ↦ ground arith
]

apply_event-Quiet :
    (m : MasterNode) (e : SystemEvent) → confirms e ≡ false → Runs (apply_event m e).0 → Runs m
apply_event-Quiet m e c r = elim (SystemState-discrete m.system_state run_sys) [
  | yes p ↦ p
  | no q ↦ absurd (
      confirms_not e c
        (apply-starts m.system_state e "" (sym (apply_event-system_state m e) ∙ r) q).0)
]

-- A confirmation leads to RUN_SYS only when a run was waited for.
confirm_all_conveyors_running-waited :
    (m : MasterNode)
    → Runs (confirm_all_conveyors_running m).0
    → Runs m ⊎ (m.pending_run_confirmation ≡ true)
unfolding confirm_all_conveyors_running
confirm_all_conveyors_running-waited m r = ground arith

report_run_failed-Quiet : (m : MasterNode) → Runs (report_run_failed m).0 → Runs m
unfolding report_run_failed
report_run_failed-Quiet m r = ground (
  arith,
  apply_event-Quiet m SystemFsm.start_failed refl,
  apply_event-Quiet m SystemFsm.resume_failed refl,
)

request_pause-Quiet : (m : MasterNode) (now : ℕ) → Runs (request_pause m now).0 → Runs m
unfolding request_pause request_all_conveyors_stop
request_pause-Quiet m now r = ground (arith, apply_event-Quiet m SystemFsm.pause_request refl)

report_pause_failed-Quiet :
    (m : MasterNode) (timed_out : Bool) (now : ℕ)
    → Runs (report_pause_failed m timed_out now).0
    → Runs m
unfolding report_pause_failed request_all_conveyors_stop
report_pause_failed-Quiet m timed_out now r = ground (
  arith,
  apply_event-Quiet (record m { recovery_policy = equipment_check_required })
      SystemFsm.pause_timeout refl,
  apply_event-Quiet (record m { recovery_policy = equipment_check_required }) SystemFsm.pause_failed
      refl,
)

report_estop_asserted-Quiet :
    (m : MasterNode) (now : ℕ) → Runs (report_estop_asserted m now).0 → Runs m
unfolding report_estop_asserted request_all_conveyors_stop
report_estop_asserted-Quiet m now r = ground (
  arith,
  apply_event-Quiet
      (record m { recovery_policy = equipment_check_required; pending_run_confirmation = false })
      estop_asserted refl,
)

latched-Quiet :
    (m : MasterNode) (policy : RecoveryPolicy) (now : ℕ) → Runs (latched m policy now).0 → Runs m
unfolding latched request_all_conveyors_stop
latched-Quiet m policy now r = ground (
  arith,
  apply_event-Quiet (record m { recovery_policy = policy; pending_run_confirmation = false })
      critical_fault refl,
)

request_reset-Quiet : (m : MasterNode) (now : ℕ) → Runs (request_reset m now).0 → Runs m
unfolding request_reset advance_command_epoch
request_reset-Quiet m now r = ground (arith, apply_event-Quiet m SystemFsm.reset_request refl)

report_reset_succeeded-Quiet :
    (m : MasterNode) (line_cleared : Bool) → Runs (report_reset_succeeded m line_cleared).0 → Runs m
unfolding report_reset_succeeded
report_reset_succeeded-Quiet m line_cleared r = ground (
  arith,
  apply_event-Quiet m SystemFsm.reset_succeeded_empty_line refl,
  apply_event-Quiet m SystemFsm.reset_succeeded_in_place refl,
)

report_reset_failed-Quiet :
    (m : MasterNode) (timed_out : Bool) → Runs (report_reset_failed m timed_out).0 → Runs m
unfolding report_reset_failed
report_reset_failed-Quiet m timed_out r = ground (
  arith,
  apply_event-Quiet m SystemFsm.reset_timeout refl,
  apply_event-Quiet m SystemFsm.reset_failed refl,
)

pause_line-Quiet : (m : MasterNode) (now : ℕ) → Runs (pause_line m now) → Runs m
unfolding pause_line request_all_conveyors_stop
pause_line-Quiet m now r =
    ground (arith, apply_event-Quiet m SystemFsm.recoverable_device_fault refl)

confirm_line_cleared-Quiet :
    (m : MasterNode) (operator_id : String) → Runs (confirm_line_cleared m operator_id).0 → Runs m
unfolding confirm_line_cleared
confirm_line_cleared-Quiet m operator_id r = ground (arith)

request_run-Quiet : (m : MasterNode) (now : ℕ) → Runs (request_run m now).0 → Runs m
unfolding request_run request_conveyor_run
request_run-Quiet m now r = ground (arith, apply_event-Quiet m start_request refl)

request_resume-Quiet :
    (m : MasterNode) (automatic : Bool) (now : ℕ) → Runs (request_resume m automatic now).0 → Runs m
unfolding request_resume request_conveyor_run
request_resume-Quiet m automatic now r =
    ground
      (arith, apply_event-Quiet m resume_request refl, apply_event-Quiet m device_recovered refl)

device_pause-Quiet :
    (m n : MasterNode) (reason : PauseReason) (now : ℕ) (done : Bool)
    → request_recoverable_device_pause m reason now ≡ some (n, done)
    → Runs n
    → Runs m
unfolding request_recoverable_device_pause request_all_conveyors_stop
device_pause-Quiet m n reason now done h r =
    ground (arith, apply_event-Quiet m SystemFsm.recoverable_device_fault refl)

report_critical_fault-Quiet :
    (m n : MasterNode) (policy : RecoveryPolicy) (now : ℕ) (done : Bool)
    → report_critical_fault m policy now ≡ some (n, done)
    → Runs n
    → Runs m
unfolding report_critical_fault
report_critical_fault-Quiet m n policy now done h r = ground (arith, latched-Quiet m policy now)

update_equipment_snapshot-Quiet :
    (m : MasterNode) (u : EquipmentUpdate) (now : ℕ)
    → Runs (update_equipment_snapshot m u now)
    → Runs m
unfolding update_equipment_snapshot
update_equipment_snapshot-Quiet m u now r = ground (
  arith,
  report_estop_asserted-Quiet (record m { equipment = updated_equipment m.equipment u }) now,
)

resume_after_queue_recovery-Quiet :
    (m : MasterNode) (now : ℕ) → Runs (resume_after_queue_recovery m now) → Runs m
unfolding resume_after_queue_recovery
resume_after_queue_recovery-Quiet m now r = ground (arith, request_resume-Quiet m true now)

after_stop-Quiet : (m : MasterNode) (now : ℕ) → Runs (after_stop m now) → Runs m
unfolding finalize_shutdown_sequence
after_stop-Quiet m now r = ground (arith, resume_after_queue_recovery-Quiet m now)

stop_entered-Quiet :
    (m : MasterNode) (now : ℕ)
    → Runs (stop_entered now (apply_event m SystemFsm.all_conveyors_stopped))
    → Runs m
stop_entered-Quiet m now r =
    let n = (apply_event m SystemFsm.all_conveyors_stopped).0 in
    let v = apply_event-Quiet m SystemFsm.all_conveyors_stopped refl in
    ground (
      arith,
      v,
      after_stop-Quiet n now,
      after_stop-Quiet (record n { health_state = Constants.NodeHealthState.ready }) now,
    )

confirm_all_conveyors_stopped-Quiet :
    (m : MasterNode) (now : ℕ) → Runs (confirm_all_conveyors_stopped m now) → Runs m
unfolding confirm_all_conveyors_stopped
confirm_all_conveyors_stopped-Quiet m now r =
    let n = record m { equipment = mark_all_stopped m.equipment; pause_deadline_ns = 0 } in
    ground (
      arith,
      latched-Quiet n line_clear_required now,
      stop_entered-Quiet n now,
      after_stop-Quiet n now,
    )

begin_shutdown_sequence-Quiet :
    (m : MasterNode) (now : ℕ) → Runs (begin_shutdown_sequence m now) → Runs m
unfolding begin_shutdown_sequence finalize_shutdown_sequence request_all_conveyors_stop
begin_shutdown_sequence-Quiet m now r = ground (arith, request_pause-Quiet (waiting m now) now)

check_pause_deadline-Quiet : (m : MasterNode) (now : ℕ) → Runs (check_pause_deadline m now) → Runs m
unfolding check_pause_deadline
check_pause_deadline-Quiet m now r =
    ground (arith, report_pause_failed-Quiet (record m { pause_deadline_ns = 0 }) true now)

check_run_deadline-Quiet : (m : MasterNode) (now : ℕ) → Runs (check_run_deadline m now) → Runs m
unfolding check_run_deadline
check_run_deadline-Quiet m now r =
    ground (arith, report_run_failed-Quiet (record m { run_confirmation_deadline_ns = 0 }))

check_shutdown_deadline-Quiet :
    (m : MasterNode) (now : ℕ) → Runs (check_shutdown_deadline m now) → Runs m
unfolding check_shutdown_deadline
check_shutdown_deadline-Quiet m now r = ground (
  arith,
  latched-Quiet (record m { shutdown_deadline_ns = 0; shutdown_phase = blocked })
      equipment_check_required now,
)

check_line_deadlines-Quiet : (m : MasterNode) (now : ℕ) → Runs (check_line_deadlines m now) → Runs m
unfolding check_line_deadlines
check_line_deadlines-Quiet m now r = check_pause_deadline-Quiet m now (
    check_run_deadline-Quiet (check_pause_deadline m now) now
      (check_shutdown_deadline-Quiet (check_run_deadline (check_pause_deadline m now) now) now r))

request_shutdown-Quiet : (m : MasterNode) (now : ℕ) → Runs (request_shutdown m now).0 → Runs m
unfolding request_shutdown
request_shutdown-Quiet m now r =
    ground (arith, begin_shutdown_sequence-Quiet (record m { shutdown_requested = true }) now)

kept-Quiet :
    (m : MasterNode) (o : Option (MasterNode × Bool))
    → ((n : MasterNode) (done : Bool) → o ≡ some (n, done) → Runs n → Runs m)
    → Runs (kept m o)
    → Runs m
kept-Quiet m none f r = r
kept-Quiet m (some (n, done)) f r = f n done refl r

pub call-Quiet :
    (m : MasterNode) (c : Call) (now : ℕ)
    → Runs (call m c now)
    → Runs m ⊎ ((c ≡ confirms_running) × (m.pending_run_confirmation ≡ true))
unfolding call
call-Quiet m asks_run now r = inl (request_run-Quiet m now r)
call-Quiet m asks_pause now r = inl (request_pause-Quiet m now r)
call-Quiet m asks_reset now r = inl (request_reset-Quiet m now r)
call-Quiet m asks_shutdown now r = inl (request_shutdown-Quiet m now r)
call-Quiet m (asks_resume automatic) now r = inl (request_resume-Quiet m automatic now r)
call-Quiet m (asks_device_pause reason) now r =
    inl (kept-Quiet m _ (λ n done h. device_pause-Quiet m n reason now done h) r)
call-Quiet m confirms_running now r = elim (confirm_all_conveyors_running-waited m r) [
  | inl q ↦ inl q
  | inr p ↦ inr (refl, p)
]
call-Quiet m confirms_stopped now r = inl (confirm_all_conveyors_stopped-Quiet m now r)
call-Quiet m run_failed now r = inl (report_run_failed-Quiet m r)
call-Quiet m (pause_failed timed_out) now r = inl (report_pause_failed-Quiet m timed_out now r)
call-Quiet m (reset_failed timed_out) now r = inl (report_reset_failed-Quiet m timed_out r)
call-Quiet m (reset_succeeded line_cleared) now r =
    inl (report_reset_succeeded-Quiet m line_cleared r)
call-Quiet m (faults policy) now r =
    inl (kept-Quiet m _ (λ n done h. report_critical_fault-Quiet m n policy now done h) r)
call-Quiet m estop now r = inl (report_estop_asserted-Quiet m now r)
call-Quiet m pauses now r = inl (pause_line-Quiet m now r)
call-Quiet m queue_recovered now r = inl (resume_after_queue_recovery-Quiet m now r)
call-Quiet m deadlines now r = inl (check_line_deadlines-Quiet m now r)
call-Quiet m (equipment update) now r = inl (update_equipment_snapshot-Quiet m update now r)
call-Quiet m (confirms_line_cleared operator_id) now r =
    inl (confirm_line_cleared-Quiet m operator_id r)
