-- ===== src/Master/Operation/Running.antt =====
-- master_node.py: which calls the line needs to run, and what the events do to a run that is waited for.
pub mod Waiting
pub mod Quiet
pub mod Entry
use ai_vision_inspection.Base.{
  ℕ, String, Bool, true, false, List, [], ◌∷◌, Option, none, some, ◌≡◌, ◌≢◌, ◌⊎◌, inl, inr,
  Option-cases, refl, arith,
}
use ai_vision_inspection.Constants.{SystemState, SystemState-discrete, run_sys, paused}
use ai_vision_inspection.Constants
use ai_vision_inspection.Master.SystemFsm
use ai_vision_inspection.Master.SystemFsm.{
  SystemEvent, SystemEvent-discrete, SystemTransition, decide_system_transition, find_rule,
  from_rule, fault_rule, transitions, all_conveyors_running, critical_fault, estop_asserted,
  start_request, resume_request, device_recovered,
}
use ai_vision_inspection.Master.Operation.{
  MasterNode, RecoveryPolicy, no_recovery, equipment_check_required, apply_event,
  request_all_conveyors_stop, request_conveyor_run, ShutdownPhase, idle,
}
use ai_vision_inspection.Master.Operation.Requests.{
  request_run, confirm_all_conveyors_running, report_run_failed, request_pause, pausing_for_device,
  request_recoverable_device_pause, request_resume,
}
use ai_vision_inspection.Master.Operation.Recovery.{
  report_pause_failed, latched, report_critical_fault, report_estop_asserted, request_reset,
  advance_command_epoch, report_reset_succeeded, report_reset_failed, EquipmentUpdate,
  updated_equipment, update_equipment_snapshot, confirm_line_cleared,
}
use ai_vision_inspection.Master.Operation.Deadlines.{
  resume_after_queue_recovery, finalize_shutdown_sequence, confirm_all_conveyors_stopped,
  pause_line, begin_shutdown_sequence, request_shutdown, check_pause_deadline, check_run_deadline,
  check_shutdown_deadline, check_line_deadlines,
}
use ai_vision_inspection.Master.Operation.Steps

-- The states in which the line can wait for a run that was asked for.
abbrev pub CanWait : SystemState → Type 0
CanWait s = (s ≡ Constants.SystemState.ready) ⊎ (s ≡ paused)

-- The events that end the wait.
abbrev pub ends_wait : SystemEvent → Bool
ends_wait all_conveyors_running = true
ends_wait critical_fault = true
ends_wait estop_asserted = true
ends_wait _ = false

decide-CanWait :
    (s : SystemState) (e : SystemEvent) (t : SystemTransition)
    → CanWait s
    → decide_system_transition s e "" ≡ some t
    → CanWait t.current ⊎ (ends_wait e ≡ true)
unfolding decide_system_transition find_rule from_rule fault_rule transitions SystemState-discrete
    SystemEvent-discrete
decide-CanWait s e t w h = ground arith

-- A run is waited for only in READY and in PAUSED.
abbrev pub WaitsWell : MasterNode → Type 0
WaitsWell m = (m.pending_run_confirmation ≡ false) ⊎ CanWait m.system_state

pub apply_event-WaitsWell :
    (m : MasterNode) (e : SystemEvent)
    → WaitsWell m
    → (m.pending_run_confirmation ≡ false) ⊎ (ends_wait e ≡ false)
    → WaitsWell (apply_event m e).0
unfolding apply_event
apply_event-WaitsWell m e w f = elim (Option-cases (decide_system_transition m.system_state e "")) [
  | inl h ↦ ground arith
  | inr (t, h) ↦
      ground (arith, λ (c : CanWait m.system_state). decide-CanWait m.system_state e t c h)
]

pub apply_event-rejected :
    (m : MasterNode) (e : SystemEvent) → (apply_event m e).1 ≡ false → (apply_event m e).0 ≡ m
unfolding apply_event
apply_event-rejected m e h = elim (Option-cases (decide_system_transition m.system_state e "")) [
  | inl n ↦ ground arith
  | inr (t, n) ↦ ground arith
]

-- The event leads to the state wherever it is accepted.
abbrev pub LeadsTo : SystemEvent → SystemState → Type 0
LeadsTo e target =
    (s : SystemState) (t : SystemTransition)
    → decide_system_transition s e "" ≡ some t
    → t.current ≡ target

pub start_request-LeadsTo : LeadsTo start_request Constants.SystemState.ready
unfolding decide_system_transition find_rule from_rule fault_rule transitions SystemState-discrete
    SystemEvent-discrete
start_request-LeadsTo s t h = ground arith

pub resume_request-LeadsTo : LeadsTo resume_request paused
unfolding decide_system_transition find_rule from_rule fault_rule transitions SystemState-discrete
    SystemEvent-discrete
resume_request-LeadsTo s t h = ground arith

pub device_recovered-LeadsTo : LeadsTo device_recovered paused
unfolding decide_system_transition find_rule from_rule fault_rule transitions SystemState-discrete
    SystemEvent-discrete
device_recovered-LeadsTo s t h = ground arith

pub apply_event-LeadsTo :
    (m : MasterNode) (e : SystemEvent) (target : SystemState)
    → LeadsTo e target
    → (apply_event m e).1 ≡ true
    → (apply_event m e).0.system_state ≡ target
unfolding apply_event
apply_event-LeadsTo m e target l a =
    elim (Option-cases (decide_system_transition m.system_state e "")) [
      | inl n ↦ ground arith
      | inr (t, n) ↦ ground (arith, l m.system_state t n)
    ]
