-- ===== src/Master/Flow/Frozen.antt =====
-- master_node.py: what the requests, the conveyors and the deadlines of the line leave as it is in FAULT_STOP.
use ai_vision_inspection.Base.{ℕ, String, List, [], ◌∷◌, none, Bool, false, ◌≡◌, refl, arith}
use ai_vision_inspection.Constants.{SystemState-discrete, fault_stop, StationId, ConveyorId}
use ai_vision_inspection.Master.SystemFsm.{
  SystemEvent-discrete, decide_system_transition, find_rule, from_rule, fault_rule, transitions,
  resume_failed,
}
use ai_vision_inspection.Master.SystemFsm as SystemFsm
use ai_vision_inspection.Master.Operation.{MasterNode, apply_event}
use ai_vision_inspection.Master.Operation.Requests.{
  confirm_all_conveyors_running, report_run_failed,
}
use ai_vision_inspection.Master.Operation.Recovery.{EquipmentUpdate, update_equipment_snapshot}
use ai_vision_inspection.Master.Operation.Deadlines.{
  confirm_all_conveyors_stopped, finalize_shutdown_sequence, check_pause_deadline,
  check_run_deadline, check_shutdown_deadline, check_line_deadlines,
}
use ai_vision_inspection.Master.Operation.LineClear.{latched-state}
use ai_vision_inspection.Master.Flow.{FlowNode, StationCycle, faulted}
use ai_vision_inspection.Master.Flow.Station.{Sending}
use ai_vision_inspection.Master.Flow.Capture.{confirm_conveyor_resumed}
use ai_vision_inspection.Master.Flow.Recovery.{Supply, confirm_running}
use ai_vision_inspection.Master.Flow.Reset.{record_residency}
use ai_vision_inspection.Master.Flow.Timeout.{
  confirm_pending_cycle, confirm_pending_resume, on_running, on_all_running, on_reset,
}
use ai_vision_inspection.Master.Flow.Keeps.{faulted-ledger}

-- The products, the cycles, what was put off, and what was sent are the same.
abbrev pub Frozen : FlowNode → FlowNode → Type 0
Frozen n n' =
    (n'.master.ledger ≡ n.master.ledger)
    × (n'.station_cycles ≡ n.station_cycles)
    × (n'.actuation_cycles ≡ n.actuation_cycles)
    × (n'.deferred_station_starts ≡ n.deferred_station_starts)
    × (n'.deferred_capture_resumes ≡ n.deferred_capture_resumes)
    × (n'.result_reorder ≡ n.result_reorder)
    × (n'.emissions ≡ n.emissions)

pub faulted-Frozen : (n : FlowNode) (now : ℕ) → Frozen n (faulted n now)
unfolding faulted
faulted-Frozen n now = (faulted-ledger n now, refl, refl, refl, refl, refl, refl)

pub confirm_conveyor_resumed-latched :
    (n : FlowNode) (id : String) (s : StationId) (now : ℕ)
    → n.master.system_state ≡ fault_stop
    → confirm_conveyor_resumed n id s now ≡ n
unfolding confirm_conveyor_resumed
confirm_conveyor_resumed-latched n id s now h = ground arith

pub confirm_pending_cycle-latched :
    (n : FlowNode) (s : StationId) (cycle : StationCycle) (conveyor : ConveyorId) (now : ℕ)
    → n.master.system_state ≡ fault_stop
    → confirm_pending_cycle n s cycle conveyor now ≡ n
unfolding confirm_pending_cycle
confirm_pending_cycle-latched n s cycle conveyor now h =
    ground (arith, confirm_conveyor_resumed-latched n cycle.product_id s now h)

pub confirm_pending_resume-latched :
    (n : FlowNode) (es : List (StationId × StationCycle)) (conveyor : ConveyorId) (now : ℕ)
    → n.master.system_state ≡ fault_stop
    → confirm_pending_resume n es conveyor now ≡ n
unfolding confirm_pending_resume
confirm_pending_resume-latched n [] conveyor now h = refl
confirm_pending_resume-latched n ((s, cycle) ∷ es) conveyor now h =
    rw (confirm_pending_cycle-latched n s cycle conveyor now h)
      (confirm_pending_resume-latched n es conveyor now h)

pub on_running-latched :
    (n : FlowNode) (begins : Bool) (conveyor : ConveyorId) (now : ℕ)
    → n.master.system_state ≡ fault_stop
    → on_running n begins conveyor now ≡ n
unfolding on_running
on_running-latched n begins conveyor now h =
    ground (arith, confirm_pending_resume-latched n n.station_cycles conveyor now h)

pub decide-all_conveyors_running :
    decide_system_transition fault_stop SystemFsm.all_conveyors_running "" ≡ none
unfolding decide_system_transition fault_rule find_rule from_rule transitions SystemState-discrete
    SystemEvent-discrete
decide-all_conveyors_running = refl

pub decide-resume_failed : decide_system_transition fault_stop resume_failed "" ≡ none
unfolding decide_system_transition fault_rule find_rule from_rule transitions SystemState-discrete
    SystemEvent-discrete
decide-resume_failed = refl

pub confirm_running-latched :
    (m : MasterNode) → m.system_state ≡ fault_stop → confirm_all_conveyors_running m ≡ (m, false)
unfolding confirm_all_conveyors_running apply_event
confirm_running-latched m h = ground (arith, decide-all_conveyors_running)

pub confirm_running-Frozen :
    (n : FlowNode) (supply : Supply) (sending : Sending) (now : ℕ)
    → n.master.system_state ≡ fault_stop
    → confirm_running n supply sending now ≡ n
unfolding confirm_running
confirm_running-Frozen n supply sending now h = ground (arith, confirm_running-latched n.master h)

pub on_all_running-latched :
    (n : FlowNode) (supply : Supply) (sending : Sending) (now : ℕ)
    → n.master.system_state ≡ fault_stop
    → on_all_running n supply sending now ≡ n
unfolding on_all_running
on_all_running-latched n supply sending now h =
    ground (arith, confirm_running-Frozen n supply sending now h)

pub confirm_stopped-latched :
    (m : MasterNode) (now : ℕ)
    → m.system_state ≡ fault_stop
    → (confirm_all_conveyors_stopped m now).system_state ≡ fault_stop
unfolding confirm_all_conveyors_stopped finalize_shutdown_sequence
confirm_stopped-latched m now h = ground arith

pub on_reset-latched :
    (n : FlowNode) (now : ℕ) → n.master.system_state ≡ fault_stop → on_reset n now ≡ n
unfolding on_reset
on_reset-latched n now h = ground arith

pub snapshot-latched :
    (m : MasterNode) (u : EquipmentUpdate) (now : ℕ)
    → m.system_state ≡ fault_stop
    → (update_equipment_snapshot m (record u { estop = none }) now).system_state ≡ fault_stop
unfolding update_equipment_snapshot
snapshot-latched m u now h = ground arith

pub check_pause-latched :
    (m : MasterNode) (now : ℕ) → m.system_state ≡ fault_stop → check_pause_deadline m now ≡ m
unfolding check_pause_deadline
check_pause-latched m now h = ground arith

pub check_run-latched :
    (m : MasterNode) (now : ℕ)
    → m.system_state ≡ fault_stop
    → (check_run_deadline m now).system_state ≡ fault_stop
unfolding check_run_deadline report_run_failed apply_event
check_run-latched m now h = ground (arith, decide-resume_failed)

pub check_shutdown-latched :
    (m : MasterNode) (now : ℕ)
    → m.system_state ≡ fault_stop
    → (check_shutdown_deadline m now).system_state ≡ fault_stop
unfolding check_shutdown_deadline
check_shutdown-latched m now h = grind (arith, latched-state)

pub check_line-latched :
    (m : MasterNode) (now : ℕ)
    → m.system_state ≡ fault_stop
    → (check_line_deadlines m now).system_state ≡ fault_stop
unfolding check_line_deadlines
check_line-latched m now h =
    rw (check_pause-latched m now h)
      (check_shutdown-latched (check_run_deadline m now) now (check_run-latched m now h))

pub record_residency-Frozen :
    (es : List (StationId × StationCycle)) (n : FlowNode) → Frozen n (record_residency n es)
unfolding record_residency
record_residency-Frozen [] n = (refl, refl, refl, refl, refl, refl, refl)
record_residency-Frozen ((s, cycle) ∷ es) n = grind (arith, record_residency-Frozen es)
