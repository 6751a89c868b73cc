-- ===== src/Examples/Operation.antt =====
-- Concrete runs of the requests that move the line.
use ai_vision_inspection.Base.{
  ℕ, true, false, List, [], ◌∷◌, none, some, ◌≡◌, ◌≢◌, refl, sym, ◌∙◌, nat_list_eq, insertion_sort,
  distinct,
}
use ai_vision_inspection.Constants.{
  SystemState, SystemState-discrete, paused, run_sys, fault_stop, boot,
}
use ai_vision_inspection.Constants
use ai_vision_inspection.Master.SystemFsm.{
  SystemEvent-discrete, decide_system_transition, find_rule, from_rule, fault_rule, transitions,
}
use ai_vision_inspection.Master.Equipment.{
  sim_safe, mark_all_stopped, all_conveyors_stopped, all_sensors_clear, line_clear_guards_satisfied,
  in_place_guards_satisfied,
}
use ai_vision_inspection.Master.Ledger.{new_ledger, contexts_of}
use ai_vision_inspection.Master.Ledger.Fifo.{validate_alignment, any_removed, states_fall}
use ai_vision_inspection.Master.Operation.{
  Settings, MasterNode, no_recovery, line_clear_required, equipment_check_required, idle,
  apply_event, request_conveyor_run, all_ready, all_workers_ready, fifo_aligned,
}
use ai_vision_inspection.Master.Operation.Requests.{
  start_guard_failures, request_run, confirm_all_conveyors_running, request_resume,
}
use ai_vision_inspection.Master.Operation.Recovery.{
  latched, request_reset, EquipmentUpdate, update_equipment_snapshot,
}
use ai_vision_inspection.Master.Operation.Steps.{Call, call, calls, asks_run, confirms_running}
use ai_vision_inspection.Master.Operation.Running.{CanWait}
use ai_vision_inspection.Master.Operation.Running.Entry.{run_is_confirmed}
use ai_vision_inspection.Master.Operation.LineClear.{latched-refuses, latched-weakens}

abbrev settings : Settings
settings = record {
  session_id = "s";
  expected_interface_version = "2";
  node_heartbeat_timeout_ms = 2000;
  pause_stop_timeout_ms = 3000;
  conveyor_run_timeout_ms = 3000;
  shutdown_stop_timeout_ms = 3000;
  init_retry_interval_ms = 1000;
  hardware_mapping_confirmed = true;
  station_a_cameras = 3;
  station_b_cameras = 1;
}

abbrev ready_master : MasterNode
ready_master = record {
  settings = settings;
  system_state = Constants.SystemState.ready;
  health_state = Constants.NodeHealthState.ready;
  recovery_policy = no_recovery;
  pause_reason = none;
  pending_run_confirmation = false;
  run_confirmation_deadline_ns = 0;
  pause_deadline_ns = 0;
  shutdown_deadline_ns = 0;
  shutdown_requested = false;
  shutdown_phase = idle;
  paused_by_queue = false;
  queue_recovered_pending = false;
  log_spool_open = true;
  command_epoch = 1;
  equipment = sim_safe;
  ledger = new_ledger;
  worker_states = [];
  system_commands = [];
  goal_cancellations = 0;
}

abbrev asked : List (Call × ℕ)
asked = (asks_run, 10) ∷ []

asked_is_ready : (calls ready_master asked).system_state ≡ Constants.SystemState.ready
unfolding calls call request_run start_guard_failures sim_safe SystemState-discrete
    all_workers_ready all_ready new_ledger all_conveyors_stopped all_sensors_clear apply_event
    decide_system_transition fault_rule from_rule find_rule transitions SystemEvent-discrete
    request_conveyor_run
asked_is_ready = refl

ready_is_not_run : Constants.SystemState.ready ≢ run_sys
ready_is_not_run = λ h. cc

run_starts : (call (calls ready_master asked) confirms_running 20).system_state ≡ run_sys
unfolding calls call request_run start_guard_failures sim_safe confirm_all_conveyors_running
    SystemState-discrete all_workers_ready all_ready new_ledger all_conveyors_stopped
    all_sensors_clear apply_event decide_system_transition fault_rule from_rule find_rule
    transitions SystemEvent-discrete request_conveyor_run
run_starts = refl

asked_waits : (calls ready_master asked).system_state ≢ run_sys
asked_waits = λ h. ready_is_not_run (sym asked_is_ready ∙ h)

run_is_confirmed_example :
    (confirms_running ≡ confirms_running)
    × ((calls ready_master asked).pending_run_confirmation ≡ true)
    × CanWait (calls ready_master asked).system_state
run_is_confirmed_example =
    run_is_confirmed ready_master asked confirms_running 20 refl asked_waits run_starts

-- All sensors are clear, the conveyors stand and the actuator is safe.
abbrev all_safe : EquipmentUpdate
all_safe = record {
  running = record { upper_value = some false; lower_value = some false };
  stopped = record { upper_value = some true; lower_value = some true };
  sensors = record { sensor1 = some true; sensor2 = some true; sensor3 = some true };
  actuator = some true;
  estop = none;
}

latched-refuses_example :
    ((request_reset
        (update_equipment_snapshot (latched ready_master line_clear_required 1).0 all_safe 2)
        2).1
      ≡ false)
    × ((request_run
          (update_equipment_snapshot (latched ready_master line_clear_required 1).0 all_safe 2)
          2).1
        ≡ false)
    × ((request_resume
          (update_equipment_snapshot (latched ready_master line_clear_required 1).0 all_safe 2)
          true
          2).1
        ≡ false)
latched-refuses_example = latched-refuses ready_master all_safe 1 2 true refl

-- The line is stopped after a fault of its tracking, and nobody has confirmed that it is empty.
abbrev stopped_master : MasterNode
stopped_master = record ready_master {
  system_state = fault_stop;
  recovery_policy = line_clear_required;
  equipment = record sim_safe { line_clear_confirmed = false };
}

stands_safe : in_place_guards_satisfied stopped_master.equipment ≡ true
unfolding in_place_guards_satisfied all_conveyors_stopped sim_safe mark_all_stopped
stands_safe = refl

stands_aligned : fifo_aligned stopped_master ≡ true
unfolding fifo_aligned validate_alignment new_ledger contexts_of nat_list_eq insertion_sort distinct
    any_removed states_fall
stands_aligned = refl

latched-weakens_example :
    ((request_reset stopped_master 5).1 ≡ line_clear_guards_satisfied stopped_master.equipment)
    × ((request_reset (latched stopped_master equipment_check_required 4).0 5).1 ≡ true)
latched-weakens_example = latched-weakens stopped_master 4 5 refl refl stands_safe stands_aligned
