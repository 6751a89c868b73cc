-- ===== src/Examples/Flow.antt =====
-- A product that goes through the whole line of M/master_node.py.
mod Answers
use ai_vision_inspection.Base.{
  ℕ, ◌≤◌, String, String-discrete, pos, List, [], ◌∷◌, Option, none, some, true, false, is_some,
  ◌≡◌, ◌≢◌, inr, refl, arith, Ascending, contains, ℕ_discrete,
}
use ai_vision_inspection.Base.Dict
use ai_vision_inspection.Constants.{SystemState, run_sys, fault_stop, StationId, a, b, pass, upper}
use ai_vision_inspection.Constants
use ai_vision_inspection.Master.Equipment.{sim_safe}
use ai_vision_inspection.Master.Product.{
  ProductContext, new_context, StationProcessState-discrete, LockedProduct-discrete,
}
use ai_vision_inspection.Master.Product.Locking.{locked_as, decided}
use ai_vision_inspection.Master.Ledger.{
  new_ledger, get_by_id, active_size, Owner-discrete, added, register, get, contexts_of,
  register_capture, active_contexts,
}
use ai_vision_inspection.Master.Messages.{classify_station_message}
use ai_vision_inspection.Master.Operation.{MasterNode, no_recovery, idle, fifo_aligned}
use ai_vision_inspection.Master.Flow.{
  FlowNode, FlowSettings, StationCyclePhase-discrete, StationCycle, ActuationCycle,
  waiting_capture_result, waiting_result, cycle_at,
}
use ai_vision_inspection.Master.Flow.Station.{
  sent, own_capture, begin_cycle_of, start_station_cycle, resume_conveyor_after_capture,
  send_capture_goal, request_station_capture, maybe_request_station_capture, settle,
  handle_position_settled,
}
use ai_vision_inspection.Master.Flow.Capture.{
  goal_accepted, CapturedImage, CaptureResult, active_cycle, capture_accepted,
  handle_capture_goal_response, images_complete, all_in, no_duplicates, payload_complete,
  capture_success, capture_finished, handle_capture_result, resume_cycle, confirm_conveyor_resumed,
  handle_capture_feedback,
}
use ai_vision_inspection.Master.Flow.Report.{
  apply_accepted_station_result, on_station_result, handle_station_result,
}
use ai_vision_inspection.Master.Flow.Entry.{
  last_digits, digit_count, product_name, entered, register_product, handle_sensor1_entry,
  at_sensor2, handle_sensor2_entry, at_sensor3, handle_sensor3_entry, sensor_entry,
  handle_sensor_event,
}
use ai_vision_inspection.Master.Flow.Steps.{Event, step, steps}
use ai_vision_inspection.Master.Flow.Earned.{steps-earned}
use ai_vision_inspection.Master.Flow.Actuation.{
  emit_locked, accept_locked, send_job, send_actuation_goal, schedule_actuation, ActuationResult,
  handle_actuation_result,
}
use ai_vision_inspection.Master.Ledger.Fifo.{
  any_behind, oldest_from, oldest_in_state, any_removed, sequences, states_fall,
}
use ai_vision_inspection.Master.Ledger.Calls.{update}
use ai_vision_inspection.Master.Reorder.{drain, add}
use ai_vision_inspection.Master.Sensors.{accept}
use ai_vision_inspection.Common.NodeBase.Commands.{is_sha256_hex}
use ai_vision_inspection.Master.Flow.Calls.{steps-line}
use ai_vision_inspection.Master.Flow.Capacity.{step-bounded}

abbrev master_in : SystemState → MasterNode
master_in s = record {
  settings = record {
    session_id = "s";
    expected_interface_version = "2";
    node_heartbeat_timeout_ms = 2000;
    pause_stop_timeout_ms = 3000;
    conveyor_run_timeout_ms = 3000;
    shutdown_stop_timeout_ms = 3000;
    init_retry_interval_ms = 1000;
    hardware_mapping_confirmed = true;
    station_a_cameras = 3;
    station_b_cameras = 1;
  };
  system_state = s;
  health_state = Constants.NodeHealthState.ready;
  recovery_policy = no_recovery;
  pause_reason = none;
  pending_run_confirmation = false;
  run_confirmation_deadline_ns = 0;
  pause_deadline_ns = 0;
  shutdown_deadline_ns = 0;
  shutdown_requested = false;
  shutdown_phase = idle;
  paused_by_queue = false;
  queue_recovered_pending = false;
  log_spool_open = true;
  command_epoch = 1;
  equipment = sim_safe;
  ledger = new_ledger;
  worker_states = [];
  system_commands = [];
  goal_cancellations = 0;
}

abbrev flow_settings : FlowSettings
flow_settings = record {
  fifo_soft_limit = 10;
  fifo_hard_capacity = 12;
  sensor_id_to_index = ("in", 1) ∷ ("flip", 2) ∷ ("out", 3) ∷ [];
  accepted_sensor_edge = 1;
  position_timeout_ms = 5000;
  capture_timeout_ms = 5000;
  conveyor_resume_timeout_ms = 5000;
  actuation_timeout_ms = 5000;
  completed_context_retention_ms = 600000;
  skip_station_b_after_station_a_ng = true;
  camera_ids_a = "a1" ∷ "a2" ∷ "a3" ∷ [];
  camera_ids_b = "b1" ∷ [];
}

abbrev line_in : SystemState → FlowNode
line_in s = record {
  master = master_in s;
  flow = flow_settings;
  station_cycles = [];
  actuation_cycles = [];
  deferred_station_starts = [];
  deferred_capture_resumes = [];
  vision_outage_affected = [];
  vision_outage_residual = [];
  sensor_events = record { last_sequence = []; event_digests = []; event_capacity = 100 };
  result_reorder = record { next_sequence = 1; pending = [] };
  actuation_id_owners = record { capacity = 100; entries = [] };
  next_context_prune_ns = 60000000000;
  emissions = [];
}

abbrev sensed : String → String → String → String → Event ℕ
sensed sensor event first second =
    Event.sensor_event
      (record {
        session_id = "s";
        call = record { sensor_id = sensor; event_id = event; sequence = 1; digest = event };
        edge = 1;
        estimated_step = pos 0;
      })
      (record { first_id = first; second_id = second; sending = sent })

abbrev digest : String
digest = "0123456789abcdef0123456789abcdef0123456789abcdef0123456789abcdef"

abbrev image : String → CapturedImage
image camera = record {
  camera_id = camera;
  file_path = "/data/i.png";
  sha256 = digest;
  file_size_bytes = 100;
  width = 4;
  height = 4;
  pixel_format = "MONO8_PNG";
}

abbrev product : String
product = "P-s-000001"

abbrev captured : ℕ → String → List CapturedImage → CaptureResult
captured s capture images = record {
  product_id = product;
  station_id = s;
  capture_id = capture;
  success = true;
  error_code = 0;
  reason = "";
  frame_batch_id = "f";
  inference_job_id = "j";
  attempt_count = 1;
  images = images;
}

abbrev result_of : ℕ → String → Event ℕ
result_of s capture = Event.station_result (record {
  session_id = "s";
  facts = record {
    product_id = product;
    fifo_sequence = 1;
    station_id_raw = s;
    capture_id = capture;
    frame_batch_id = "f";
    inference_job_id = "j";
    result_revision = 1;
    verdict_raw = some 1;
    score = some 0;
  };
  error_code = 0;
  reason = "";
})

-- Through both stations with the verdict PASS, up to Sensor3.
abbrev whole_line : List (Event ℕ × ℕ)
whole_line =
    (sensed "in" "e1" "pa" "ca", 1)
    ∷ (Event.position_settled (record { session_id = "s"; conveyor_id = 1 }) "ka" sent, 2)
    ∷ (Event.capture_response a "ca" goal_accepted, 3)
    ∷ (
      Event.capture_result a "ca"
          (some (captured 1 "ca" (image "a1" ∷ image "a2" ∷ image "a3" ∷ []))),
      4,
    )
    ∷ (Event.conveyor_resumed product a, 5)
    ∷ (result_of 1 "ca", 6)
    ∷ (sensed "flip" "e2" "pb" "cb", 7)
    ∷ (Event.position_settled (record { session_id = "s"; conveyor_id = 2 }) "kb" sent, 8)
    ∷ (Event.capture_response b "cb" goal_accepted, 9)
    ∷ (Event.capture_result b "cb" (some (captured 2 "cb" (image "b1" ∷ []))), 10)
    ∷ (Event.conveyor_resumed product b, 11)
    ∷ (result_of 2 "cb", 12)
    ∷ (sensed "out" "e3" "job" "command", 13)
    ∷ []

abbrev found : Option ProductContext → ProductContext
found none = new_context "" 1
found (some c) = c

abbrev at_end : ProductContext
at_end = found (get_by_id (steps (line_in run_sys) whole_line).master.ledger product)

found_is : (o : Option ProductContext) → is_some o ≡ true → o ≡ some (found o)
found_is none h = ground arith
found_is (some c) h = refl

product_is_there :
    is_some (get_by_id (steps (line_in run_sys) whole_line).master.ledger product) ≡ true
unfolding own_capture begin_cycle_of start_station_cycle resume_conveyor_after_capture
    send_capture_goal request_station_capture maybe_request_station_capture settle
    handle_position_settled active_cycle capture_accepted handle_capture_goal_response
    images_complete all_in no_duplicates payload_complete capture_success capture_finished
    handle_capture_result resume_cycle confirm_conveyor_resumed apply_accepted_station_result
    on_station_result handle_station_result last_digits digit_count product_name entered
    register_product handle_sensor1_entry at_sensor2 handle_sensor2_entry at_sensor3
    handle_sensor3_entry sensor_entry handle_sensor_event emit_locked accept_locked send_job
    send_actuation_goal schedule_actuation ai_vision_inspection.Master.Flow.Steps.step steps
    ai_vision_inspection.Master.Product.Command.step Owner-discrete new_ledger added register get
    contexts_of register_capture any_behind oldest_from oldest_in_state update drain add accept
    classify_station_message is_sha256_hex Dict.get Dict.put Dict.pop Dict.trim String-discrete
    contains Constants.SystemState-discrete Constants.StationId-discrete Constants.Verdict-discrete
    Constants.ProductPhysicalState-discrete StationProcessState-discrete LockedProduct-discrete
    StationCyclePhase-discrete ℕ_discrete
product_is_there = refl

product_is_locked : locked_as at_end.locked pass ≡ true
unfolding own_capture begin_cycle_of start_station_cycle resume_conveyor_after_capture
    send_capture_goal request_station_capture maybe_request_station_capture settle
    handle_position_settled active_cycle capture_accepted handle_capture_goal_response
    images_complete all_in no_duplicates payload_complete capture_success capture_finished
    handle_capture_result resume_cycle confirm_conveyor_resumed apply_accepted_station_result
    on_station_result handle_station_result last_digits digit_count product_name entered
    register_product handle_sensor1_entry at_sensor2 handle_sensor2_entry at_sensor3
    handle_sensor3_entry sensor_entry handle_sensor_event emit_locked accept_locked send_job
    send_actuation_goal schedule_actuation ai_vision_inspection.Master.Flow.Steps.step steps
    ai_vision_inspection.Master.Product.Command.step Owner-discrete new_ledger added register get
    contexts_of register_capture any_behind oldest_from oldest_in_state update drain add accept
    classify_station_message is_sha256_hex Dict.get Dict.put Dict.pop Dict.trim String-discrete
    contains Constants.SystemState-discrete Constants.StationId-discrete Constants.Verdict-discrete
    Constants.ProductPhysicalState-discrete StationProcessState-discrete LockedProduct-discrete
    StationCyclePhase-discrete ℕ_discrete
product_is_locked = refl

steps-earned_example :
    (decided at_end.station_a.decision pass ≡ true)
    × (decided at_end.station_b.decision pass ≡ true)
steps-earned_example =
    steps-earned (line_in run_sys) whole_line product at_end refl
      (found_is (get_by_id (steps (line_in run_sys) whole_line).master.ledger product)
        product_is_there)
      product_is_locked

steps-line_example :
    (cs : List ProductContext) × (active_contexts (steps (line_in run_sys) whole_line).master.ledger
      ≡ some cs)
    × (any_removed cs ≡ false)
    × Ascending 0 (sequences cs)
    × (fifo_aligned (steps (line_in run_sys) whole_line).master ≡ states_fall cs)
steps-line_example = steps-line (line_in run_sys) whole_line refl

step-bounded_example :
    active_size (step (line_in run_sys) (sensed "in" "e1" "pa" "ca") 1).master.ledger ≤ 12
unfolding new_ledger
step-bounded_example = step-bounded (line_in run_sys) (sensed "in" "e1" "pa" "ca") 1 (omega arith)
