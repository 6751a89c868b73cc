-- ===== src/Examples/Nodes.antt =====
-- The rules of the master that are not about one product, and the store of the commands.
use ai_vision_inspection.Base.{
  ap, ◌⊎◌, In, ℕ, String, String-discrete, List, [], ◌∷◌, some, none, true, false, ◌≡◌, ◌≢◌, refl,
  arith, ok, ℕ_discrete, equals,
}
use ai_vision_inspection.Base.Dict
use ai_vision_inspection.Constants.{
  SystemState, SystemState-discrete, NodeHealthState, NodeHealthState-discrete, pass, ng,
  Verdict-discrete,
}
use ai_vision_inspection.Master.Product.{LockedProduct}
use ai_vision_inspection.Master.Reorder.{
  ReorderBuffer, add, add_all, drain, contradicts, with_result,
}
use ai_vision_inspection.Master.Reorder.Order.{Consecutive, add_all-Consecutive, add_keeps}
use ai_vision_inspection.Master.Sensors.{
  SensorEventRegistry, SensorCall, accept, accept_all, outcome, in_order,
}
use ai_vision_inspection.Master.Sensors
use ai_vision_inspection.Master.Sensors.Order.{Continues, accepted_of, accept_all-Continues}
use ai_vision_inspection.Master.SystemFsm.{
  SystemEvent, SystemEvent-discrete, critical_fault, reset_request, reset_succeeded_in_place,
  all_conveyors_running, apply_system_event, decide_system_transition, run, fault_rule, entered,
  from_rule, find_rule, transitions,
}
use ai_vision_inspection.Master.Worker.{
  WorkerRuntimeState, new_worker, Heartbeat, accept_heartbeat, Expected, can_mark_ready, heard,
  heartbeat_is_fresh, control, mark_action_ready, record_status,
}
use ai_vision_inspection.Master.Worker.Evidence.{
  calls, call, action, status, heartbeat, has_action, has_status, restart_needs_evidence,
}
use ai_vision_inspection.Master.Worker.Evidence
use ai_vision_inspection.Common.Idempotency.{IdempotencyStore, remember}

abbrev product : ℕ → LockedProduct
product n = record {
  product_id = "P";
  fifo_sequence = n;
  verdict = pass;
  station_a_completed = true;
  station_b_completed = true;
  reason = "";
  sensor3_event_id = "e";
}

-- The buffer waits for the first product and has the second one.
abbrev buffer : ReorderBuffer
buffer = record { next_sequence = 1; pending = (2, product 2) ∷ [] }

add_all-Consecutive_example :
    Consecutive 1
      (add_all buffer (product 3 ∷ product 1 ∷ [])).1
      (add_all buffer (product 3 ∷ product 1 ∷ [])).0.next_sequence
add_all-Consecutive_example = add_all-Consecutive buffer (product 3 ∷ product 1 ∷ []) (refl, tt)

buffer-releases : (add buffer (product 1)).1 ≡ ok (product 1 ∷ product 2 ∷ [])
unfolding add drain contradicts with_result Dict.get Dict.put Dict.pop ℕ_discrete
buffer-releases = refl

add_keeps_example :
    (In (product 1) (product 1 ∷ product 2 ∷ [])
      ⊎ (Dict.get ℕ_discrete 1 (add buffer (product 1)).0.pending ≡ some (product 1)))
    × (Dict.get ℕ_discrete
          (add buffer (product 1)).0.next_sequence
          (add buffer (product 1)).0.pending
        ≡ none)
add_keeps_example =
    add_keeps buffer (product 1) (product 1 ∷ product 2 ∷ []) (omega arith) buffer-releases

second_is_pending : Dict.get ℕ_discrete 2 buffer.pending ≡ some (product 2)
unfolding Dict.get ℕ_discrete
second_is_pending = refl

abbrev other_second : LockedProduct
other_second = record (product 2) { verdict = ng }

second_differs : product 2 ≢ other_second
unfolding Verdict-discrete
second_differs =
    λ p. let q : true ≡ false = ap (λ l. equals Verdict-discrete l.verdict pass) p in cc

abbrev registry : SensorEventRegistry
registry = record {
  last_sequence = ("s", 4) ∷ [];
  event_digests = ("e4", "d4") ∷ [];
  event_capacity = 2;
}

abbrev event : ℕ → String → SensorCall
event n id = record { sensor_id = "s"; event_id = id; sequence = n; digest = "d" }

abbrev events : List SensorCall
events = event 5 "e5" ∷ event 5 "e5" ∷ event 7 "e7" ∷ event 6 "e6" ∷ []

registry_at_4 : Dict.get String-discrete "s" registry.last_sequence ≡ some 4
unfolding Dict.get String-discrete
registry_at_4 = refl

accept_all-Continues_example :
    Continues
      (Dict.get String-discrete "s" registry.last_sequence)
      (accepted_of "s" (accept_all registry events).1)
accept_all-Continues_example = accept_all-Continues registry events "s"

fifth-accepted : (accept registry (event 5 "e5")).1 ≡ Sensors.accepted
unfolding accept outcome in_order Dict.get String-discrete
fifth-accepted = refl

abbrev recovery : List (SystemEvent × String)
recovery =
    (reset_request, "")
    ∷ (critical_fault, "again")
    ∷ (reset_request, "")
    ∷ (reset_succeeded_in_place, "")
    ∷ (all_conveyors_running, "")
    ∷ []

recovery_runs : run SystemState.fault_stop recovery ≡ SystemState.run_sys
unfolding run apply_system_event decide_system_transition fault_rule entered from_rule find_rule
    transitions SystemState-discrete SystemEvent-discrete
recovery_runs = refl

ready_runs : apply_system_event SystemState.ready all_conveyors_running "" ≡ SystemState.run_sys
unfolding apply_system_event decide_system_transition fault_rule entered from_rule find_rule
    transitions SystemState-discrete SystemEvent-discrete
ready_runs = refl

ready_is_still : SystemState.ready ≢ SystemState.run_sys
ready_is_still = λ p. cc

paused_is_not_boot : SystemState.paused ≢ SystemState.boot
paused_is_not_boot = λ p. cc

paused_is_not_initializing : SystemState.paused ≢ SystemState.initializing
paused_is_not_initializing = λ p. cc

-- A worker of which one instance was heard.
abbrev worker : WorkerRuntimeState
worker = record (new_worker control) {
  action_ready = true;
  status_verified = true;
  heartbeat_node_instance_id = "i1";
  heartbeat_sequence = 9;
}

abbrev beat : String → ℕ → Heartbeat
beat id n = record {
  node_instance_id = id;
  sequence = n;
  health_state = NodeHealthState.ready;
  interface_version = "v";
  session_id = "s";
  received_ns = 5;
}

abbrev evidence : List Evidence.Call
evidence =
    action
      (record {
        interface_version = "v";
        software_version = "w";
        active_session_id = "s";
        reason = "";
      })
      1 1
    ∷ status (record {
      node_instance_id = "i2";
      interface_version = "v";
      software_version = "w";
      active_session_id = "s";
      command_epoch = 3;
      heartbeat_sequence = 1;
      health_state = NodeHealthState.ready;
      ready = true;
      master_heartbeat_alive = true;
    })
    ∷ []

abbrev expected : Expected
expected = record {
  session_id = "s";
  interface_version = "v";
  command_epoch = 3;
  now_ns = 6;
  heartbeat_timeout_ns = 10;
}

worker-restarts : (accept_heartbeat worker (beat "i2" 1)).1.restarted ≡ true
unfolding accept_heartbeat heard String-discrete
worker-restarts = refl

worker-becomes_ready :
    can_mark_ready (calls (accept_heartbeat worker (beat "i2" 1)).0 evidence) expected ≡ true
unfolding accept_heartbeat heard String-discrete calls call mark_action_ready record_status
    can_mark_ready heartbeat_is_fresh NodeHealthState-discrete
worker-becomes_ready = refl

restart_needs_evidence_example : (has_action evidence ≡ true) × (has_status evidence ≡ true)
restart_needs_evidence_example =
    restart_needs_evidence worker (beat "i2" 1) evidence expected worker-restarts
      worker-becomes_ready

abbrev commands : IdempotencyStore ℕ
commands = record { capacity = 2; entries = ("a", ("d", 7)) ∷ ("b", ("d", 8)) ∷ [] }

abbrev remembered : IdempotencyStore ℕ
remembered = record { capacity = 2; entries = ("b", ("d", 8)) ∷ ("c", ("d", 9)) ∷ [] }

commands-remember : remember commands "c" "d" 9 ≡ ok remembered
unfolding remember Dict.get Dict.put Dict.pop Dict.trim Dict.move_to_end String-discrete
commands-remember = refl
