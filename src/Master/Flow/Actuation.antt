-- ===== src/Master/Flow/Actuation.antt =====
-- master_node.py: the verdict that is locked at Sensor3, the actuation that carries it out, and the
-- products that leave the line.
use ai_vision_inspection.Base.{
  ℕ, String, String-discrete, List, [], ◌∷◌, Option, none, some, Bool, true, false, ◌||◌, not,
  is_empty, equals, if◌then◌else◌, ok, raise,
}
use ai_vision_inspection.Base.Dict
use ai_vision_inspection.Constants.{Verdict-discrete, pass, fault_stop}
use ai_vision_inspection.Common.Idempotency.{
  IdempotencyStore, ReplayDecision, new, replay, conflict, inspect, remember,
}
use ai_vision_inspection.Master.Product.{ProductContext, LockedProduct, LockedProduct-discrete}
use ai_vision_inspection.Master.Product.Cycle.{same}
use ai_vision_inspection.Master.Product.Command.{actuate, actuation_accepted, actuation_completed}
use ai_vision_inspection.Master.Product.Verdicts.{
  begin_actuation, mark_actuation_accepted, mark_actuation_completed,
}
use ai_vision_inspection.Master.Ledger.{get}
use ai_vision_inspection.Master.Ledger.Removal.{remove_completed_prefix}
use ai_vision_inspection.Master.Reorder.{add}
use ai_vision_inspection.Master.Flow.{
  ActuationCycle, goal_pending, waiting_result, completed, FlowNode, ActuationGoal, result_locked,
  actuation_goal_sent, in_state, emit, set_ledger, faulted, device_paused, tried, ms,
}
use ai_vision_inspection.Master.Flow.Station.{Sending}
use ai_vision_inspection.Master.Flow.Capture.{GoalResponse, goal_accepted}

-- The verdicts of `_accept_locked` in their order.
unfoldable pub emit_locked : FlowNode → List LockedProduct → FlowNode
emit_locked n [] = n
emit_locked n (l ∷ ls) = emit_locked (emit n (result_locked l)) ls

-- `_accept_locked`
unfoldable pub accept_locked : FlowNode → LockedProduct → ℕ → FlowNode
accept_locked n locked now =
    let (buffer, ready) = add n.result_reorder locked in
    elim ready [
      | raise e ↦ faulted n now
      | ok ls ↦ emit_locked (record n { result_reorder = buffer }) ls
    ]

abbrev job_at : FlowNode → String → Option ActuationCycle
job_at n job = Dict.get String-discrete job n.actuation_cycles

abbrev set_job : FlowNode → String → ActuationCycle → FlowNode
set_job n job c = record n { actuation_cycles = Dict.put String-discrete job c n.actuation_cycles }

unfoldable pub goal_of : LockedProduct → ActuationCycle → ActuationGoal
goal_of locked cycle = record {
  product_id = locked.product_id;
  fifo_sequence = locked.fifo_sequence;
  sensor3_event_id = locked.sensor3_event_id;
  actuator_job_id = cycle.actuator_job_id;
  command_id = cycle.command_id;
  pass_through = equals Verdict-discrete locked.verdict pass;
}

abbrev pending_cycle : FlowNode → ActuationCycle → ℕ → FlowNode
pending_cycle n cycle now =
    set_job n cycle.actuator_job_id
      (record cycle { phase = goal_pending; deadline_ns = ms now n.flow.actuation_timeout_ms })

unfoldable pub send_job : FlowNode → LockedProduct → ActuationCycle → Sending → ℕ → FlowNode
send_job n locked cycle Sending.server_unavailable now = device_paused n now
send_job n locked cycle Sending.sending_raises now = device_paused (pending_cycle n cycle now) now
send_job n locked cycle Sending.sent now =
    emit (pending_cycle n cycle now) (actuation_goal_sent (goal_of locked cycle))

-- `_send_actuation_goal`
unfoldable pub send_actuation_goal : FlowNode → LockedProduct → Sending → ℕ → FlowNode
send_actuation_goal n locked sending now =
    elim (get n.master.ledger locked.product_id locked.fifo_sequence) [
      | none ↦ faulted n now
      | some c ↦
          if is_empty c.actuator_job_id then faulted n now else elim (job_at n c.actuator_job_id) [
            | none ↦ faulted n now
            | some cycle ↦ send_job n locked cycle sending now
          ]
    ]

abbrev new_job : LockedProduct → String → String → ActuationCycle
new_job locked job command = record {
  product_id = locked.product_id;
  fifo_sequence = locked.fifo_sequence;
  actuator_job_id = job;
  command_id = command;
  phase = goal_pending;
  deadline_ns = 0;
  has_goal_handle = false;
}

abbrev is_locked_as : ProductContext → LockedProduct → Bool
is_locked_as c locked = elim c.locked [
  | none ↦ false
  | some l ↦ equals LockedProduct-discrete l locked
]

-- `_schedule_actuation`; the two identifiers are new.
unfoldable pub schedule_actuation :
    FlowNode → LockedProduct → String → String → Sending → ℕ → FlowNode
schedule_actuation n locked job command sending now =
    elim (get n.master.ledger locked.product_id locked.fifo_sequence) [
      | none ↦ faulted n now
      | some c ↦
          if not (is_locked_as c locked)
          then faulted n now
          else tried n locked.product_id (actuate job command) (begin_actuation c job command).1 now
              (λ n'.
                send_actuation_goal (set_job n' job (new_job locked job command)) locked sending
                  now)
    ]

abbrev if_command : String → Option ActuationCycle → Option ActuationCycle
if_command command none = none
if_command command (some cycle) = if same cycle.command_id command then some cycle else none

unfoldable pub active_job : FlowNode → String → String → Option ActuationCycle
active_job n job command = if_command command (job_at n job)

unfoldable pub job_accepted : FlowNode → String → ActuationCycle → ℕ → FlowNode
job_accepted n job cycle now = elim (get n.master.ledger cycle.product_id cycle.fifo_sequence) [
  | none ↦ faulted n now
  | some c ↦
      tried n cycle.product_id (actuation_accepted cycle.command_id)
        (mark_actuation_accepted c cycle.command_id).1 now
        (λ n'. set_job n' job (record cycle { has_goal_handle = true; phase = waiting_result }))
]

abbrev on_goal : FlowNode → String → ActuationCycle → GoalResponse → ℕ → FlowNode
on_goal n job cycle goal_accepted now = job_accepted n job cycle now
on_goal n job cycle _ now = device_paused n now

-- `_handle_actuation_goal_response`
unfoldable pub handle_actuation_goal_response :
    FlowNode → String → String → GoalResponse → ℕ → FlowNode
handle_actuation_goal_response n job command response now = elim (active_job n job command) [
  | none ↦ n
  | some cycle ↦ if in_state n fault_stop then n else on_goal n job cycle response now
]

-- The result of ActuateProduct.
pub record ActuationResult : Type 0 where
  pub product_id : String
  pub success : Bool
  pub actuation_id : String

unfoldable pub pop_jobs : FlowNode → List ProductContext → FlowNode
pop_jobs n [] = n
pop_jobs n (c ∷ cs) =
    pop_jobs
      (record n {
        actuation_cycles = Dict.pop String-discrete c.actuator_job_id n.actuation_cycles;
      })
      cs

-- `_remove_completed_fifo_prefix`; a KeyError of the ledger would leave the handler.
unfoldable pub remove_completed_fifo_prefix : FlowNode → ℕ → FlowNode
remove_completed_fifo_prefix n now =
    if in_state n fault_stop then n else elim (remove_completed_prefix n.master.ledger now) [
      | none ↦ n
      | some (l, removed) ↦ pop_jobs (set_ledger n l) removed
    ]

-- The context takes the completion, and the line lets go of what is done.
unfoldable pub complete_job : FlowNode → String → ActuationCycle → String → ℕ → FlowNode
complete_job n job cycle actuation now =
    elim (get n.master.ledger cycle.product_id cycle.fifo_sequence) [
      | none ↦ faulted n now
      | some c ↦
          tried n cycle.product_id (actuation_completed cycle.command_id actuation)
            (mark_actuation_completed c cycle.command_id actuation).1 now
            (λ n'.
              remove_completed_fifo_prefix
                (set_job n' job (record cycle { phase = completed; deadline_ns = 0 })) now)
    ]

abbrev owned_by :
    FlowNode
    → String
    → ActuationCycle
    → String
    → ℕ
    → IdempotencyStore String × ReplayDecision String
    → FlowNode
owned_by n job cycle actuation now (store, conflict) =
    faulted (record n { actuation_id_owners = store }) now
owned_by n job cycle actuation now (store, replay _) =
    complete_job (record n { actuation_id_owners = store }) job cycle actuation now
owned_by n job cycle actuation now (store, new) = elim (remember store actuation job job) [
  | raise e ↦ record n { actuation_id_owners = store }
  | ok store' ↦ complete_job (record n { actuation_id_owners = store' }) job cycle actuation now
]

unfoldable pub job_finished :
    FlowNode → String → ActuationCycle → Option ActuationResult → ℕ → FlowNode
job_finished n job cycle none now = faulted n now
job_finished n job cycle (some r) now =
    if not (same r.product_id cycle.product_id) || not r.success || is_empty r.actuation_id
    then faulted n now
    else owned_by n job cycle r.actuation_id now (inspect n.actuation_id_owners r.actuation_id job)

-- `_handle_actuation_result`; the future raises or gives a result.
unfoldable pub handle_actuation_result :
    FlowNode → String → String → Option ActuationResult → ℕ → FlowNode
handle_actuation_result n job command result now = elim (active_job n job command) [
  | none ↦ n
  | some cycle ↦ if in_state n fault_stop then n else job_finished n job cycle result now
]
