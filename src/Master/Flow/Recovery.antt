-- ===== src/Master/Flow/Recovery.antt =====
-- master_node.py: what a pause, a reset and the return of the vision node do to the cycles. A Python
-- set is iterated in the order of its insertions.
use ai_vision_inspection.Base.{
  ℕ, String, List, [], ◌∷◌, ◌++◌, map, none, some, Bool, true, false, ◌&&◌, ◌||◌, not, is_some,
  equals, nat_eq, if◌then◌else◌, Result, ok, raise,
}
use ai_vision_inspection.Base.Dict
use ai_vision_inspection.Constants.{StationId, a, b}
use ai_vision_inspection.Master.Product.{ProductContext, ProductError, station, result_completed}
use ai_vision_inspection.Master.Product.Cycle.{mark_capture_failed}
use ai_vision_inspection.Master.Product.Command.{recover, capture_failed, recover_station}
use ai_vision_inspection.Master.Ledger.{Owner-discrete, get, get_by_id}
use ai_vision_inspection.Master.Operation.{MasterNode}
use ai_vision_inspection.Master.Operation.Requests.{confirm_all_conveyors_running}
use ai_vision_inspection.Master.Flow.{
  StationCycle, ActuationCycle, resume_pending, ActuationPhase-discrete, goal_pending,
  waiting_result, completed, Scope, Scopes, FlowNode, capture_goal_canceled,
  actuation_goal_canceled, cycle_at, set_cycle, phase_is, discard_start, defer_resume, emit,
  faulted, applied,
}
use ai_vision_inspection.Master.Flow.Station.{Sending, start_station_cycle, recovered_cycle}
use ai_vision_inspection.Master.Flow.Capture.{confirm_conveyor_resumed, product_of}
use ai_vision_inspection.Master.Flow.Cancel.{cancel_station_b_after_a_terminal}
use ai_vision_inspection.Master.Flow.Actuation.{send_actuation_goal}

-- The identifiers that are made for the start of a product at a station.
abbrev pub Supply : Type 0
Supply = Scope → String × String

unfoldable pub resume_captures : FlowNode → Scopes → ℕ → FlowNode
resume_captures n [] now = n
resume_captures n (((id, s), u) ∷ es) now =
    resume_captures (confirm_conveyor_resumed n id s now) es now

unfoldable pub start_deferred : FlowNode → Scope → Supply → ℕ → FlowNode
start_deferred n (id, s) supply now = elim (get_by_id n.master.ledger id) [
  | none ↦ discard_start n id s
  | some c ↦
      if c.removed
      then discard_start n id s
      else start_station_cycle n c.product_id c.fifo_sequence s (supply (id, s)).0
          (supply (id, s)).1 now
]

unfoldable pub start_all_deferred : FlowNode → Scopes → Supply → ℕ → FlowNode
start_all_deferred n [] supply now = n
start_all_deferred n ((scope, u) ∷ es) supply now =
    start_all_deferred (start_deferred n scope supply now) es supply now

unfoldable pub send_again : FlowNode → ActuationCycle → Sending → ℕ → FlowNode
send_again n cycle sending now =
    if not (equals ActuationPhase-discrete cycle.phase goal_pending)
    then n
    else elim (get n.master.ledger cycle.product_id cycle.fifo_sequence) [
      | none ↦ n
      | some c ↦ elim c.locked [ none ↦ n | some locked ↦ send_actuation_goal n locked sending now ]
    ]

unfoldable pub send_all_again : FlowNode → List (String × ActuationCycle) → Sending → ℕ → FlowNode
send_all_again n [] sending now = n
send_all_again n ((job, cycle) ∷ es) sending now =
    send_all_again (send_again n cycle sending now) es sending now

-- `_resume_deferred_operations`
unfoldable pub resume_deferred_operations : FlowNode → Supply → Sending → ℕ → FlowNode
resume_deferred_operations n supply sending now =
    let n1 = resume_captures n n.deferred_capture_resumes now in
    let n2 = start_all_deferred n1 n1.deferred_station_starts supply now in
    send_all_again n2 n2.actuation_cycles sending now

abbrev resumed : FlowNode → Supply → Sending → ℕ → MasterNode × Bool → FlowNode
resumed n supply sending now (m, false) = record n { master = m }
resumed n supply sending now (m, true) =
    resume_deferred_operations (record n { master = m }) supply sending now

-- `confirm_all_conveyors_running`, with the operations that it resumes.
unfoldable pub confirm_running : FlowNode → Supply → Sending → ℕ → FlowNode
confirm_running n supply sending now =
    resumed n supply sending now (confirm_all_conveyors_running n.master)

-- `_cancel_tracked_operation_goals`, in two loops
unfoldable pub cancel_captures : FlowNode → List (StationId × StationCycle) → FlowNode
cancel_captures n [] = n
cancel_captures n ((s, cycle) ∷ es) =
    cancel_captures
      (if cycle.has_goal_handle then emit n (capture_goal_canceled cycle.capture_id) else n) es

unfoldable pub cancel_actuations : FlowNode → List (String × ActuationCycle) → FlowNode
cancel_actuations n [] = n
cancel_actuations n ((job, cycle) ∷ es) =
    cancel_actuations
      (if cycle.has_goal_handle && not (equals ActuationPhase-discrete cycle.phase completed)
        then emit n (actuation_goal_canceled job)
        else n)
      es

-- `_cancel_tracked_operation_goals(include_actuation=True)`
abbrev pub cancel_tracked_operation_goals : FlowNode → FlowNode
cancel_tracked_operation_goals n =
    cancel_actuations (cancel_captures n n.station_cycles) n.actuation_cycles

-- The node after a call on its part in Master/Operation. If `_finalize_shutdown_sequence` has cancelled the
-- goals in it, these are the goals of the node; the call does nothing else to them.
unfoldable pub operated : FlowNode → MasterNode → FlowNode
operated n m =
    let n' = record n { master = m } in
    if nat_eq m.goal_cancellations n.master.goal_cancellations
    then n'
    else cancel_tracked_operation_goals n'

unfoldable pub any_waits_for_result : List (String × ActuationCycle) → Bool
any_waits_for_result [] = false
any_waits_for_result ((job, cycle) ∷ es) =
    equals ActuationPhase-discrete cycle.phase waiting_result || any_waits_for_result es

abbrev in_scopes : Scopes → String → StationId → Bool
in_scopes d id s = is_some (Dict.get Owner-discrete (id, s) d)

abbrev nonresidual_reason : String
nonresidual_reason =
    "Vision ended before station motor stop; product is non-residual and is not recaptured"

-- The node, the products that became FORCED_NG, and whether the recovery goes on.
abbrev pub Recovering : Type 0
Recovering = FlowNode × List Scope × Bool

-- What follows a call on the context: its ProductFlowError ends the recovery with a fault.
abbrev recovered_by :
    {A : Type 0} → Result ProductError A → FlowNode → ℕ → FlowNode → List Scope → Recovering
recovered_by (raise e) n now n' failures = (faulted n now, [], false)
recovered_by (ok v) n now n' failures = (n', failures, true)

unfoldable pub recover_product :
    FlowNode → StationCycle → ProductContext → StationId → ℕ → Recovering
recover_product n cycle c s now =
    let id = cycle.product_id in
    let stopped = set_cycle n s (record cycle { deadline_ns = 0 }) in
    if phase_is cycle resume_pending
    then (defer_resume stopped id s, [], true)
    else if not (result_completed (station c s))
        && in_scopes n.vision_outage_affected id s
        && not (in_scopes n.vision_outage_residual id s)
    then (let failing = applied stopped id (capture_failed s cycle.capture_id nonresidual_reason) in
        recovered_by (mark_capture_failed c s cycle.capture_id nonresidual_reason).1 failing now
          (recovered_cycle failing cycle s true) ((id, s) ∷ []))
    else let recovering = applied stopped id (recover s) in
      recovered_by (recover_station c s).1 recovering now
        (recovered_cycle recovering cycle s (result_completed (station c s))) []

unfoldable pub recover_station_cycle : FlowNode → StationId → ℕ → Recovering
recover_station_cycle n s now = elim (cycle_at n s) [
  | none ↦ (n, [], true)
  | some cycle ↦ elim (product_of n cycle) [
    | none ↦ (faulted (set_cycle n s (record cycle { deadline_ns = 0 })) now, [], false)
    | some c ↦ recover_product n cycle c s now
  ]
]

unfoldable pub recover_stations : FlowNode → List StationId → ℕ → Recovering
recover_stations n [] now = (n, [], true)
recover_stations n (s ∷ ss) now =
    let (n', failures, ok') = recover_station_cycle n s now in
    let (n'', more, ok'') = recover_stations n' ss now in
    if ok' then (n'', failures ++ more, ok'') else (n', failures, false)

unfoldable pub cancel_after_recovery : FlowNode → List Scope → ℕ → FlowNode
cancel_after_recovery n [] now = n
cancel_after_recovery n ((id, a) ∷ es) now =
    cancel_after_recovery (cancel_station_b_after_a_terminal n id nonresidual_reason now) es now
cancel_after_recovery n ((id, b) ∷ es) now = cancel_after_recovery n es now

abbrev without_deadline : ActuationCycle → ActuationCycle
without_deadline cycle = elim (ActuationPhase-discrete cycle.phase goal_pending) [
  | yes _ ↦ record cycle { deadline_ns = 0 }
  | no _ ↦ cycle
]

abbrev recovery_done : ℕ → Recovering → FlowNode × Bool
recovery_done now (n, failures, false) = (n, false)
recovery_done now (n, failures, true) =
    let n' = cancel_after_recovery n failures now in
    (
      record n' {
        vision_outage_affected = [];
        vision_outage_residual = [];
        actuation_cycles = map (λ e. (e.0, without_deadline e.1)) n'.actuation_cycles;
      },
      true,
    )

-- `_prepare_in_place_recovery`
unfoldable pub prepare_in_place_recovery : FlowNode → ℕ → FlowNode × Bool
prepare_in_place_recovery n now =
    if any_waits_for_result n.actuation_cycles
    then (faulted n now, false)
    else recovery_done now (
        recover_stations (cancel_captures n n.station_cycles) (map (λ e. e.0) n.station_cycles) now)
