-- ===== src/Master/Flow/Preserved.antt =====
-- master_node.py: what FAULT_STOP leaves as it is, and what is done all the same: old contexts are pruned,
-- and the end of a shutdown cancels the goals.
use ai_vision_inspection.Base.{
  ℕ, String, List, [], ◌∷◌, ◌++◌, not, equals, nat_eq, none, if◌then◌else◌, ◌≡◌, ◌⊎◌, ap, ◌||◌,
  Bool-cases, inl, inr, arith,
}
use mathlib.Core.List.{append-nil, append_assoc}
use ai_vision_inspection.Constants.{StationId, fault_stop}
use ai_vision_inspection.Master.Ledger.Removal.{prune_removed}
use ai_vision_inspection.Master.Ledger.Pruning.{prune_removed-active}
use ai_vision_inspection.Master.Operation.{ready_to_exit, MasterNode}
use ai_vision_inspection.Master.Operation.Deadlines.{confirm_all_conveyors_stopped}
use ai_vision_inspection.Master.Operation.Recovery.{update_equipment_snapshot}
use ai_vision_inspection.Master.Operation.Frame.{
  call-ledger, snapshot-ledger, confirm_stopped-ledger, check_line-ledger,
}
use ai_vision_inspection.Master.Operation.Cancels.{
  AsksAtExit, call-AsksAtExit, confirm_stopped-AsksAtExit,
}
use ai_vision_inspection.Master.Operation.Steps as Operation
use ai_vision_inspection.Master.Flow.{
  ActuationPhase-discrete, completed, FlowNode, StationCycle, ActuationCycle, Emission,
  capture_goal_canceled, actuation_goal_canceled,
}
use ai_vision_inspection.Master.Flow.Station.{Sending}
use ai_vision_inspection.Master.Flow.Recovery.{Supply, cancel_captures, cancel_actuations, operated}
use ai_vision_inspection.Master.Flow.Timeout.{
  on_all_stopped, EquipmentState, handle_equipment_state, prune_cutoff, prune_contexts,
  check_operation_deadlines,
}
use ai_vision_inspection.Master.Flow.Frozen.{
  Frozen, on_running-latched, on_all_running-latched, confirm_stopped-latched, on_reset-latched,
  snapshot-latched, check_line-latched,
}

-- A cancellation for each cycle of a station with the goal of its capture.
captures_canceled : List (StationId × StationCycle) → List Emission
captures_canceled [] = []
captures_canceled ((s, cycle) ∷ es) =
    let rest = captures_canceled es in
    if cycle.has_goal_handle then capture_goal_canceled cycle.capture_id ∷ rest else rest

-- A cancellation for each actuation with its goal that is not completed.
actuations_canceled : List (String × ActuationCycle) → List Emission
actuations_canceled [] = []
actuations_canceled ((job, cycle) ∷ es) =
    let rest = actuations_canceled es in
    if not cycle.has_goal_handle || equals ActuationPhase-discrete cycle.phase completed
    then rest
    else actuation_goal_canceled job ∷ rest

pub cancellations : FlowNode → List Emission
unfolding captures_canceled actuations_canceled
cancellations n = captures_canceled n.station_cycles ++ actuations_canceled n.actuation_cycles

cancel_captures_lem :
    (es : List (StationId × StationCycle)) (n : FlowNode)
    → cancel_captures n es ≡ record n { emissions = n.emissions ++ captures_canceled es }
unfolding cancel_captures captures_canceled
cancel_captures_lem [] n = ground (arith, append-nil n.emissions)
cancel_captures_lem ((s, cycle) ∷ es) n = elim (Bool-cases cycle.has_goal_handle) [
  | inl e ↦
      let sent = capture_goal_canceled cycle.capture_id in
      let n' = record n { emissions = n.emissions ++ sent ∷ [] } in
      rw e (
        ground (
          arith,
          cancel_captures_lem es n',
          append_assoc n.emissions (sent ∷ []) (captures_canceled es),
        ))
  | inr e ↦ rw e (cancel_captures_lem es n)
]

cancel_actuations_lem :
    (es : List (String × ActuationCycle)) (n : FlowNode)
    → cancel_actuations n es ≡ record n { emissions = n.emissions ++ actuations_canceled es }
unfolding cancel_actuations actuations_canceled
cancel_actuations_lem [] n = ground (arith, append-nil n.emissions)
cancel_actuations_lem ((job, cycle) ∷ es) n =
    let sent = actuation_goal_canceled job in
    let n' = record n { emissions = n.emissions ++ sent ∷ [] } in
    ground (
      arith,
      cancel_actuations_lem es n,
      cancel_actuations_lem es n',
      append_assoc n.emissions (sent ∷ []) (actuations_canceled es),
    )

pub operated_lem :
    (n : FlowNode) (m : MasterNode)
    → operated n m ≡ (
        if nat_eq m.goal_cancellations n.master.goal_cancellations
        then record n { master = m }
        else record n { master = m; emissions = n.emissions ++ cancellations n })
unfolding operated cancellations
operated_lem n m =
    let n' = record n { master = m } in
    ground (
      arith,
      cancel_captures_lem n.station_cycles n',
      cancel_actuations_lem n.actuation_cycles
          (record n' { emissions = n.emissions ++ captures_canceled n.station_cycles }),
      append_assoc n.emissions (captures_canceled n.station_cycles)
          (actuations_canceled n.actuation_cycles),
    )

-- The second node is the first one with its line, its cycles and its buffer; contexts may have been
-- pruned, and a shutdown may have ended.
abbrev pub Preserved : FlowNode → ℕ → FlowNode → Type 0
Preserved n now n' =
    ((n'.master.ledger ≡ n.master.ledger)
      ⊎ (n'.master.ledger ≡ (prune_removed n.master.ledger (prune_cutoff n now)).0))
    × (n'.master.ledger.active ≡ n.master.ledger.active)
    × (n'.station_cycles ≡ n.station_cycles)
    × (n'.actuation_cycles ≡ n.actuation_cycles)
    × (n'.deferred_station_starts ≡ n.deferred_station_starts)
    × (n'.deferred_capture_resumes ≡ n.deferred_capture_resumes)
    × (n'.result_reorder ≡ n.result_reorder)
    × ((n'.emissions ≡ n.emissions)
        ⊎ ((n'.emissions ≡ n.emissions ++ cancellations n)
            × (n'.master.shutdown_phase ≡ ready_to_exit)))

pub Preserved-Frozen : (n : FlowNode) (now : ℕ) (n' : FlowNode) → Frozen n n' → Preserved n now n'
Preserved-Frozen n now n' f = (inl f.0, ap (λ l. l.active) f.0, f.1, f.2, f.3, f.4, f.5, inl f.6)

-- An operation changes the part of the node in Master/Operation, and may end the shutdown.
operated-Preserved :
    (n : FlowNode) (m : MasterNode) (now : ℕ)
    → m.ledger ≡ n.master.ledger
    → AsksAtExit n.master m
    → Preserved n now (operated n m)
operated-Preserved n m now l h = rw (operated_lem n m) (ground arith)

pub operation-Preserved :
    (n : FlowNode) (c : Operation.Call) (now : ℕ)
    → Preserved n now (operated n (Operation.call n.master c now))
operation-Preserved n c now =
    operated-Preserved n (Operation.call n.master c now) now (call-ledger n.master c now)
      (call-AsksAtExit n.master c now)

pub check_operation_deadlines-Preserved :
    (n : FlowNode) (now : ℕ)
    → n.master.system_state ≡ fault_stop
    → Preserved n now (check_operation_deadlines n now)
unfolding check_operation_deadlines prune_contexts
check_operation_deadlines-Preserved n now h =
    let l = (prune_removed n.master.ledger (prune_cutoff n now)).0 in
    let m = record n.master { ledger = l } in
    ground (
      arith,
      check_line-latched n.master now h,
      check_line-latched m now h,
      check_line-ledger n.master now,
      check_line-ledger m now,
      prune_removed-active n.master.ledger (prune_cutoff n now),
    )

on_all_stopped-Preserved : (n : FlowNode) (now : ℕ) → Preserved n now (on_all_stopped n now)
unfolding on_all_stopped
on_all_stopped-Preserved n now =
    let m = confirm_all_conveyors_stopped n.master now in
    ground (
      arith,
      operated-Preserved n m now (confirm_stopped-ledger n.master now)
          (confirm_stopped-AsksAtExit n.master now),
    )

on_all_stopped-latched :
    (n : FlowNode) (now : ℕ)
    → n.master.system_state ≡ fault_stop
    → (on_all_stopped n now).master.system_state ≡ fault_stop
unfolding on_all_stopped
on_all_stopped-latched n now h = ground (
  arith,
  confirm_stopped-latched n.master now h,
  operated_lem n (confirm_all_conveyors_stopped n.master now),
)

-- A report changes only the part of the node in Master/Operation before it finds the line stopped.
reported-Preserved :
    (n n' : FlowNode) (m : MasterNode) (now : ℕ)
    → m.ledger ≡ n.master.ledger
    → Preserved (record n { master = m }) now n'
    → Preserved n now n'
unfolding cancellations
reported-Preserved n n' m now l p = ground arith

pub handle_equipment_state-Preserved :
    (n : FlowNode) (e : EquipmentState) (supply : Supply) (sending : Sending) (now : ℕ)
    → n.master.system_state ≡ fault_stop
    → Preserved n now (handle_equipment_state n e supply sending now)
unfolding handle_equipment_state
handle_equipment_state-Preserved n e supply sending now h =
    let m = update_equipment_snapshot n.master (record e.update { estop = none }) now in
    let n1 = record n { master = m } in
    let s = snapshot-latched n.master e.update now h in
    let stopped = on_all_stopped n1 now in
    grind (
      arith,
      on_running-latched,
      on_all_running-latched n1 supply sending now s,
      on_reset-latched stopped now (on_all_stopped-latched n1 now s),
      reported-Preserved n stopped m now
          (snapshot-ledger n.master (record e.update { estop = none }) now)
          (on_all_stopped-Preserved n1 now),
    )
