-- ===== src/Master/Operation/Running/Entry.antt =====
-- master_node.py: the entry into RUN_SYS.
use ai_vision_inspection.Base.{ℕ, true, false, List, ◌≡◌, ◌≢◌, inl, arith}
use ai_vision_inspection.Constants.{run_sys}
use ai_vision_inspection.Master.Operation.{MasterNode}
use ai_vision_inspection.Master.Operation.Steps.{Call, call, calls, confirms_running}
use ai_vision_inspection.Master.Operation.Running.Waiting.{calls-WaitsWell}
use ai_vision_inspection.Master.Operation.Running.{CanWait}
use ai_vision_inspection.Master.Operation.Running.Quiet.{call-Quiet}

-- Whatever calls a master gets that waits for no run, the next call sets the line running only if it is
-- the confirmation that all conveyors run, while a run that was asked for is waited for, in READY or in
-- PAUSED.
pub run_is_confirmed :
    (m : MasterNode) (cs : List (Call × ℕ)) (c : Call) (now : ℕ)
    → m.pending_run_confirmation ≡ false
    → (calls m cs).system_state ≢ run_sys
    → (call (calls m cs) c now).system_state ≡ run_sys
    → (c ≡ confirms_running)
      × ((calls m cs).pending_run_confirmation ≡ true)
      × CanWait (calls m cs).system_state
run_is_confirmed m cs c now p q r =
    ground (arith, call-Quiet (calls m cs) c now r, calls-WaitsWell m cs (inl p))
