-- ===== src/Master/Flow/Keeps.antt =====
-- master_node.py: the handlers change the ledger by its own calls only, so that what these calls keep
-- is kept by every handler.
pub mod Station
pub mod Capture
pub mod Report
pub mod Actuation
pub mod Entry
pub mod Recovery
pub mod Steps
use ai_vision_inspection.Base.{
  ℕ, String, Option, none, some, Bool, true, false, ◌≡◌, refl, arith, sym, subst,
}
use ai_vision_inspection.Constants.{device_recovery_manual, StationId, fault_stop}
use ai_vision_inspection.Master.Product.Command.{Command}
use ai_vision_inspection.Master.Ledger.{Ledger}
use ai_vision_inspection.Master.Ledger.Calls.{call, update, captures, finishes, clears, prunes}
use ai_vision_inspection.Master.Operation.{
  MasterNode, line_clear_required, apply_event, request_all_conveyors_stop,
}
use ai_vision_inspection.Master.Operation.Requests.{request_recoverable_device_pause}
use ai_vision_inspection.Master.Operation.Recovery.{latched}
use ai_vision_inspection.Master.Operation.LineClear.{latched-state}
use ai_vision_inspection.Master.Flow.{FlowNode, faulted, device_paused}

pub faulted-ledger : (n : FlowNode) (now : ℕ) → (faulted n now).master.ledger ≡ n.master.ledger
unfolding faulted latched apply_event request_all_conveyors_stop
faulted-ledger n now = ground arith

pub device_paused-ledger :
    (n : FlowNode) (now : ℕ) → (device_paused n now).master.ledger ≡ n.master.ledger
unfolding device_paused request_recoverable_device_pause apply_event request_all_conveyors_stop
device_paused-ledger n now = ground arith

-- A predicate that the calls on the ledger keep which register no product.
pub record IsKept (P : Ledger → Type 0) : Type 0 where
  pub updates : (l : Ledger) (id : String) (x : Command) → P l → P (update l id x)
  pub captures :
      (l : Ledger) (capture id : String) (s : StationId) → P l → P (call l (captures capture id s))
  pub finishes : (l : Ledger) (now : ℕ) → P l → P (call l (finishes now))
  pub clears : (l : Ledger) (now : ℕ) → P l → P (call l (clears now))
  pub prunes : (l : Ledger) (cutoff : ℕ) → P l → P (call l (prunes cutoff))

module _ (P : Ledger → Type 0) (k : IsKept P) where
  pub update-kept : (l : Ledger) (id : String) (x : Command) → P l → P (update l id x)
  update-kept l id x h = k.updates l id x h

  pub faulted-kept : (n : FlowNode) (now : ℕ) → P n.master.ledger → P (faulted n now).master.ledger
  faulted-kept n now h = rw (faulted-ledger n now) h

  pub device_paused-kept :
      (n : FlowNode) (now : ℕ) → P n.master.ledger → P (device_paused n now).master.ledger
  device_paused-kept n now h = rw (device_paused-ledger n now) h

pub faulted-state : (n : FlowNode) (now : ℕ) → (faulted n now).master.system_state ≡ fault_stop
unfolding faulted
faulted-state n now = (latched-state n.master line_clear_required now).0
