-- ===== src/Master/Worker/Evidence.antt =====
-- worker_supervision.py: what a worker is believed ready on, over every sequence of calls.

use ai_vision_inspection.Base.{ℕ, String, Bool, true, false, List, [], ◌∷◌, ◌≡◌, refl, arith}
use ai_vision_inspection.Master.Worker.{
  WorkerRuntimeState, begin_attempt, mark_goal_accepted, ActionResult, mark_action_ready,
  begin_status_check, schedule_status_poll, invalidate_epoch_evidence, NodeStatus, record_status,
  schedule_retry, Heartbeat, heard, accept_heartbeat, Expected, can_mark_ready, mark_ready,
}

-- A call of a method of WorkerRuntimeState.
pub data Call : Type 0 where
  begins : String → ℕ → ℕ → ℕ → Call
  goal_accepted : Call
  action : ActionResult → ℕ → ℕ → Call
  status_check : String → Call
  status_poll : ℕ → ℕ → Call
  epoch_lost : ℕ → ℕ → Call
  status : NodeStatus → Call
  retry : ℕ → ℕ → ℕ → String → Bool → Call
  heartbeat : Heartbeat → Call
  ready_marked : Call

unfoldable pub call : WorkerRuntimeState → Call → WorkerRuntimeState
call w (begins request_id attempt now timeout) = begin_attempt w request_id attempt now timeout
call w goal_accepted = mark_goal_accepted w
call w (action r now timeout) = mark_action_ready w r now timeout
call w (status_check request_id) = begin_status_check w request_id
call w (status_poll now interval) = schedule_status_poll w now interval
call w (epoch_lost now interval) = invalidate_epoch_evidence w now interval
call w (status s) = record_status w s
call w (retry now interval code reason manual) = schedule_retry w now interval code reason manual
call w (heartbeat h) = (accept_heartbeat w h).0
call w ready_marked = mark_ready w

unfoldable pub calls : WorkerRuntimeState → List Call → WorkerRuntimeState
calls w [] = w
calls w (c ∷ cs) = calls (call w c) cs

-- Whether the calls hold a result of the initialization action.
unfoldable pub has_action : List Call → Bool
has_action [] = false
has_action (action r now timeout ∷ cs) = true
has_action (_ ∷ cs) = has_action cs

-- Whether the calls hold an answer to a status request.
unfoldable pub has_status : List Call → Bool
has_status [] = false
has_status (status s ∷ cs) = true
has_status (_ ∷ cs) = has_status cs

calls-action :
    (w : WorkerRuntimeState) (cs : List Call)
    → w.action_ready ≡ false
    → (calls w cs).action_ready ≡ true
    → has_action cs ≡ true
unfolding calls call has_action accept_heartbeat begin_attempt mark_goal_accepted begin_status_check
    schedule_status_poll invalidate_epoch_evidence record_status schedule_retry mark_ready heard
calls-action w [] h k = cc
calls-action w (action r now timeout ∷ cs) h k = refl
calls-action w (begins a b c d ∷ cs) h k = calls-action (begin_attempt w a b c d) cs refl k
calls-action w (goal_accepted ∷ cs) h k = calls-action (mark_goal_accepted w) cs h k
calls-action w (status_check a ∷ cs) h k = calls-action (begin_status_check w a) cs h k
calls-action w (status_poll a b ∷ cs) h k = calls-action (schedule_status_poll w a b) cs h k
calls-action w (epoch_lost a b ∷ cs) h k =
    calls-action (invalidate_epoch_evidence w a b) cs (ground arith) k
calls-action w (status s ∷ cs) h k = calls-action (record_status w s) cs h k
calls-action w (retry a b c d e ∷ cs) h k = calls-action (schedule_retry w a b c d e) cs refl k
calls-action w (heartbeat b ∷ cs) h k = calls-action (accept_heartbeat w b).0 cs (ground arith) k
calls-action w (ready_marked ∷ cs) h k = calls-action (mark_ready w) cs h k

calls-status :
    (w : WorkerRuntimeState) (cs : List Call)
    → w.status_verified ≡ false
    → (calls w cs).status_verified ≡ true
    → has_status cs ≡ true
unfolding calls call has_status accept_heartbeat begin_attempt mark_goal_accepted begin_status_check
    schedule_status_poll invalidate_epoch_evidence mark_action_ready schedule_retry mark_ready heard
calls-status w [] h k = cc
calls-status w (status s ∷ cs) h k = refl
calls-status w (begins a b c d ∷ cs) h k = calls-status (begin_attempt w a b c d) cs refl k
calls-status w (goal_accepted ∷ cs) h k = calls-status (mark_goal_accepted w) cs h k
calls-status w (status_check a ∷ cs) h k = calls-status (begin_status_check w a) cs h k
calls-status w (status_poll a b ∷ cs) h k = calls-status (schedule_status_poll w a b) cs h k
calls-status w (epoch_lost a b ∷ cs) h k =
    calls-status (invalidate_epoch_evidence w a b) cs (ground arith) k
calls-status w (action r a b ∷ cs) h k = calls-status (mark_action_ready w r a b) cs h k
calls-status w (retry a b c d e ∷ cs) h k = calls-status (schedule_retry w a b c d e) cs refl k
calls-status w (heartbeat b ∷ cs) h k = calls-status (accept_heartbeat w b).0 cs (ground arith) k
calls-status w (ready_marked ∷ cs) h k = calls-status (mark_ready w) cs h k

restart_drops :
    (w : WorkerRuntimeState) (h : Heartbeat)
    → (accept_heartbeat w h).1.restarted ≡ true
    → ((accept_heartbeat w h).0.action_ready ≡ false)
      × ((accept_heartbeat w h).0.status_verified ≡ false)
unfolding accept_heartbeat heard
restart_drops w h r = ground arith

can_mark_ready-action :
    (w : WorkerRuntimeState) (e : Expected) → can_mark_ready w e ≡ true → w.action_ready ≡ true
unfolding can_mark_ready
can_mark_ready-action w e h = ground arith

can_mark_ready-status :
    (w : WorkerRuntimeState) (e : Expected) → can_mark_ready w e ≡ true → w.status_verified ≡ true
unfolding can_mark_ready
can_mark_ready-status w e h = ground arith

-- After a heartbeat that is taken for a restart of the worker, no calls make the worker fit to be
-- marked ready unless they hold a new result of the initialization action and a new status answer.
pub restart_needs_evidence :
    (w : WorkerRuntimeState) (h : Heartbeat) (cs : List Call) (e : Expected)
    → (accept_heartbeat w h).1.restarted ≡ true
    → can_mark_ready (calls (accept_heartbeat w h).0 cs) e ≡ true
    → (has_action cs ≡ true) × (has_status cs ≡ true)
restart_needs_evidence w h cs e r k = (
  calls-action _ cs (restart_drops w h r).0 (can_mark_ready-action _ e k),
  calls-status _ cs (restart_drops w h r).1 (can_mark_ready-status _ e k),
)
