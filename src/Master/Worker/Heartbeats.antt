-- ===== src/Master/Worker/Heartbeats.antt =====
-- worker_supervision.py: the order of the heartbeats that are accepted.

use ai_vision_inspection.Base.{
  ℕ, ◌<◌, String, String-discrete, true, false, List, [], ◌∷◌, ◌≡◌, ◌⊎◌, arith, equals,
  if◌then◌else◌,
}
use ai_vision_inspection.Master.Worker.{WorkerRuntimeState, Heartbeat, heard, accept_heartbeat}

-- The state after the heartbeats, and those accepted, in order.
unfoldable pub hear_all : WorkerRuntimeState → List Heartbeat → WorkerRuntimeState × List Heartbeat
hear_all w [] = (w, [])
hear_all w (h ∷ hs) =
    let rest = hear_all (accept_heartbeat w h).0 hs in
    if (accept_heartbeat w h).1.accepted then (rest.0, h ∷ rest.1) else rest

-- Each heartbeat after the one with the instance and sequence given is of another instance or has
-- a greater sequence than the one before it.
abbrev pub Rises : String → ℕ → List Heartbeat → Type 0
Rises id n [] = Unit
Rises id n (h ∷ hs) =
    ((equals String-discrete id h.node_instance_id ≡ false) ⊎ (n < h.sequence))
    × Rises h.node_instance_id h.sequence hs

accept_heartbeat-rises :
    (w : WorkerRuntimeState) (h : Heartbeat)
    → (accept_heartbeat w h).1.accepted ≡ true
    → ((equals String-discrete w.heartbeat_node_instance_id h.node_instance_id ≡ false)
        ⊎ (w.heartbeat_sequence < h.sequence))
unfolding accept_heartbeat
accept_heartbeat-rises w h k = ground arith

accept_heartbeat-heard :
    (w : WorkerRuntimeState) (h : Heartbeat)
    → (accept_heartbeat w h).1.accepted ≡ true
    → ((accept_heartbeat w h).0.heartbeat_node_instance_id ≡ h.node_instance_id)
      × ((accept_heartbeat w h).0.heartbeat_sequence ≡ h.sequence)
unfolding accept_heartbeat heard
accept_heartbeat-heard w h k = ground arith

-- A heartbeat that is not accepted changes nothing.
accept_heartbeat-refused :
    (w : WorkerRuntimeState) (h : Heartbeat)
    → (accept_heartbeat w h).1.accepted ≡ false
    → (accept_heartbeat w h).0 ≡ w
unfolding accept_heartbeat
accept_heartbeat-refused w h k = ground arith

-- Over every sequence of heartbeats, those accepted have sequences that rise as long as the
-- instance of the worker stays the same.
hear_all-Rises :
    (w : WorkerRuntimeState) (hs : List Heartbeat)
    → Rises w.heartbeat_node_instance_id w.heartbeat_sequence (hear_all w hs).1
unfolding hear_all
hear_all-Rises w [] = tt
hear_all-Rises w (h ∷ hs) = ground (
  arith,
  accept_heartbeat-rises w h,
  accept_heartbeat-heard w h,
  accept_heartbeat-refused w h,
  hear_all-Rises (accept_heartbeat w h).0 hs,
)
