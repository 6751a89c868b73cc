-- ===== src/Master/Flow/Capture.antt =====
-- master_node.py: the answers of the vision node to a capture, and the conveyor that moves on.
use ai_vision_inspection.Base.{
  ℕ, String, String-discrete, List, [], ◌∷◌, map, Option, none, some, Bool, true, false, ◌&&◌, ◌||◌,
  not, is_empty, nat_eq, contains, or_default, if◌then◌else◌,
}
use Prim.Native.String as Native
use ai_vision_inspection.Constants.{StationId, a, b, fault_stop}
use ai_vision_inspection.Common.NodeBase.Commands.{is_sha256_hex}
use ai_vision_inspection.Master.Product.{ProductContext}
use ai_vision_inspection.Master.Product.Cycle.{
  same, mark_capture_succeeded, mark_capture_failed, mark_conveyor_resumed_after_capture,
}
use ai_vision_inspection.Master.Product.Command.{capture_succeeded, capture_failed, resume}
use ai_vision_inspection.Master.Ledger.{get}
use ai_vision_inspection.Master.Operation.Deadlines.{pause_line}
use ai_vision_inspection.Master.Flow.{
  StationCycle, waiting_capture_result, resume_pending, FlowNode, capture_goal_canceled, in_state,
  cycle_at, set_cycle, pop_cycle, phase_is, is_station_b, cameras_of, discard_resume, emit, faulted,
  device_paused, tried,
}
use ai_vision_inspection.Master.Flow.Station.{
  pause_station_for_recovery, resume_conveyor_after_capture,
}
use ai_vision_inspection.Master.Flow.Cancel.{cancel_station_b_after_a_terminal}

-- The cycle of the station, if the capture is the one that it waits for.
abbrev if_active : String → Option StationCycle → Option StationCycle
if_active capture none = none
if_active capture (some cycle) = if same cycle.capture_id capture then some cycle else none

unfoldable pub active_cycle : FlowNode → StationId → String → Option StationCycle
active_cycle n s capture = if_active capture (cycle_at n s)

-- `_handle_capture_feedback`; the flag says ENQUEUE_BLOCKED.
unfoldable pub handle_capture_feedback : FlowNode → StationId → String → Bool → ℕ → FlowNode
handle_capture_feedback n s capture blocked now = elim (active_cycle n s capture) [
  | none ↦ n
  | some cycle ↦ if in_state n fault_stop || not blocked then n else record n {
    master =
        pause_line (record n.master { paused_by_queue = true; queue_recovered_pending = false })
          now;
  }
]

-- The answer to a goal: the future raises, or the goal is rejected or accepted.
pub data GoalResponse : Type 0 where
  response_raises rejected goal_accepted : GoalResponse

abbrev skips_b : StationId → Option ProductContext → Bool
skips_b s none = false
skips_b s (some c) = is_station_b s && c.station_b_skip_requested

abbrev pub product_of : FlowNode → StationCycle → Option ProductContext
product_of n cycle = get n.master.ledger cycle.product_id cycle.fifo_sequence

unfoldable pub capture_accepted : FlowNode → StationCycle → StationId → FlowNode
capture_accepted n cycle s =
    if skips_b s (product_of n cycle)
    then emit (set_cycle n s (record cycle { has_goal_handle = true }))
        (capture_goal_canceled cycle.capture_id)
    else set_cycle n s (record cycle { has_goal_handle = true; phase = waiting_capture_result })

abbrev on_response : FlowNode → StationCycle → StationId → GoalResponse → ℕ → FlowNode
on_response n cycle s goal_accepted now = capture_accepted n cycle s
on_response n cycle s _ now = pause_station_for_recovery n s now

-- `_handle_capture_goal_response`
unfoldable pub handle_capture_goal_response :
    FlowNode → StationId → String → GoalResponse → ℕ → FlowNode
handle_capture_goal_response n s capture response now = elim (active_cycle n s capture) [
  | none ↦ n
  | some cycle ↦ if in_state n fault_stop then n else on_response n cycle s response now
]

pub record CapturedImage : Type 0 where
  pub camera_id : String
  pub file_path : String
  pub sha256 : String
  pub file_size_bytes : ℕ
  pub width : ℕ
  pub height : ℕ
  pub pixel_format : String

-- The result of CaptureProduct.
pub record CaptureResult : Type 0 where
  pub product_id : String
  pub station_id : ℕ
  pub capture_id : String
  pub success : Bool
  pub error_code : ℕ
  pub reason : String
  pub frame_batch_id : String
  pub inference_job_id : String
  pub attempt_count : ℕ
  pub images : List CapturedImage

abbrev command_conflict_code : ℕ
command_conflict_code = 9000

abbrev pub vision_disk_stop_code : ℕ
vision_disk_stop_code = 1004

abbrev station_number : StationId → ℕ
station_number a = 1
station_number b = 2

abbrev image_complete : CapturedImage → Bool
image_complete i =
    not (is_empty i.file_path)
    && is_sha256_hex i.sha256
    && not (nat_eq i.file_size_bytes 0)
    && not (nat_eq i.width 0)
    && not (nat_eq i.height 0)
    && same i.pixel_format "MONO8_PNG"

unfoldable pub images_complete : List CapturedImage → Bool
images_complete [] = true
images_complete (i ∷ is) = image_complete i && images_complete is

unfoldable pub all_in : List String → List String → Bool
all_in [] ys = true
all_in (x ∷ xs) ys = contains String-discrete x ys && all_in xs ys

unfoldable pub no_duplicates : List String → Bool
no_duplicates [] = true
no_duplicates (x ∷ xs) = not (contains String-discrete x xs) && no_duplicates xs

-- The payload of a success is complete: its cameras are the required ones, each once.
unfoldable pub payload_complete : CaptureResult → List String → Bool
payload_complete r required =
    let cameras = map (λ i. i.camera_id) r.images in
    not (is_empty r.frame_batch_id)
    && not (is_empty r.inference_job_id)
    && not (nat_eq r.attempt_count 0)
    && no_duplicates cameras
    && all_in cameras required
    && all_in required cameras
    && images_complete r.images

abbrev cancel_after_failure : FlowNode → StationCycle → StationId → String → ℕ → FlowNode
cancel_after_failure n cycle a reason now =
    cancel_station_b_after_a_terminal n cycle.product_id
      (Native.◌++◌ "Station A capture failure: " reason) now
cancel_after_failure n cycle b reason now = n

abbrev pause_for_disk : FlowNode → ℕ → ℕ → FlowNode
pause_for_disk n error_code now =
    if nat_eq error_code vision_disk_stop_code then device_paused n now else n

-- Once the context has the failure.
unfoldable pub capture_failure_applied :
    FlowNode → StationCycle → StationId → String → ℕ → ℕ → FlowNode
capture_failure_applied n cycle s reason error_code now =
    resume_conveyor_after_capture
      (pause_for_disk (cancel_after_failure n cycle s reason now) error_code now) cycle.product_id s
      now

-- `_finish_capture_failure`, for the cycle of the station.
unfoldable pub finish_capture_failure :
    FlowNode → StationCycle → StationId → String → ℕ → ℕ → FlowNode
finish_capture_failure n cycle s reason error_code now =
    if in_state n fault_stop then n else elim (product_of n cycle) [
      | none ↦ faulted n now
      | some c ↦
          tried n cycle.product_id (capture_failed s cycle.capture_id reason)
            (mark_capture_failed c s cycle.capture_id reason).1 now
            (λ n'. capture_failure_applied n' cycle s reason error_code now)
    ]

unfoldable pub capture_success : FlowNode → StationCycle → StationId → CaptureResult → ℕ → FlowNode
capture_success n cycle s r now =
    if not (payload_complete r (cameras_of n.flow s))
    then finish_capture_failure n cycle s
        "CaptureProduct success payload is incomplete or camera set differs" 0 now
    else elim (product_of n cycle) [
      | none ↦ faulted n now
      | some c ↦
          tried n cycle.product_id
            (capture_succeeded s cycle.capture_id r.frame_batch_id r.inference_job_id)
            (mark_capture_succeeded c s cycle.capture_id r.frame_batch_id r.inference_job_id).1 now
            (λ n'. resume_conveyor_after_capture n' cycle.product_id s now)
    ]

unfoldable pub capture_finished : FlowNode → StationCycle → StationId → CaptureResult → ℕ → FlowNode
capture_finished n cycle s r now =
    if not (same r.product_id cycle.product_id)
      || not (nat_eq r.station_id (station_number s))
      || not (same r.capture_id cycle.capture_id)
    then faulted n now
    else if skips_b s (product_of n cycle)
    then (if phase_is cycle resume_pending
        then n
        else resume_conveyor_after_capture n cycle.product_id b now)
    else if r.success
    then capture_success n cycle s r now
    else if nat_eq r.error_code command_conflict_code
    then faulted n now
    else finish_capture_failure n cycle s (or_default r.reason "final station capture failed")
        r.error_code now

abbrev on_result : FlowNode → StationCycle → StationId → Option CaptureResult → ℕ → FlowNode
on_result n cycle s none now = pause_station_for_recovery n s now
on_result n cycle s (some r) now = capture_finished n cycle s r now

-- `_handle_capture_result`; the future raises or gives a result.
unfoldable pub handle_capture_result :
    FlowNode → StationId → String → Option CaptureResult → ℕ → FlowNode
handle_capture_result n s capture result now = elim (active_cycle n s capture) [
  | none ↦ n
  | some cycle ↦ if in_state n fault_stop then n else on_result n cycle s result now
]

unfoldable pub resume_cycle : FlowNode → StationCycle → StationId → ℕ → FlowNode
resume_cycle n cycle s now = elim (product_of n cycle) [
  | none ↦ faulted n now
  | some c ↦
      tried n cycle.product_id (resume s) (mark_conveyor_resumed_after_capture c s).1 now
        (λ n'. discard_resume (pop_cycle n' s) cycle.product_id s)
]

-- `confirm_conveyor_resumed`
unfoldable pub confirm_conveyor_resumed : FlowNode → String → StationId → ℕ → FlowNode
confirm_conveyor_resumed n id s now = elim (cycle_at n s) [
  | none ↦ n
  | some cycle ↦
      if not (same cycle.product_id id)
        || not (phase_is cycle resume_pending)
        || in_state n fault_stop
      then n
      else resume_cycle n cycle s now
]
