-- ===== src/Constants.antt =====
-- The enums that the nodes share (inspection_common/constants.py), with the numbers of the
-- ordered one.
use ai_vision_inspection.Base.{ℕ, ◌≡◌, arith}

pub data SystemState : Type 0 where
  boot initializing ready run_sys pausing paused fault_stop resetting : SystemState

unfoldable pub SystemState-discrete : Discrete SystemState
SystemState-discrete = hlevel

pub data NodeHealthState : Type 0 where
  starting ready degraded recovering init_blocked fault : NodeHealthState

unfoldable pub NodeHealthState-discrete : Discrete NodeHealthState
NodeHealthState-discrete = hlevel

pub data ProductPhysicalState : Type 0 where
  station_a_wait station_a_done flipping station_b_wait station_b_done : ProductPhysicalState
  sensor3_wait at_sensor3 actuating done : ProductPhysicalState

unfoldable pub ProductPhysicalState-discrete : Discrete ProductPhysicalState
ProductPhysicalState-discrete = hlevel

-- `.value` of the IntEnum: how far along the line the product is.
abbrev pub physical_value : ProductPhysicalState → ℕ
physical_value station_a_wait = 1
physical_value station_a_done = 2
physical_value flipping = 3
physical_value station_b_wait = 4
physical_value station_b_done = 5
physical_value sensor3_wait = 6
physical_value at_sensor3 = 7
physical_value actuating = 8
physical_value done = 9

pub physical_value-injective :
    (s t : ProductPhysicalState) → physical_value s ≡ physical_value t → s ≡ t
physical_value-injective s t h = ground arith

pub data PhysicalZone : Type 0 where
  upper_inspection flip_transfer lower_inspection lower_to_sensor3 : PhysicalZone

pub data StationId : Type 0 where
  a b : StationId

unfoldable pub StationId-discrete : Discrete StationId
StationId-discrete = hlevel

pub data ConveyorId : Type 0 where
  upper lower : ConveyorId

pub data Verdict : Type 0 where
  pass ng forced_ng : Verdict

unfoldable pub Verdict-discrete : Discrete Verdict
Verdict-discrete = hlevel

pub data ErrorCode : Type 0 where
  no_error capture_failed capture_skew_exceeded capture_save_failed capture_canceled : ErrorCode
  vision_disk_stop inference_failed inference_timeout inference_file_read_failed : ErrorCode
  gpu_out_of_memory control_failed position_failed actuator_failed log_commit_failed : ErrorCode
  command_conflict interface_version_mismatch node_init_failed : ErrorCode
  master_heartbeat_timeout implementation_pending internal_error : ErrorCode

pub data PauseReason : Type 0 where
  operator device_recovery_auto device_recovery_manual fault_recovery storage_recovery : PauseReason

unfoldable pub PauseReason-discrete : Discrete PauseReason
PauseReason-discrete = hlevel
