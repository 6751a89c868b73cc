-- ===== src/Master/Product.antt =====
-- product_flow.py: the record of one product on the line. The messages of the exceptions are left
-- out; their classes are kept.
pub mod Cycle
pub mod Skip
pub mod Verdicts
pub mod Command
pub mod Late
pub mod Frame
pub mod Locking
pub mod FailSafe
pub mod Revision
use ai_vision_inspection.Base.{
  ℕ, ◌+◌, String, String-discrete, ℕ_discrete, ℤ, List, [], Option, none, some, Bool, true, false,
  is_some, ◌||◌, Result,
}
use ai_vision_inspection.Constants.{
  ProductPhysicalState, station_a_wait, PhysicalZone, upper_inspection, StationId, a, b,
  StationId-discrete, Verdict, Verdict-discrete,
}

pub data ProductError : Type 0 where
  flow_error identity_conflict result_conflict value_error : ProductError

pub data StationProcessState : Type 0 where
  pending positioning position_settled capture_requested : StationProcessState
  capture_completed skipped failed : StationProcessState

unfoldable pub StationProcessState-discrete : Discrete StationProcessState
StationProcessState-discrete = hlevel

pub record StationDecision : Type 0 where
  pub station_id : StationId
  pub verdict : Verdict
  pub revision : ℕ
  pub capture_id : String
  pub inference_job_id : String
  pub frame_batch_id : String

unfoldable pub StationDecision-discrete : Discrete StationDecision
StationDecision-discrete = hlevel (ℕ_discrete, String-discrete)

pub record LockedProduct : Type 0 where
  pub product_id : String
  pub fifo_sequence : ℕ
  pub verdict : Verdict
  pub station_a_completed : Bool
  pub station_b_completed : Bool
  pub reason : String
  pub sensor3_event_id : String

unfoldable pub LockedProduct-discrete : Discrete LockedProduct
LockedProduct-discrete = hlevel (ℕ_discrete, String-discrete)

pub record StationInspection : Type 0 where
  pub station_id : StationId
  pub process_state : StationProcessState
  pub position_command_id : String
  pub position_settled : Bool
  pub capture_command_id : String
  pub capture_id : String
  pub frame_batch_id : String
  pub inference_job_id : String
  pub capture_succeeded : Bool
  pub decision : Option StationDecision
  pub failed : Bool
  pub conflicted : Bool
  pub failure_reason : String
  pub skipped_reason : String
  pub last_failure_revision : ℕ

-- `StationInspection(station_id)`
abbrev pub new_station : StationId → StationInspection
new_station id = record {
  station_id = id;
  process_state = pending;
  position_command_id = "";
  position_settled = false;
  capture_command_id = "";
  capture_id = "";
  frame_batch_id = "";
  inference_job_id = "";
  capture_succeeded = false;
  decision = none;
  failed = false;
  conflicted = false;
  failure_reason = "";
  skipped_reason = "";
  last_failure_revision = 0;
}

abbrev pub result_completed : StationInspection → Bool
result_completed s = is_some s.decision || s.failed || s.conflicted

-- `stations`, a dict with the two keys A and B, is the fields `station_a` and `station_b`.
pub record ProductContext : Type 0 where
  pub product_id : String
  pub fifo_sequence : ℕ
  pub physical_state : ProductPhysicalState
  pub physical_zone : PhysicalZone
  pub station_a : StationInspection
  pub station_b : StationInspection
  pub sensor_event_ids : List (ℕ × String)
  pub sensor_steps : List (ℕ × ℤ)
  pub locked : Option LockedProduct
  pub actuator_job_id : String
  pub actuator_command_id : String
  pub actuation_id : String
  pub completed : Bool
  pub removed : Bool
  pub removed_monotonic_ns : ℕ
  pub station_b_skip_requested : Bool
  pub station_b_skip_reason : String
  pub revision : ℕ

abbrev pub new_context : String → ℕ → ProductContext
new_context id sequence = record {
  product_id = id;
  fifo_sequence = sequence;
  physical_state = station_a_wait;
  physical_zone = upper_inspection;
  station_a = new_station a;
  station_b = new_station b;
  sensor_event_ids = [];
  sensor_steps = [];
  locked = none;
  actuator_job_id = "";
  actuator_command_id = "";
  actuation_id = "";
  completed = false;
  removed = false;
  removed_monotonic_ns = 0;
  station_b_skip_requested = false;
  station_b_skip_reason = "";
  revision = 1;
}

-- `_touch`
abbrev pub touch : ProductContext → ProductContext
touch c = record c { revision = c.revision + 1 }

abbrev pub station : ProductContext → StationId → StationInspection
station c a = c.station_a
station c b = c.station_b

-- A write to the station object that `station` returns.
abbrev pub set_station : ProductContext → StationId → StationInspection → ProductContext
set_station c a s = record c { station_a = s }
set_station c b s = record c { station_b = s }

-- A method leaves a context, and a value or an exception.
abbrev pub Outcome : Type 0 → Type 0
Outcome A = ProductContext × Result ProductError A
