-- ===== src/Master/SystemFsm.antt =====
-- system_fsm.py: the transition table of the whole system, and the lookup in it.
pub mod Table
pub mod Safety
use ai_vision_inspection.Base.{
  String, List, [], ◌∷◌, ◌++◌, map, Option, none, some, Bool, true, false, holds, ◌&&◌,
}
use ai_vision_inspection.Constants.{SystemState, SystemState-discrete}
use ai_vision_inspection.Constants.SystemState.{
  boot, initializing, ready, run_sys, pausing, paused, fault_stop, resetting,
}

pub data SystemEvent : Type 0 where
  app_started init_done init_failed init_timeout start_request start_failed : SystemEvent
  all_conveyors_running pause_request recoverable_device_fault : SystemEvent
  all_conveyors_stopped pause_failed pause_timeout resume_request device_recovered : SystemEvent
  resume_failed critical_fault reset_request reset_succeeded_empty_line : SystemEvent
  reset_succeeded_in_place reset_failed reset_timeout estop_asserted : SystemEvent

unfoldable pub SystemEvent-discrete : Discrete SystemEvent
SystemEvent-discrete = hlevel

pub record SystemTransition : Type 0 where
  pub rule_id : String
  pub previous : SystemState
  pub event : SystemEvent
  pub current : SystemState
  pub reason : String

-- `SystemTransition.changed`
pub changed : SystemTransition → Bool
changed t = elim (SystemState-discrete t.previous t.current) [ yes _ ↦ false | no _ ↦ true ]

-- A row of `_TRANSITIONS`: the key, and the value that `_rule` builds.
pub record Rule : Type 0 where
  pub state : SystemState
  pub event : SystemEvent
  pub rule_id : String
  pub target : SystemState

abbrev pub row : SystemState → SystemEvent → String → SystemState → Rule
row s e r t = record { state = s; event = e; rule_id = r; target = t }

unfoldable pub transitions : List Rule
transitions =
    row boot app_started "SYS-01" initializing
    ∷ row initializing init_done "SYS-02" ready
    ∷ row initializing init_failed "SYS-03" initializing
    ∷ row initializing init_timeout "SYS-03" initializing
    ∷ row ready start_request "SYS-04" ready
    ∷ row ready start_failed "SYS-04" ready
    ∷ row ready all_conveyors_running "SYS-04" run_sys
    ∷ row run_sys pause_request "SYS-05" pausing
    ∷ row run_sys recoverable_device_fault "SYS-05A" pausing
    ∷ row pausing all_conveyors_stopped "SYS-06" paused
    ∷ row pausing pause_failed "SYS-07" fault_stop
    ∷ row pausing pause_timeout "SYS-07" fault_stop
    ∷ row paused resume_request "SYS-08" paused
    ∷ row paused device_recovered "SYS-08" paused
    ∷ row paused resume_failed "SYS-08" paused
    ∷ row paused all_conveyors_running "SYS-08" run_sys
    ∷ row fault_stop reset_request "SYS-11" resetting
    ∷ row resetting reset_succeeded_empty_line "SYS-12" ready
    ∷ row resetting reset_succeeded_in_place "SYS-12A" paused
    ∷ row resetting reset_failed "SYS-13" resetting
    ∷ row resetting reset_timeout "SYS-13" resetting
    ∷ []

-- `_TRANSITIONS.get((current, event))`
unfoldable pub find_rule : SystemState → SystemEvent → List Rule → Option Rule
find_rule s e [] = none
find_rule s e (r ∷ rs) =
    elim (holds (SystemState-discrete r.state s) && holds (SystemEvent-discrete r.event e)) [
      | true ↦ some r
      | false ↦ find_rule s e rs
    ]

-- `_FAULT_EVENTS.get(event)`
unfoldable pub fault_rule : SystemEvent → Option String
fault_rule critical_fault = some "SYS-10"
fault_rule estop_asserted = some "SYS-15"
fault_rule _ = none

unfoldable pub from_rule :
    SystemState → SystemEvent → String → Option Rule → Option SystemTransition
from_rule current event reason none = none
from_rule current event reason (some r) = some (record {
  rule_id = r.rule_id;
  previous = current;
  event = event;
  current = r.target;
  reason = reason;
})

-- `none` is the exception InvalidSystemTransition.
unfoldable pub decide_system_transition :
    SystemState → SystemEvent → String → Option SystemTransition
decide_system_transition current event reason = elim (fault_rule event) [
  | some id ↦ some (record {
    rule_id = id;
    previous = current;
    event = event;
    current = fault_stop;
    reason = reason;
  })
  | none ↦ from_rule current event reason (find_rule current event transitions)
]

pub local_events : SystemState → List Rule → List SystemEvent
local_events s [] = []
local_events s (r ∷ rs) = elim (SystemState-discrete r.state s) [
  | yes _ ↦ r.event ∷ local_events s rs
  | no _ ↦ local_events s rs
]

-- The frozenset, as a list.
pub allowed_system_events : SystemState → List SystemEvent
allowed_system_events current =
    local_events current transitions ++ critical_fault ∷ estop_asserted ∷ []

unfoldable pub entered : SystemState → Option SystemTransition → SystemState
entered s none = s
entered s (some t) = t.current

-- The state that `MasterNode._apply_system_event` leaves: a rejected event changes nothing.
unfoldable pub apply_system_event : SystemState → SystemEvent → String → SystemState
unfolding entered
apply_system_event s e reason = entered s (decide_system_transition s e reason)

-- A history of events, each with its reason.
unfoldable pub run : SystemState → List (SystemEvent × String) → SystemState
run s [] = s
run s ((e, reason) ∷ es) = run (apply_system_event s e reason) es
