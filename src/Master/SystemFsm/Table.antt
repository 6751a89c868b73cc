-- ===== src/Master/SystemFsm/Table.antt =====
-- Lookup in the transition table: a property of every row is one of every step.
use ai_vision_inspection.Base.{
  String, List, [], ◌∷◌, Option, none, some, ◌≡◌, refl, arith, is_some, All, contains,
  contains-append,
}
use ai_vision_inspection.Constants.{SystemState}
use ai_vision_inspection.Constants.SystemState.{fault_stop}
use ai_vision_inspection.Master.SystemFsm.{
  decide_system_transition, SystemEvent, SystemEvent-discrete, Rule, find_rule, from_rule,
  local_events, entered, transitions, fault_rule, apply_system_event, allowed_system_events,
  critical_fault, estop_asserted,
}

is_some-from_rule :
    (s : SystemState) (e : SystemEvent) (reason : String) (rs : List Rule)
    → is_some (from_rule s e reason (find_rule s e rs))
      ≡ contains SystemEvent-discrete e (local_events s rs)
unfolding from_rule find_rule local_events contains
is_some-from_rule s e reason [] = refl
is_some-from_rule s e reason (r ∷ rs) = ground (arith, is_some-from_rule s e reason rs)

contains-faults :
    (e : SystemEvent)
    → contains SystemEvent-discrete e (critical_fault ∷ estop_asserted ∷ [])
      ≡ is_some (fault_rule e)
unfolding contains SystemEvent-discrete fault_rule
contains-faults critical_fault = refl
contains-faults _ = refl

-- An event is decided in a state exactly when the set of allowed events of that state holds it.
contains-allowed :
    (s : SystemState) (e : SystemEvent) (reason : String)
    → contains SystemEvent-discrete e (allowed_system_events s)
      ≡ is_some (decide_system_transition s e reason)
unfolding allowed_system_events decide_system_transition
contains-allowed s e reason = ground (
  arith,
  contains-append SystemEvent-discrete e (local_events s transitions)
      (critical_fault ∷ estop_asserted ∷ []),
  is_some-from_rule s e reason transitions,
  contains-faults e,
)

abbrev pub Relation : Type 1
Relation = SystemState → SystemEvent → SystemState → Type 0

abbrev pub Found : Relation → SystemState → SystemEvent → Option Rule → Type 0
Found P s e none = Unit
Found P s e (some r) = P s e r.target

abbrev pub Row : Relation → Rule → Type 0
Row P q = P q.state q.event q.target

-- A property of every row of the table holds of the rule found.
find_rule-All :
    (P : Relation) (s : SystemState) (e : SystemEvent) (rs : List Rule)
    → All (Row P) rs
    → Found P s e (find_rule s e rs)
unfolding find_rule
find_rule-All P s e [] h = tt
find_rule-All P s e (q ∷ rs) h = ground (arith, find_rule-All P s e rs h.1)

-- The next state is the old one, FAULT_STOP, or the target of a row of the table.
pub apply-cases :
    (P : Relation)
    → All (Row P) transitions
    → ((s : SystemState) (e : SystemEvent) → P s e s)
    → ((s : SystemState) (e : SystemEvent) → P s e fault_stop)
    → (s : SystemState) (e : SystemEvent) (reason : String) → P s e (apply_system_event s e reason)
unfolding apply_system_event decide_system_transition entered from_rule
apply-cases P table stay stop s e reason =
    ground (arith, find_rule-All P s e transitions table, stay s e, stop s e)
