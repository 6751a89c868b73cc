-- ===== src/Control/Node.antt =====
-- control_node.py: the node between the master and the Mega board. The serial line is the list of the
-- frames written to it; frames that come in, clock readings and new UUIDs are arguments.
pub mod Replies
pub mod Conveyors
pub mod Actuation
pub mod Sending
pub mod Reading
use ai_vision_inspection.Base.{
  refl, ap, ◌∙◌, ◌≡◌, arith, ℕ, zero, suc, ◌+◌, ◌*◌, ◌/◌, ◌%◌, String, String-discrete, ℕ_discrete,
  Bool, true, false, ◌&&◌, ◌||◌, not, is_empty, equals, ltb, nat_eq, if◌then◌else◌, List, [], ◌∷◌,
  ◌++◌, Option, none, some, Result, ok, raise, ℤ, pos, negsuc, Text, codes, parse_int, nat_list_eq,
  map,
}
use ai_vision_inspection.Base.Dict
use ai_vision_inspection.Constants.{
  NodeHealthState, NodeHealthState-discrete, degraded, SystemState, SystemState-discrete, run_sys,
  pausing, ConveyorId, upper, lower, ErrorCode,
}
use ai_vision_inspection.Common.Idempotency.{IdempotencyStore}
use ai_vision_inspection.Common.NodeBase.{NodeBase}
use ai_vision_inspection.Common.NodeBase.Commands.{Refusal}
use ai_vision_inspection.Control.Protocol.{encode_frame, MegaEvent, parse_event}

-- The decimal digits of the number in front of the text; a number has no more digits than it counts.
unfoldable pub decimal_onto : ℕ → ℕ → Text → Text
decimal_onto zero n rest = rest
decimal_onto (suc fuel) n rest = elim (ltb n 10) [
  | true ↦ (n + 48) ∷ rest
  | false ↦ decimal_onto fuel (n / 10) ((n % 10 + 48) ∷ rest)
]

-- `str(n)`
abbrev pub decimal : ℕ → Text
decimal n = decimal_onto (n + 1) n []

pub cons-injective : {c d : ℕ} {cs ds : Text} → c ∷ cs ≡ d ∷ ds → (c ≡ d) × (cs ≡ ds)
cons-injective h = ground arith

unfoldable pub Text-discrete : Discrete Text
Text-discrete [] [] = yes refl
Text-discrete [] (d ∷ ds) = no (λ h. cc)
Text-discrete (c ∷ cs) [] = no (λ h. cc)
Text-discrete (c ∷ cs) (d ∷ ds) = elim (ℕ_discrete c d) [
  | no n ↦ no (λ h. n (cons-injective h).0)
  | yes p ↦ elim (Text-discrete cs ds) [
    | no n ↦ no (λ h. n (cons-injective h).1)
    | yes q ↦ yes (ap (λ x. x ∷ cs) p ∙ ap (λ xs. d ∷ xs) q)
  ]
]

-- An answer of the Mega board, and when it came in, in nanoseconds.
pub record MegaReply : Type 0 where
  pub succeeded : Bool
  pub status : Text
  pub received_ns : ℕ

pub record EquipmentValues : Type 0 where
  pub upper_state : ℤ
  pub lower_state : ℤ
  pub sensor_1_clear : Bool
  pub sensor_2_clear : Bool
  pub sensor_3_clear : Bool
  pub actuator_safe : Bool

-- The message EquipmentState, without its header.
pub record EquipmentState : Type 0 where
  pub upper_running : Bool
  pub upper_stopped : Bool
  pub lower_running : Bool
  pub lower_stopped : Bool
  pub sensors_clear : Bool × Bool × Bool
  pub actuator_safe : Bool

-- A message that the node publishes, without its header.
pub data Published : Type 0 where
  sensor_event : Text → ℤ → ℤ → ℤ → Published
  position_settled : ℤ → ℤ → Published
  equipment_state : EquipmentState → Published

-- Why an actuation ended as it did.
pub data Reason : Type 0 where
  actuation_completed actuation_timeout sim_completed command_id_conflict : Reason
  actuation_rejected : Text → Reason
  header_refused : Refusal → Reason

pub record ActuationValues : Type 0 where
  pub success : Bool
  pub product_id : String
  pub actuation_id : String
  pub error_code : ErrorCode
  pub reason : Reason

pub record ControlNode : Type 0 where
  pub base : NodeBase
  pub actuation_results : IdempotencyStore ActuationValues
  pub latest_equipment_state : Option EquipmentValues
  pub mega_connected : Bool
  -- the thread that runs `_read_mega` is alive
  pub reader_alive : Bool
  pub mega_sequence : ℕ
  pub mega_events : List (Text × MegaReply)
  pub written : List Text
  pub published : List Published

abbrev pub publish : ControlNode → Published → ControlNode
publish n m = record n { published = n.published ++ m ∷ [] }

-- `(n + 1) & 0x7FFFFFFF`
abbrev pub next_mega_sequence : ℕ → ℕ
next_mega_sequence n = (n + 1) % 2147483648

pub data SendError : Type 0 where
  not_connected not_ascii : SendError

unfoldable pub sent : ControlNode → ℕ → Option Text → ControlNode × Result SendError ℕ
sent n sequence none = (n, raise not_ascii)
sent n sequence (some frame) = (record n { written = n.written ++ frame ∷ [] }, ok sequence)

abbrev pub command_fields : ℕ → Text → List ℕ → List Text
command_fields sequence operation values =
    codes "C" ∷ decimal sequence ∷ operation ∷ map decimal values

unfoldable pub send_mega : ControlNode → Text → List ℕ → ControlNode × Result SendError ℕ
unfolding sent
send_mega n operation values =
    if not n.mega_connected
    then (n, raise not_connected)
    else let sequence = next_mega_sequence n.mega_sequence in
      sent (record n { mega_sequence = sequence }) sequence
        (encode_frame (command_fields sequence operation values))

abbrev pub ack_key : Text → Text
ack_key sequence = codes "ACK:" ++ sequence

abbrev pub actuation_key : Text → Text
actuation_key sequence = codes "ACTUATION:" ++ sequence

-- `str` of an integer
abbrev pub decimal_int : ℤ → Text
decimal_int (pos n) = decimal n
decimal_int (negsuc n) = b'-' ∷ decimal (n + 1)

abbrev pub store_reply : ControlNode → Text → Text → ℕ → ControlNode
store_reply n key status now = record n {
  mega_events =
      Dict.put Text-discrete key
        (record { succeeded = nat_list_eq status (codes "OK"); status = status; received_ns = now })
        n.mega_events;
}

abbrev is_one : Text → Bool
is_one t = nat_list_eq t (codes "1")

abbrev int_is : ℤ → ℕ → Bool
int_is (pos n) m = nat_eq n m
int_is (negsuc n) m = false

abbrev pub message_of : EquipmentValues → EquipmentState
message_of v = record {
  upper_running = int_is v.upper_state 0;
  upper_stopped = int_is v.upper_state 3;
  lower_running = int_is v.lower_state 0;
  lower_stopped = int_is v.lower_state 3;
  sensors_clear = (v.sensor_1_clear, v.sensor_2_clear, v.sensor_3_clear);
  actuator_safe = v.actuator_safe;
}

unfoldable pub publish_equipment_state : ControlNode → EquipmentValues → ControlNode
publish_equipment_state n v =
    publish (record n { latest_equipment_state = some v }) (equipment_state (message_of v))

-- The ValueError of `int` leaves `_publish_sensor_event` and ends the reader thread.
unfoldable pub sensor_read : ControlNode → Text → Option ℤ → Option ℤ → Option ℤ → ControlNode
sensor_read n id (some edge) (some sequence) (some step) =
    publish n (sensor_event id edge sequence step)
sensor_read n id _ _ _ = record n { reader_alive = false }

unfoldable pub publish_sensor_event : ControlNode → Text → Text → Text → Text → ControlNode
unfolding sensor_read
publish_sensor_event n id edge sequence step =
    sensor_read n id (parse_int 10 edge) (parse_int 10 sequence) (parse_int 10 step)

unfoldable pub position_read : ControlNode → Option ℤ → Option ℤ → ControlNode
position_read n (some conveyor) (some step) = publish n (position_settled conveyor step)
position_read n _ _ = n

unfoldable pub actuation_read : ControlNode → Text → ℕ → Option ℤ → ControlNode
actuation_read n status now (some sequence) =
    store_reply n (actuation_key (decimal_int sequence)) status now
actuation_read n status now none = n

unfoldable pub state_read :
    ControlNode → Option ℤ → Option ℤ → Text → Text → Text → Text → ControlNode
state_read n (some u) (some l) s1 s2 s3 actuator = publish_equipment_state n (record {
  upper_state = u;
  lower_state = l;
  sensor_1_clear = is_one s1;
  sensor_2_clear = is_one s2;
  sensor_3_clear = is_one s3;
  actuator_safe = is_one actuator;
})
state_read n _ _ _ _ _ _ = n

unfoldable pub on_sensor : ControlNode → List Text → ControlNode
on_sensor n (id ∷ edge ∷ sequence ∷ step ∷ vs) = publish_sensor_event n id edge sequence step
on_sensor n _ = n

unfoldable pub on_position : ControlNode → List Text → ControlNode
unfolding position_read
on_position n (conveyor ∷ step ∷ sequence ∷ vs) =
    position_read n (parse_int 10 conveyor) (parse_int 10 step)
on_position n _ = n

unfoldable pub on_state : ControlNode → List Text → ControlNode
unfolding state_read
on_state n (u ∷ l ∷ s1 ∷ s2 ∷ s3 ∷ actuator ∷ vs) =
    state_read n (parse_int 10 u) (parse_int 10 l) s1 s2 s3 actuator
on_state n _ = n

unfoldable pub on_actuation : ControlNode → ℕ → List Text → ControlNode
unfolding actuation_read
on_actuation n now (status ∷ sequence ∷ vs) = actuation_read n status now (parse_int 10 sequence)
on_actuation n now _ = n

unfoldable pub on_event : ControlNode → ℕ → Option MegaEvent → ControlNode
on_event n now none = n
on_event n now (some e) =
    if nat_list_eq e.kind (codes "SENSOR")
    then on_sensor n e.values
    else if nat_list_eq e.kind (codes "POSITION")
    then on_position n e.values
    else if nat_list_eq e.kind (codes "ACTUATION")
    then on_actuation n now e.values
    else if nat_list_eq e.kind (codes "STATE")
    then on_state n e.values
    else n

unfoldable pub on_fields : ControlNode → ℕ → List Text → ControlNode
unfolding on_event
on_fields n now (a ∷ sequence ∷ status ∷ fs) =
    if nat_list_eq a (codes "A")
    then store_reply n (ack_key sequence) status now
    else on_event n now (parse_event (a ∷ sequence ∷ status ∷ fs))
on_fields n now fields = on_event n now (parse_event fields)

-- The reader thread's treatment of one decoded frame.
unfoldable pub receive : ControlNode → ℕ → List Text → ControlNode
unfolding on_fields
receive n now fields = if not n.reader_alive then n else on_fields n now fields

-- An OSError of the serial line: the port is dropped and the reader thread ends.
unfoldable pub disconnect : ControlNode → ControlNode
disconnect n = record n {
  mega_connected = false;
  reader_alive = false;
  base = record n.base { health_state = degraded };
}
