-- ===== src/Examples/Control.antt =====
-- Concrete runs of the control node and of its frames.
use ai_vision_inspection.Base.{
  ℕ_discrete, String-discrete, true, false, List, [], ◌∷◌, none, some, Text, codes, lstrip, rstrip,
  join, number, unprefixed, signed, parse_int, ok, inl, ◌≡◌, refl, arith, nat_list_eq,
}
use ai_vision_inspection.Base.Dict
use ai_vision_inspection.Constants.{
  run_sys, pausing, SystemState-discrete, NodeHealthState-discrete,
}
use ai_vision_inspection.Common.Idempotency.{new, inspect}
use ai_vision_inspection.Common.NodeBase.Commands.{is_sha256_hex, validate_command_header}
use ai_vision_inspection.Common.NodeBase.Initialize.{GoalEnd}
use ai_vision_inspection.Control.Protocol.{
  crc_bit, crc_bits, crc_from, is_ascii, hex4, encode_frame, decode_frame, parse_event,
}
use ai_vision_inspection.Control.Protocol.RoundTrip.{decode-encode}
use ai_vision_inspection.Control.Node.{
  ControlNode, Text-discrete, on_fields, on_event, on_actuation, actuation_read, decimal_onto,
  ActuationValues, command_fields, send_mega, receive,
}
use ai_vision_inspection.Control.Node.Sending.{IsPlain, send_mega-decodes}
use ai_vision_inspection.Control.Node.Replies.{wait_for_mega, take_reply}
use ai_vision_inspection.Control.Node.Reading.{sensor_frame, receive-malformed}
use ai_vision_inspection.Control.Node.Conveyors.{receive_system_command}
use ai_vision_inspection.Control.Node.Conveyors.Stopping.{receive_system_command-stops}
use ai_vision_inspection.Control.Node.Actuation.{
  ActuateRequest, Surroundings, hardware_values, execute_actuation,
}
use ai_vision_inspection.Control.Node.Actuation.Retries.{
  asked, awaited, execute_actuation-first, execute_actuation-retry,
}
use ai_vision_inspection.Examples.Commands.{
  some_id, digest, node, pause_all, paused_node, handles_pause,
}

abbrev hello : Text
hello = codes "C|1|HELLO|2|D841\n"

encodes_hello : encode_frame (codes "C" ∷ codes "1" ∷ codes "HELLO" ∷ codes "2" ∷ []) ≡ some hello
unfolding encode_frame join is_ascii crc_from crc_bits crc_bit hex4
encodes_hello = refl

decode-encode_example :
    decode_frame hello ≡ some (codes "C" ∷ codes "1" ∷ codes "HELLO" ∷ codes "2" ∷ [])
decode-encode_example =
    decode-encode (codes "C") (codes "1" ∷ codes "HELLO" ∷ codes "2" ∷ []) hello
      (refl, (refl, (refl, (refl, tt)))) refl encodes_hello

abbrev hello_fields : List Text
hello_fields = codes "C" ∷ codes "1" ∷ codes "HELLO" ∷ codes "2" ∷ []

abbrev control : ControlNode
control = record {
  base = node;
  actuation_results = record { capacity = 8; entries = [] };
  latest_equipment_state = none;
  mega_connected = true;
  reader_alive = true;
  mega_sequence = 6;
  mega_events = [];
  written = [];
  published = [];
}

stop-IsPlain : IsPlain (codes "STOP")
unfolding is_ascii
stop-IsPlain = (refl, refl)

send_mega-decodes_example :
    (frame : Text) × (send_mega control (codes "STOP") (1 ∷ [])
      ≡ (record control { mega_sequence = 7; written = frame ∷ [] }, ok 7))
    × (decode_frame frame ≡ some (command_fields 7 (codes "STOP") (1 ∷ [])))
send_mega-decodes_example = send_mega-decodes control (codes "STOP") (1 ∷ []) refl stop-IsPlain

receive_system_command-stops_example :
    (first second : Text) × (decode_frame first ≡ some (command_fields 7 (codes "STOP") (1 ∷ [])))
    × (decode_frame second ≡ some (command_fields 8 (codes "STOP") (2 ∷ [])))
    × ((receive_system_command some_id control pause_all).written ≡ first ∷ second ∷ [])
receive_system_command-stops_example =
    receive_system_command-stops some_id control pause_all paused_node refl refl refl handles_pause

letters_are_no_number : parse_int 10 (codes "x") ≡ none
unfolding parse_int signed number unprefixed lstrip rstrip
letters_are_no_number = refl

receive-malformed_example :
    (receive control 5 (sensor_frame (codes "S1") (codes "x") (codes "1") (codes "2"))
      ≡ record control { reader_alive = false })
    × ((wait_for_mega
          (codes "ACK:7")
          100
          (receive control 5 (sensor_frame (codes "S1") (codes "x") (codes "1") (codes "2")))
          6
          ((9, codes "A" ∷ codes "7" ∷ codes "OK" ∷ []) ∷ [])).1
        ≡ none)
unfolding Dict.get
receive-malformed_example =
    receive-malformed control 5 (codes "S1") (codes "x") (codes "1") (codes "2") refl
      (inl letters_are_no_number) (codes "ACK:7") 100 6
      ((9, codes "A" ∷ codes "7" ∷ codes "OK" ∷ []) ∷ []) refl

abbrev actuation : ActuateRequest
actuation = record {
  command = record {
    session_id = "s";
    command_epoch = 1;
    command_id = "a";
    payload_digest = digest;
  };
  product_id = "P";
  actuator_command = 2;
}

-- The board answers the command with the number 7 after five nanoseconds.
abbrev answering : Surroundings
answering = record {
  now = 0;
  timeout_ms = 1;
  frames = (5, codes "E" ∷ codes "ACTUATION" ∷ codes "OK" ∷ codes "7" ∷ []) ∷ [];
  new_uuid = "u";
}

abbrev silent : Surroundings
silent = record { now = 0; timeout_ms = 1; frames = []; new_uuid = "w" }

abbrev once : ControlNode × (ActuationValues × GoalEnd)
once = execute_actuation some_id control actuation answering

abbrev twice : ControlNode × (ActuationValues × GoalEnd)
twice = execute_actuation some_id once.0 actuation silent

is_allowed : validate_command_header some_id node actuation.command (run_sys ∷ pausing ∷ []) ≡ none
unfolding validate_command_header is_sha256_hex String-discrete SystemState-discrete
    NodeHealthState-discrete
is_allowed = refl

is_new : (inspect control.actuation_results "a" digest).1 ≡ new
unfolding inspect Dict.get
is_new = refl

answer_is_ok : (awaited (asked control []) answering).1 ≡ some (codes "OK")
unfolding wait_for_mega take_reply receive Dict.get Dict.put Text-discrete nat_list_eq parse_event
    on_fields on_event on_actuation actuation_read parse_int rstrip lstrip number unprefixed signed
    decimal_onto ℕ_discrete
answer_is_ok = refl

execute_actuation-first_example :
    (frame : Text) × (decode_frame frame ≡ some (command_fields 7 (codes "ACTUATE") (2 ∷ [])))
    × (once.0.written ≡ frame ∷ [])
    × (once.1.0 ≡ hardware_values actuation answering (awaited (asked control frame) answering).1)
execute_actuation-first_example =
    execute_actuation-first some_id control actuation answering once.0 once.1.0 once.1.1 refl refl
      is_allowed is_new refl

execute_actuation-retry_example :
    (twice.1.0 ≡ once.1.0)
    × (twice.1.1 ≡ once.1.1)
    × (twice.0.written ≡ once.0.written)
    × (twice.0.mega_sequence ≡ once.0.mega_sequence)
    × (twice.0.mega_events ≡ once.0.mega_events)
    × (twice.0.published ≡ once.0.published)
execute_actuation-retry_example =
    execute_actuation-retry some_id control actuation answering once.0 twice.0 once.1.0 twice.1.0
      once.1.1 twice.1.1 silent (omega arith) is_allowed is_new refl refl
