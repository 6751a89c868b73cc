-- ===== src/Control/Node/Reading.antt =====
-- control_node.py: what the frames that come in leave of the node as it is, and a frame that ends the
-- reader thread.
use ai_vision_inspection.Base.{
  ℕ, ◌≡◌, refl, arith, true, false, List, [], ◌∷◌, some, none, Option, Text, codes, parse_int,
  nat_list_eq, ◌⊎◌, ◌∙◌,
}
use ai_vision_inspection.Base.Dict
use ai_vision_inspection.Control.Protocol.{MegaEvent, parse_event}
use ai_vision_inspection.Control.Node.{
  ControlNode, Text-discrete, sensor_read, publish_sensor_event, publish_equipment_state,
  position_read, actuation_read, state_read, on_sensor, on_position, on_actuation, on_state,
  on_event, on_fields, receive,
}
use ai_vision_inspection.Control.Node.Replies.{take_reply, wait_for_mega}

-- What no frame changes.
abbrev pub Kept : ControlNode → ControlNode → Type 0
Kept n m =
    (m.base ≡ n.base)
    × (m.written ≡ n.written)
    × (m.mega_sequence ≡ n.mega_sequence)
    × (m.actuation_results ≡ n.actuation_results)

on_sensor-Kept : (n : ControlNode) (values : List Text) → Kept n (on_sensor n values)
unfolding on_sensor publish_sensor_event sensor_read
on_sensor-Kept n values = ground arith

on_position-Kept : (n : ControlNode) (values : List Text) → Kept n (on_position n values)
unfolding on_position position_read
on_position-Kept n values = ground arith

on_actuation-Kept :
    (n : ControlNode) (now : ℕ) (values : List Text) → Kept n (on_actuation n now values)
unfolding on_actuation actuation_read
on_actuation-Kept n now values = ground arith

on_state-Kept : (n : ControlNode) (values : List Text) → Kept n (on_state n values)
unfolding on_state state_read publish_equipment_state
on_state-Kept n values = ground arith

on_event-Kept : (n : ControlNode) (now : ℕ) (e : Option MegaEvent) → Kept n (on_event n now e)
unfolding on_event
on_event-Kept n now none = (refl, refl, refl, refl)
on_event-Kept n now (some e) = ground (
  arith,
  on_sensor-Kept n e.values,
  on_position-Kept n e.values,
  on_actuation-Kept n now e.values,
  on_state-Kept n e.values,
)

receive-Kept : (n : ControlNode) (now : ℕ) (fields : List Text) → Kept n (receive n now fields)
unfolding receive on_fields
receive-Kept n now fields = ground (arith, on_event-Kept n now (parse_event fields))

pub wait_for_mega-Kept :
    (key : Text) (deadline : ℕ) (n : ControlNode) (now : ℕ) (frames : List (ℕ × List Text))
    → Kept n (wait_for_mega key deadline n now frames).0
unfolding wait_for_mega take_reply
wait_for_mega-Kept key deadline n now [] = ground arith
wait_for_mega-Kept key deadline n now ((later, fields) ∷ frames) = ground (
  arith,
  receive-Kept n later fields,
  wait_for_mega-Kept key deadline (receive n later fields) later frames,
)

-- Once the reader thread has ended, a wait for an answer that is not there yet times out, whatever
-- frames the line delivers.
wait_for_mega-unread :
    (key : Text) (deadline : ℕ) (n : ControlNode) (now : ℕ) (frames : List (ℕ × List Text))
    → n.reader_alive ≡ false
    → Dict.get Text-discrete key n.mega_events ≡ none
    → (wait_for_mega key deadline n now frames).1 ≡ none
unfolding wait_for_mega receive
wait_for_mega-unread key deadline n now [] r h = ground arith
wait_for_mega-unread key deadline n now ((later, fields) ∷ frames) r h =
    ground (arith, wait_for_mega-unread key deadline n later frames r h)

abbrev pub sensor_frame : Text → Text → Text → Text → List Text
sensor_frame id edge sequence step = codes "E" ∷ codes "SENSOR" ∷ id ∷ edge ∷ sequence ∷ step ∷ []

receive-sensor_frame :
    (n : ControlNode) (now : ℕ) (id edge sequence step : Text)
    → n.reader_alive ≡ true
    → receive n now (sensor_frame id edge sequence step)
      ≡ publish_sensor_event n id edge sequence step
unfolding receive on_fields on_event on_sensor parse_event publish_sensor_event nat_list_eq
receive-sensor_frame n now id edge sequence step r = rw r refl

publish_sensor_event-malformed :
    (n : ControlNode) (id edge sequence step : Text)
    → (parse_int 10 edge ≡ none) ⊎ ((parse_int 10 sequence ≡ none) ⊎ (parse_int 10 step ≡ none))
    → publish_sensor_event n id edge sequence step ≡ record n { reader_alive = false }
unfolding publish_sensor_event sensor_read
publish_sensor_event-malformed n id edge sequence step m = ground arith

-- A SENSOR frame whose edge, sequence or step is no number ends the reader thread: the node keeps its
-- health and everything else it reports, and each later wait for an answer that is not there yet times
-- out, whatever frames the line delivers.
pub receive-malformed :
    (n : ControlNode) (now : ℕ) (id edge sequence step : Text)
    → n.reader_alive ≡ true
    → (parse_int 10 edge ≡ none) ⊎ ((parse_int 10 sequence ≡ none) ⊎ (parse_int 10 step ≡ none))
    → (key : Text) (deadline later : ℕ) (frames : List (ℕ × List Text))
    → Dict.get Text-discrete key n.mega_events ≡ none
    → (receive n now (sensor_frame id edge sequence step) ≡ record n { reader_alive = false })
      × ((wait_for_mega key deadline
            (receive n now (sensor_frame id edge sequence step))
            later
            frames).1
          ≡ none)
receive-malformed n now id edge sequence step r m key deadline later frames h =
    let ended =
      receive-sensor_frame n now id edge sequence step r
      ∙ publish_sensor_event-malformed n id edge sequence step m in
    (ended, rw ended (wait_for_mega-unread key deadline _ later frames refl h))
