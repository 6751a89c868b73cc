-- ===== src/Control/Node/Replies.antt =====
-- control_node.py: waiting for an answer of the Mega board, and dropping the answers that nobody fetched.
-- The frames that the reader thread decodes are a list with the time of each, in nanoseconds.
pub mod Pruning
use ai_vision_inspection.Base.{
  ℕ, ◌+◌, ◌*◌, Bool, true, false, leb, ltb, if◌then◌else◌, List, [], ◌∷◌, Option, none, some, Text,
}
use ai_vision_inspection.Base.Dict
use ai_vision_inspection.Control.Node.{ControlNode, MegaReply, Text-discrete, receive}

-- A fetched answer leaves the store.
unfoldable pub take_reply : ControlNode → Text → ControlNode
take_reply n key = record n { mega_events = Dict.pop Text-discrete key n.mega_events }

-- The loop runs again when a frame has come in; a list that ends is a line that stays silent until the
-- deadline. The status is `none` on a timeout.
unfoldable pub wait_for_mega :
    Text → ℕ → ControlNode → ℕ → List (ℕ × List Text) → ControlNode × Option Text
wait_for_mega key deadline n now [] = elim (ltb now deadline) [
  | false ↦ (n, none)
  | true ↦ elim (Dict.get Text-discrete key n.mega_events) [
    | some reply ↦ (take_reply n key, some reply.status)
    | none ↦ (n, none)
  ]
]
wait_for_mega key deadline n now ((later, fields) ∷ frames) = elim (ltb now deadline) [
  | false ↦ (n, none)
  | true ↦ elim (Dict.get Text-discrete key n.mega_events) [
    | some reply ↦ (take_reply n key, some reply.status)
    | none ↦ wait_for_mega key deadline (receive n later fields) later frames
  ]
]

-- Fifteen seconds.
abbrev pub stale_after : ℕ
stale_after = 15000000000

unfoldable pub fresh_replies : ℕ → List (Text × MegaReply) → List (Text × MegaReply)
fresh_replies now [] = []
fresh_replies now ((key, reply) ∷ replies) =
    let rest = fresh_replies now replies in
    if ltb (reply.received_ns + stale_after) now then rest else (key, reply) ∷ rest

unfoldable pub prune_stale_mega_events : ControlNode → ℕ → ControlNode
prune_stale_mega_events n now = record n { mega_events = fresh_replies now n.mega_events }
