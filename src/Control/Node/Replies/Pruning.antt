-- ===== src/Control/Node/Replies/Pruning.antt =====
-- control_node.py: which answers of the Mega board a prune keeps.
use ai_vision_inspection.Base.{
  ℕ, ◌+◌, ◌≡◌, refl, arith, ltb, List, [], ◌∷◌, some, none, Option, Text, if◌then◌else◌,
}
use ai_vision_inspection.Base.Dict
use ai_vision_inspection.Control.Node.{ControlNode, MegaReply, Text-discrete}
use ai_vision_inspection.Control.Node.Replies.{stale_after, fresh_replies, prune_stale_mega_events}

-- An answer that is not older than fifteen seconds.
abbrev still_fresh : ℕ → Option MegaReply → Option MegaReply
still_fresh now none = none
still_fresh now (some reply) =
    if ltb (reply.received_ns + stale_after) now then none else some reply

get-fresh_replies :
    (now : ℕ) (key : Text) (replies : List (Text × MegaReply))
    → Dict.Unique Text-discrete replies
    → Dict.get Text-discrete key (fresh_replies now replies)
      ≡ still_fresh now (Dict.get Text-discrete key replies)
unfolding fresh_replies Dict.get
get-fresh_replies now key [] u = refl
get-fresh_replies now key ((other, reply) ∷ replies) u =
    ground (arith, get-fresh_replies now key replies u.1)

-- A prune keeps the answer to a key exactly when it came in not more than fifteen seconds ago.
prune-keeps :
    (n : ControlNode) (now : ℕ) (key : Text)
    → Dict.Unique Text-discrete n.mega_events
    → Dict.get Text-discrete key (prune_stale_mega_events n now).mega_events
      ≡ still_fresh now (Dict.get Text-discrete key n.mega_events)
unfolding prune_stale_mega_events
prune-keeps n now key u = get-fresh_replies now key n.mega_events u
