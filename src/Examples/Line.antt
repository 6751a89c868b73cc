-- ===== src/Examples/Line.antt =====
-- The ledger, its line, and the messages of the stations.
use ai_vision_inspection.Base.{
  ap, is_empty, ◌↔◌, ◌⊎◌, ◌≤◌, ◌<◌, Ascending, ℕ, String, String-discrete, List, [], ◌∷◌, none,
  some, true, false, ◌≡◌, ◌≢◌, refl, arith, ok, ℕ_discrete,
}
use ai_vision_inspection.Base.Dict
use ai_vision_inspection.Constants.{
  pass, a, StationId-discrete, ProductPhysicalState-discrete, station_a_wait,
}
use ai_vision_inspection.Master.Product.{ProductContext, new_context, new_station}
use ai_vision_inspection.Master.Product.Verdicts.{apply_station_result}
use ai_vision_inspection.Master.Ledger.{
  Ledger, new_ledger, register, get, get_by_id, active_contexts, contexts_of, added, Owner-discrete,
  ProductKey-discrete,
}
use ai_vision_inspection.Master.Ledger.Fifo.{
  any_removed, sequences, oldest_in_state, oldest_from, any_behind,
}
use ai_vision_inspection.Master.Ledger.Removal.{
  remove_completed_prefix, clear_active, sweep_all, take_off, prune_removed,
}
use ai_vision_inspection.Master.Ledger.Invariant.{IsOrdered}
use ai_vision_inspection.Master.Ledger.Calls.{registers, clears, call, calls, calls-line}
use ai_vision_inspection.Master.Ledger.Pruning.{prune_removed-exact}
use ai_vision_inspection.Master.Ledger.Sweep.{
  TookLongestPrefix, remove_completed_prefix-TookLongestPrefix,
}
use ai_vision_inspection.Master.Messages.{
  classify_at, classify_known, owned, find_defect, judged, StationMessageFacts,
  classify_station_message, accepted,
}
use ai_vision_inspection.Master.Messages.Accepted.{
  IsFit, decision_of, accepted_iff, accepted_applies,
}
use ai_vision_inspection.Master.Product.Verdicts.{mismatch}

-- One product at Station A, with its capture registered.
abbrev waiting : ProductContext
waiting = record (new_context "P" 1) { station_a = record (new_station a) { capture_id = "c" } }

abbrev one : Ledger
one = record {
  by_id = ("P", waiting) ∷ [];
  id_by_sequence = (1, "P") ∷ [];
  capture_owners = ("c", ("P", a)) ∷ [];
  active = "P" ∷ [];
  last_sequence = 1;
  retired_products = [];
  retired_captures = [];
}

one-IsOrdered : IsOrdered one
unfolding Dict.get String-discrete
one-IsOrdered = record {
  line = (omega arith, refl, tt);
  up_to = (omega arith, tt);
  keyed = (refl, tt);
  unique = (refl, tt);
}

calls-line_example :
    (cs : List ProductContext) × (active_contexts
        (calls new_ledger (registers "P" 1 ∷ registers "Q" 2 ∷ []))
      ≡ some cs)
    × (any_removed cs ≡ false)
    × Ascending 0 (sequences cs)
calls-line_example = calls-line (registers "P" 1 ∷ registers "Q" 2 ∷ [])

-- "P" left the line at the time 5; "Q" entered later.
abbrev cleared_once : Ledger
cleared_once = calls new_ledger (registers "P" 1 ∷ clears 5 ∷ registers "Q" 2 ∷ [])

abbrev gone : ProductContext
gone = take_off 5 (new_context "P" 1)

gone_is_kept : get_by_id cleared_once "P" ≡ some gone
unfolding calls call new_ledger register added clear_active sweep_all Dict.get Dict.put
    String-discrete ℕ_discrete
gone_is_kept = refl

prune_removed-exact_example :
    ((get_by_id (prune_removed cleared_once 9).0 "P" ≡ none)
      ↔ ((gone.removed ≡ true) × (0 < gone.removed_monotonic_ns) × (gone.removed_monotonic_ns ≤ 9)))
    × ((get_by_id (prune_removed cleared_once 9).0 "Q" ≡ none)
        ⊎ (get_by_id (prune_removed cleared_once 9).0 "Q" ≡ get_by_id cleared_once "Q"))
    × ((prune_removed cleared_once 9).0.active ≡ cleared_once.active)
prune_removed-exact_example =
    prune_removed-exact (registers "P" 1 ∷ clears 5 ∷ registers "Q" 2 ∷ []) 9 "P" "Q" gone
      gone_is_kept

remove_completed_prefix-TookLongestPrefix_example :
    TookLongestPrefix 7 one (remove_completed_prefix one 7)
remove_completed_prefix-TookLongestPrefix_example =
    remove_completed_prefix-TookLongestPrefix one 7 one-IsOrdered

one-contexts : active_contexts one ≡ some (waiting ∷ [])
unfolding contexts_of Dict.get String-discrete
one-contexts = refl

one-oldest : oldest_in_state one station_a_wait ≡ some (ok waiting)
unfolding contexts_of oldest_in_state oldest_from any_behind Dict.get String-discrete
    ProductPhysicalState-discrete
one-oldest = refl

one-get : get one "P" 1 ≡ some waiting
unfolding get Dict.get String-discrete
one-get = refl

P-not_empty : ◌≢◌ {A = String} "P" ""
unfolding String-discrete
P-not_empty = λ p. let q : false ≡ true = ap (λ s. is_empty s) p in cc

Q-registers : (register one "Q" 2).1 ≡ ok (new_context "Q" 2)
unfolding register added Dict.get Dict.put String-discrete ℕ_discrete
Q-registers = refl

-- A result of Station A for the product.
abbrev message : StationMessageFacts ℕ
message = record {
  product_id = "P";
  fifo_sequence = 1;
  station_id_raw = 1;
  capture_id = "c";
  frame_batch_id = "f";
  inference_job_id = "j";
  result_revision = 1;
  verdict_raw = some 1;
  score = some 9;
}

message-accepted : (classify_station_message one message true).outcome ≡ accepted
unfolding classify_station_message classify_at classify_known owned find_defect judged get Dict.get
    String-discrete Owner-discrete ProductKey-discrete StationId-discrete ℕ_discrete
message-accepted = refl

accepted_iff_example :
    ((classify_station_message one message true).outcome ≡ accepted)
    ↔ IsFit one message true a waiting
accepted_iff_example = accepted_iff one message true a waiting refl one-get

no_batch : mismatch "" "f" ≡ false
unfolding String-discrete
no_batch = refl

no_job : mismatch "" "j" ≡ false
unfolding String-discrete
no_job = refl

accepted_applies_example :
    ((apply_station_result waiting (decision_of one message true a pass)).1 ≡ ok true)
    × ((apply_station_result waiting (decision_of one message true a pass)).0.station_a.decision
        ≡ some (decision_of one message true a pass))
accepted_applies_example =
    accepted_applies one message true a waiting pass refl one-get message-accepted refl no_batch
      no_job
