-- ===== src/Master/SystemFsm/Safety.antt =====
-- What the transition table guarantees over every history of events.
use ai_vision_inspection.Base.{
  String, List, [], ◌∷◌, map, ◌≡◌, refl, ◌⊎◌, inl, inr, arith, ◌≢◌, All, Follows, ap, ◌∙◌,
}
use ai_vision_inspection.Master.SystemFsm.Table.{Relation, Row, apply-cases}
use ai_vision_inspection.Constants.{SystemState, SystemState-discrete}
use ai_vision_inspection.Constants.SystemState.{
  boot, initializing, ready, run_sys, pausing, paused, fault_stop, resetting,
}
use ai_vision_inspection.Master.SystemFsm.{
  decide_system_transition, SystemEvent, SystemEvent-discrete, find_rule, from_rule, entered,
  transitions, fault_rule, apply_system_event, run, critical_fault, estop_asserted,
  all_conveyors_running, reset_request, reset_succeeded_empty_line, reset_succeeded_in_place,
  pause_request,
}

abbrev Restart : List SystemEvent → Type 0
Restart es =
    Follows (reset_succeeded_empty_line ∷ all_conveyors_running ∷ []) es
    ⊎ Follows (reset_succeeded_in_place ∷ all_conveyors_running ∷ []) es

-- What a history that leads from the state to RUN_SYS holds at least.
abbrev Needed : SystemState → List SystemEvent → Type 0
Needed ready es = Follows (all_conveyors_running ∷ []) es
Needed paused es = Follows (all_conveyors_running ∷ []) es
Needed pausing es = Follows (all_conveyors_running ∷ []) es
Needed resetting es = Restart es
Needed fault_stop es =
    Follows (reset_request ∷ reset_succeeded_empty_line ∷ all_conveyors_running ∷ []) es
    ⊎ Follows (reset_request ∷ reset_succeeded_in_place ∷ all_conveyors_running ∷ []) es
Needed _ es = Unit

Needed-cons :
    (s : SystemState) (e : SystemEvent) (es : List SystemEvent) → Needed s es → Needed s (e ∷ es)
Needed-cons ready e es n = inr n
Needed-cons paused e es n = inr n
Needed-cons pausing e es n = inr n
Needed-cons resetting e es (inl n) = inl (inr n)
Needed-cons resetting e es (inr n) = inr (inr n)
Needed-cons fault_stop e es (inl n) = inl (inr n)
Needed-cons fault_stop e es (inr n) = inr (inr n)
Needed-cons _ e es n = tt

Follows-tail : (x : SystemEvent) (xs es : List SystemEvent) → Follows (x ∷ xs) es → Follows xs es
Follows-tail x [] es h = tt
Follows-tail x (y ∷ xs) [] h = elim h [ ]
Follows-tail x (y ∷ xs) (e ∷ es) (inl h) = inr h.1
Follows-tail x (y ∷ xs) (e ∷ es) (inr h) = inr (Follows-tail x (y ∷ xs) es h)

Follows-last :
    (x y z : SystemEvent) (es : List SystemEvent)
    → Follows (x ∷ y ∷ z ∷ []) es
    → Follows (z ∷ []) es
Follows-last x y z es h = Follows-tail y (z ∷ []) es (Follows-tail x (y ∷ z ∷ []) es h)

Needed-restarts :
    (es : List SystemEvent) → Needed fault_stop es → Follows (all_conveyors_running ∷ []) es
Needed-restarts es (inl n) = Follows-last _ _ _ es n
Needed-restarts es (inr n) = Follows-last _ _ _ es n

Needed-faults : (s : SystemState) (es : List SystemEvent) → Needed fault_stop es → Needed s es
Needed-faults fault_stop es n = n
Needed-faults resetting es (inl n) =
    inl (Follows-tail _ (reset_succeeded_empty_line ∷ all_conveyors_running ∷ []) es n)
Needed-faults resetting es (inr n) =
    inr (Follows-tail _ (reset_succeeded_in_place ∷ all_conveyors_running ∷ []) es n)
Needed-faults ready es n = Needed-restarts es n
Needed-faults paused es n = Needed-restarts es n
Needed-faults pausing es n = Needed-restarts es n
Needed-faults _ es n = tt

Needed-reset : (es : List SystemEvent) → Restart es → Needed fault_stop (reset_request ∷ es)
Needed-reset es (inl n) = inl (inl (refl, n))
Needed-reset es (inr n) = inr (inl (refl, n))

abbrev Advances : Relation
Advances s e t = (es : List SystemEvent) → Needed t es → Needed s (e ∷ es)

transitions-Advances : All (Row Advances) transitions
unfolding transitions
transitions-Advances = (
  λ es n. tt,
  (
    λ es n. tt,
    (
      λ es n. tt,
      (
        λ es n. tt,
        (
          λ es n. inr n,
          (
            λ es n. inr n,
            (
              λ es n. inl (refl, tt),
              (
                λ es n. tt,
                (
                  λ es n. tt,
                  (
                    λ es n. inr n,
                    (
                      λ es n. inr (Needed-faults pausing es n),
                      (
                        λ es n. inr (Needed-faults pausing es n),
                        (
                          λ es n. inr n,
                          (
                            λ es n. inr n,
                            (
                              λ es n. inr n,
                              (
                                λ es n. inl (refl, tt),
                                (
                                  Needed-reset,
                                  (
                                    λ es n. inl (inl (refl, n)),
                                    (
                                      λ es n. inr (inl (refl, n)),
                                      (Needed-cons resetting _, (Needed-cons resetting _, tt)),
                                    ),
                                  ),
                                ),
                              ),
                            ),
                          ),
                        ),
                      ),
                    ),
                  ),
                ),
              ),
            ),
          ),
        ),
      ),
    ),
  ),
)

apply-Advances :
    (s : SystemState) (e : SystemEvent) (reason : String)
    → Advances s e (apply_system_event s e reason)
apply-Advances =
    apply-cases Advances transitions-Advances Needed-cons
      (λ s e es n. Needed-cons s e es (Needed-faults s es n))

abbrev events : List (SystemEvent × String) → List SystemEvent
events = map (λ e. e.0)

run-Needed :
    (s : SystemState) (es : List (SystemEvent × String)) → run s es ≡ run_sys → Needed s (events es)
unfolding run
run-Needed s [] h = rw h tt
run-Needed s ((e, reason) ∷ es) h =
    apply-Advances s e reason (events es) (run-Needed (apply_system_event s e reason) es h)

-- A history that leads from FAULT_STOP back to RUN_SYS holds, in this order, a reset request, a
-- reported success of the reset, and the report that all conveyors run.
fault_stop-run_sys :
    (es : List (SystemEvent × String))
    → run fault_stop es ≡ run_sys
    → Follows (reset_request ∷ reset_succeeded_empty_line ∷ all_conveyors_running ∷ []) (events es)
      ⊎ Follows (reset_request ∷ reset_succeeded_in_place ∷ all_conveyors_running ∷ []) (events es)
fault_stop-run_sys es h = run-Needed fault_stop es h

abbrev EntersRun : Relation
EntersRun s e t =
    t ≡ run_sys → (s ≡ run_sys) ⊎ ((e ≡ all_conveyors_running) × ((s ≡ ready) ⊎ (s ≡ paused)))

apply-EntersRun :
    (s : SystemState) (e : SystemEvent) (reason : String)
    → EntersRun s e (apply_system_event s e reason)
unfolding transitions
apply-EntersRun =
    apply-cases EntersRun
      (
        λ h. cc,
        (
          λ h. cc,
          (
            λ h. cc,
            (
              λ h. cc,
              (
                λ h. cc,
                (
                  λ h. cc,
                  (
                    λ h. inr (refl, inl refl),
                    (
                      λ h. cc,
                      (
                        λ h. cc,
                        (
                          λ h. cc,
                          (
                            λ h. cc,
                            (
                              λ h. cc,
                              (
                                λ h. cc,
                                (
                                  λ h. cc,
                                  (
                                    λ h. cc,
                                    (
                                      λ h. inr (refl, inr refl),
                                      (λ h. cc, (λ h. cc, (λ h. cc, (λ h. cc, (λ h. cc, tt))))),
                                    ),
                                  ),
                                ),
                              ),
                            ),
                          ),
                        ),
                      ),
                    ),
                  ),
                ),
              ),
            ),
          ),
        ),
      )
      (λ s e h. inl h) (λ s e h. cc)

-- A system that did not run before the event and runs after it was READY or PAUSED, and the event
-- was the report that all conveyors run.
pub apply-starts :
    (s : SystemState) (e : SystemEvent) (reason : String)
    → apply_system_event s e reason ≡ run_sys
    → s ≢ run_sys
    → (e ≡ all_conveyors_running) × ((s ≡ ready) ⊎ (s ≡ paused))
apply-starts s e reason h n = elim (apply-EntersRun s e reason h) [
  | inl k ↦ absurd (n k)
  | inr k ↦ k
]

-- A critical fault or an asserted emergency stop is accepted in every state and stops the system.
apply_fault :
    (s : SystemState) (e : SystemEvent) (reason : String)
    → (e ≡ critical_fault) ⊎ (e ≡ estop_asserted)
    → apply_system_event s e reason ≡ fault_stop
unfolding apply_system_event decide_system_transition fault_rule entered
apply_fault s e reason h = ground arith

abbrev silent : List SystemEvent → List (SystemEvent × String)
silent = map (λ e. (e, ""))

-- Events that lead from FAULT_STOP to each state.
abbrev route : SystemState → List SystemEvent
route fault_stop = []
route resetting = reset_request ∷ []
route ready = reset_request ∷ reset_succeeded_empty_line ∷ []
route paused = reset_request ∷ reset_succeeded_in_place ∷ []
route run_sys = reset_request ∷ reset_succeeded_empty_line ∷ all_conveyors_running ∷ []
route pausing =
    reset_request ∷ reset_succeeded_empty_line ∷ all_conveyors_running ∷ pause_request ∷ []
route _ = []

route-reaches :
    (t : SystemState) → t ≢ boot → t ≢ initializing → run fault_stop (silent (route t)) ≡ t
unfolding run apply_system_event decide_system_transition fault_rule entered from_rule find_rule
    transitions SystemState-discrete SystemEvent-discrete
route-reaches boot p q = absurd (p refl)
route-reaches initializing p q = absurd (q refl)
route-reaches _ p q = refl

-- From every state some history leads to every state but BOOT and INITIALIZING.
run-reaches :
    (s t : SystemState)
    → t ≢ boot
    → t ≢ initializing
    → (es : List (SystemEvent × String)) × (run s es ≡ t)
unfolding run
run-reaches s t p q = (
  (critical_fault, "") ∷ silent (route t),
  ap (λ u. run u (silent (route t))) (apply_fault s critical_fault "" (inl refl))
      ∙ route-reaches t p q,
)
