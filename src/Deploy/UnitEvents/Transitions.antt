-- ===== src/Deploy/UnitEvents/Transitions.antt =====
-- Only transitions are events in unit-events.ts.
use classg.Prelude.{
  ℕ, ◌+◌, ◌≤◌, ◌≡◌, refl, arith, String, true, Option, none, some, List, [], ◌∷◌, ◌++◌, str_eq_refl,
  Option-cases, inl, inr, ap, ◌∙◌,
}
use classg.Deploy.UnitEvents.{
  DeploymentStatus, WatchdogStatus, UnitMessage, repaired, UnitEvent, UnitMemo, Reading, same_text,
  deployment_events, repair_events, given_up_events, watchdog_events,
}

same_text_refl : (o : Option String) → same_text o o ≡ true
same_text_refl none = refl
same_text_refl (some a) = str_eq_refl a

-- A first reading of either agent is no event, and a reading that comes again right after it was handled
-- is none either.
pub only_transitions :
    (previous : UnitMemo) (d : Option DeploymentStatus) (w : Option WatchdogStatus)
    → ((deployment_events (deployment_events previous d).memo d).events ≡ [])
      × ((watchdog_events (watchdog_events previous w).memo w).events ≡ [])
      × ((deployment_events (record previous { deploy_result = none }) d).events ≡ [])
      × ((watchdog_events (record previous { watchdog_actions = none }) w).events ≡ [])
unfolding deployment_events watchdog_events repair_events given_up_events
only_transitions previous d w = (deploy_again d, watchdog_again w, deploy_first d, watchdog_first w)
  where
    deploy_again :
        (o : Option DeploymentStatus)
        → (deployment_events (deployment_events previous o).memo o).events ≡ []
    deploy_again none = refl
    deploy_again (some s) = elim (Option-cases s.last_result) [
      | inl e ↦ ground (arith, e)
      | inr (r, e) ↦ ground (arith, e, str_eq_refl r)
    ]

    watchdog_again :
        (o : Option WatchdogStatus)
        → (watchdog_events (watchdog_events previous o).memo o).events ≡ []
    watchdog_again none = refl
    watchdog_again (some s) = ground (arith, same_text_refl s.needs_hands)

    deploy_first :
        (o : Option DeploymentStatus)
        → (deployment_events (record previous { deploy_result = none }) o).events ≡ []
    deploy_first none = refl
    deploy_first (some s) = ground arith

    watchdog_first :
        (o : Option WatchdogStatus)
        → (watchdog_events (record previous { watchdog_actions = none }) o).events ≡ []
    watchdog_first none = refl
    watchdog_first (some s) = ground arith

abbrev repairs_of : UnitMessage → ℕ
repairs_of (repaired made line) = made
repairs_of _ = 0

-- The repairs that the events tell of.
abbrev pub repairs : List UnitEvent → ℕ
repairs [] = 0
repairs (e ∷ es) = repairs_of e.message + repairs es

abbrev pub read_all : UnitMemo → List WatchdogStatus → Reading
read_all m [] = record { events = []; memo = m }
read_all m (s ∷ ss) =
    let now = watchdog_events m (some s) in
    let rest = read_all now.memo ss in
    record { events = now.events ++ rest.events; memo = rest.memo }

-- Each reading is of a configured agent, and its count is no smaller than the one before.
abbrev pub IsGrowing : ℕ → List WatchdogStatus → Type 0
IsGrowing before [] = Unit
IsGrowing before (s ∷ ss) =
    (s.configured ≡ true) × (before ≤ s.actions_taken) × IsGrowing s.actions_taken ss

repairs-append : (xs ys : List UnitEvent) → repairs (xs ++ ys) ≡ repairs xs + repairs ys
repairs-append [] ys = omega arith
repairs-append (x ∷ xs) ys = omega (arith, repairs-append xs ys)

one_reading :
    (m : UnitMemo) (before : ℕ) (s : WatchdogStatus)
    → m.watchdog_actions ≡ some before
    → s.configured ≡ true
    → before ≤ s.actions_taken
    → (before + repairs (watchdog_events m (some s)).events ≡ s.actions_taken)
      × ((watchdog_events m (some s)).memo.watchdog_actions ≡ some s.actions_taken)
unfolding watchdog_events repair_events given_up_events
one_reading m before s known on le = (ground (arith, known, on), ground (arith, known, on))

-- Over readings of a configured agent whose count never falls, the repairs in the events add up: with
-- the count known before they make the count known after.
pub repairs_add_up :
    (ss : List WatchdogStatus) (m : UnitMemo) (before : ℕ)
    → m.watchdog_actions ≡ some before
    → IsGrowing before ss
    → (read_all m ss).memo.watchdog_actions ≡ some (before + repairs (read_all m ss).events)
repairs_add_up [] m before known h = known ∙ ap (λ n. some n) (omega arith)
repairs_add_up (s ∷ ss) m before known (on, le, h) =
    let now = watchdog_events m (some s) in
    let (count, next) = one_reading m before s known on le in
    repairs_add_up ss now.memo s.actions_taken next h
    ∙ ap (λ n. some n)
        (omega (arith, count, repairs-append now.events (read_all now.memo ss).events))
