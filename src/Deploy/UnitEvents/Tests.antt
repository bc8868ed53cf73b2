-- ===== src/Deploy/UnitEvents/Tests.antt =====
-- A deploy and two repairs seen by unit-events.ts, and its theorem there.
use classg.Prelude.{ℕ, ◌+◌, ◌≡◌, refl, arith, true, none, some, [], ◌∷◌, map}
use classg.Deploy.UnitEvents.{
  DeploymentStatus, WatchdogStatus, deploy_started, repaired, UnitMemo, new_memo, result_events,
  deployment_events, repair_events, given_up_events, watchdog_events,
}
use classg.Deploy.UnitEvents.Transitions.{read_all, repairs, repairs_add_up}

abbrev deploying : DeploymentStatus
deploying = record {
  configured = true;
  commit = some "0123456789";
  commit_subject = none;
  last_result = some "deploying";
  last_reason = none;
  last_deploy_ok = none;
}

abbrev counted : ℕ → WatchdogStatus
counted n = record { configured = true; actions_taken = n; needs_hands = none; log = none }

abbrev at_two : UnitMemo
at_two = record new_memo { deploy_result = some "up-to-date"; watchdog_actions = some 2 }

calls : Unit {0}
unfolding deployment_events result_events watchdog_events repair_events given_up_events
calls = tt

events_seen :
    (map (λ e. e.message) (deployment_events at_two (some deploying)).events
      ≡ deploy_started none ∷ [])
    × (map (λ e. e.message) (watchdog_events at_two (some (counted 3))).events
        ≡ repaired 1 none ∷ [])
unfolding calls
events_seen = (refl, refl)

repairs_add_up_example :
    (read_all at_two (counted 3 ∷ counted 3 ∷ counted 6 ∷ [])).memo.watchdog_actions
    ≡ some (2 + repairs (read_all at_two (counted 3 ∷ counted 3 ∷ counted 6 ∷ [])).events)
repairs_add_up_example =
    repairs_add_up (counted 3 ∷ counted 3 ∷ counted 6 ∷ []) at_two 2 refl
      (refl, omega arith, (refl, omega arith, (refl, omega arith, tt)))
