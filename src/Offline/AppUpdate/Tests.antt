-- ===== src/Offline/AppUpdate/Tests.antt =====
-- A deploy seen by app-update.ts, and its theorems there.
use classg.Prelude.{ℕ, ◌≡◌, refl, true, false, none, some, List, [], ◌∷◌, ◌++◌}
use classg.Offline.AppUpdate.{
  UpdateStatus, WorkerState, reloaded, skip_waiting, told, Watcher, new_watcher, set_status,
  offer_if_superseding, unwatch, watch, watch_installing, on_installed_state_change,
  on_controller_change, start, stop, check_now, apply_to, apply_update, Event, starts, applies,
  controller_changed, update_found, state_changed, step, run,
}
use classg.Offline.AppUpdate.Safety.{Inv}
use classg.Offline.AppUpdate.Swaps.{sent, watcher_run-Inv}
use classg.Offline.AppUpdate.Listening.{IsTidy, watcher_run-IsTidy}

calls : Unit {0}
unfolding run step start stop watch watch_installing unwatch on_installed_state_change
    on_controller_change offer_if_superseding set_status apply_update apply_to check_now
calls = tt

abbrev states : ℕ → WorkerState
states k = WorkerState.activated

abbrev deploy : List Event
deploy = starts ∷ update_found 1 ∷ state_changed 1 WorkerState.installed (some 1) none ∷ []

abbrev served : Watcher
served = new_watcher none none states true

abbrev agreed : List Event
agreed = deploy ++ (applies ∷ controller_changed ∷ [])

deploy_is_offered :
    ((run deploy served).status ≡ UpdateStatus.available)
    × ((run agreed served).outputs
        ≡ told UpdateStatus.available ∷ told UpdateStatus.applying ∷ skip_waiting 1 ∷ reloaded ∷ [])
unfolding calls
deploy_is_offered = (refl, refl)

-- On a first visit nothing is offered, and the controller's change does not reload the page.
first_visit :
    (run (deploy ++ controller_changed ∷ []) (new_watcher none none states false)).outputs ≡ []
unfolding calls
first_visit = refl

watcher_run-Inv_example : Inv (run agreed served) × (sent 1 (run agreed served) ≡ 1)
unfolding calls
watcher_run-Inv_example = watcher_run-Inv none none states true agreed 1

watcher_run-IsTidy_example : IsTidy (run agreed served)
watcher_run-IsTidy_example = watcher_run-IsTidy none none states true agreed
