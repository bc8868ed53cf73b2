-- ===== src/Offline/AppUpdate/Applying.antt =====
-- Accepting an update in app-update.ts.
use classg.Prelude.{ℕ, ◌≡◌, refl, arith, false, some, [], ◌∷◌, ◌++◌, append_assoc, if_false, ◌∙◌}
use classg.Offline.AppUpdate.{
  UpdateStatus, skip_waiting, told, Watcher, same_status, set_status, apply_to, apply_update,
}

apply_while_applying : (w : Watcher) → w.status ≡ UpdateStatus.applying → apply_update w ≡ w
unfolding apply_update
apply_while_applying w st =
    let busy : same_status w.status UpdateStatus.available ≡ false = rw st in
    if_false (λ t. t ≡ w) (same_status w.status UpdateStatus.available) _ _ busy refl

apply_available :
    (w : Watcher) (k : ℕ)
    → w.status ≡ UpdateStatus.available
    → w.waiting ≡ some k
    → ((apply_update w).status ≡ UpdateStatus.applying)
      × ((apply_update w).outputs
          ≡ (w.outputs ++ told UpdateStatus.applying ∷ []) ++ skip_waiting k ∷ [])
unfolding apply_update apply_to set_status
apply_available w k st wait = (ground (arith, st, wait), ground (arith, st, wait))

-- If a build is offered and a worker waits, accepting it tells the listeners, asks that worker once to
-- take over, and is then applying; and accepting again does nothing.
pub apply_once :
    (w : Watcher) (k : ℕ)
    → w.status ≡ UpdateStatus.available
    → w.waiting ≡ some k
    → ((apply_update w).status ≡ UpdateStatus.applying)
      × ((apply_update w).outputs ≡ w.outputs ++ told UpdateStatus.applying ∷ skip_waiting k ∷ [])
      × (apply_update (apply_update w) ≡ apply_update w)
apply_once w k st wait =
    let (busy, sent) = apply_available w k st wait in
    (
      busy,
      sent ∙ append_assoc w.outputs (told UpdateStatus.applying ∷ []) (skip_waiting k ∷ []),
      apply_while_applying (apply_update w) busy,
    )
