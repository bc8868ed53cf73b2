-- ===== src/Offline/AppUpdate/Swaps.antt =====
-- Which workers app-update.ts asks to take over.
use classg.Prelude.{
  ℕ, ◌+◌, ◌≡◌, refl, arith, Bool, true, false, Option, none, some, List, [], ◌∷◌, ◌==◌,
  if◌then◌else◌, count_if, count_if-append, if_true, if_false, Option-cases, Bool-cases, inl, inr,
  ◌∙◌,
}
use classg.Offline.AppUpdate.{
  UpdateStatus, WorkerState, Output, reloaded, checked, skip_waiting, told, Watcher, new_watcher,
  same_status, is_installed, set_status, offer_if_superseding, unwatch, watch, watch_installing,
  on_installed_state_change, on_controller_change, start, stop, check_now, apply_to, apply_update,
  Event, starts, stops, checks, applies, timer_fired, controller_changed, update_found,
  state_changed, step, run,
}
use classg.Offline.AppUpdate.Safety.{Inv, run-Inv}

abbrev pub is_skip_to : ℕ → Output → Bool
is_skip_to k (skip_waiting j) = j == k
is_skip_to k _ = false

-- How often the worker was sent a swap.
abbrev pub sent : ℕ → Watcher → ℕ
sent k w = count_if (is_skip_to k) w.outputs

-- An offer that the operator accepts, and the worker that waits then.
abbrev pub accepts : ℕ → Event → UpdateStatus → Option ℕ → ℕ
accepts k applies UpdateStatus.available (some j) = if j == k then 1 else 0
accepts k _ _ _ = 0

-- How often an offer was accepted while the worker waited.
abbrev pub accepted : ℕ → List Event → Watcher → ℕ
accepted k [] w = 0
accepted k (e ∷ es) w = accepts k e w.status w.waiting + accepted k es (step e w)

module _ (k : ℕ) where
  sent-set_status : (st : UpdateStatus) (w : Watcher) → sent k (set_status st w) ≡ sent k w
  unfolding set_status
  sent-set_status st w = ground (arith, count_if-append (is_skip_to k) w.outputs (told st ∷ []))

  sent-offer : (w : Watcher) → sent k (offer_if_superseding w) ≡ sent k w
  unfolding offer_if_superseding
  sent-offer w = ground (arith, sent-set_status UpdateStatus.available w)

  sent-unwatch : (w : Watcher) → sent k (unwatch w) ≡ sent k w
  unfolding unwatch
  sent-unwatch w = elim (Option-cases w.watched) [
    | inl e ↦ rw (e, unwatch) refl
    | inr (j, e) ↦ rw (e, unwatch) refl
  ]

  sent-watch : (j : ℕ) (w : Watcher) → sent k (watch j w) ≡ sent k w
  unfolding watch
  sent-watch j w = elim (Bool-cases (is_installed (w.worker_state j))) [
    | inl e ↦ rw e (sent-offer (record (unwatch w) { watched = some j }) ∙ sent-unwatch w)
    | inr e ↦ rw e (sent-unwatch w)
  ]

  sent-watch_installing : (w : Watcher) → sent k (watch_installing w) ≡ sent k w
  unfolding watch_installing
  sent-watch_installing w = elim (Option-cases w.installing) [
    | inl e ↦ rw (e, watch_installing) refl
    | inr (j, e) ↦ rw (e, watch_installing) (sent-watch j w)
  ]

  sent-installed_state : (w : Watcher) → sent k (on_installed_state_change w) ≡ sent k w
  unfolding on_installed_state_change
  sent-installed_state w = elim (Option-cases w.watched) [
    | inl e ↦ rw (e, on_installed_state_change) refl
    | inr (j, e) ↦ rw (e, on_installed_state_change) (ground (arith, sent-offer w, sent-unwatch w))
  ]

  sent-controller_change : (w : Watcher) → sent k (on_controller_change w) ≡ sent k w
  unfolding on_controller_change
  sent-controller_change w =
      ground (arith, count_if-append (is_skip_to k) w.outputs (reloaded ∷ []))

  sent-check_now : (w : Watcher) → sent k (check_now w) ≡ sent k w
  unfolding check_now
  sent-check_now w = ground (arith, count_if-append (is_skip_to k) w.outputs (checked ∷ []))

  sent-start : (w : Watcher) → sent k (start w) ≡ sent k w
  unfolding start
  sent-start w =
      let listening = record w { started = true; registered = true } in
      ground (arith, sent-offer listening, sent-watch_installing listening)

  sent-stop : (w : Watcher) → sent k (stop w) ≡ sent k w
  unfolding stop
  sent-stop w = ground (arith, sent-unwatch (record w { started = false; registered = false }))

  sent-apply_to :
      (o : Option ℕ) (w : Watcher)
      → sent k (apply_to o w) ≡ sent k w + accepts k applies UpdateStatus.available o
  unfolding apply_to
  sent-apply_to none w = omega arith
  sent-apply_to (some j) w =
      let marked = record w { applying = true } in
      ground (
        arith,
        sent-set_status UpdateStatus.applying marked,
        count_if-append (is_skip_to k) (set_status UpdateStatus.applying marked).outputs
            (skip_waiting j ∷ []),
      )

  apply_by_status :
      (st : UpdateStatus) (w : Watcher)
      → w.status ≡ st
      → sent k (apply_update w) ≡ sent k w + accepts k applies st w.waiting
  unfolding apply_update
  apply_by_status UpdateStatus.available w e =
      let on : same_status w.status UpdateStatus.available ≡ true = rw e refl in
      if_true (λ t. sent k t ≡ sent k w + accepts k applies UpdateStatus.available w.waiting)
        (same_status w.status UpdateStatus.available) _ _ on (sent-apply_to w.waiting w)
  apply_by_status UpdateStatus.idle w e = rw e (omega arith)
  apply_by_status UpdateStatus.applying w e = rw e (omega arith)

  sent-step :
      (e : Event) (w : Watcher) → sent k (step e w) ≡ sent k w + accepts k e w.status w.waiting
  unfolding step
  sent-step starts w = omega (arith, sent-start w)
  sent-step stops w = omega (arith, sent-stop w)
  sent-step checks w = omega (arith, sent-check_now w)
  sent-step applies w = apply_by_status w.status w refl
  sent-step timer_fired w = ground (arith, sent-check_now w)
  sent-step controller_changed w =
      ground (arith, sent-controller_change (record w { controller = true }))
  sent-step (update_found j) w = elim (Bool-cases w.registered) [
    | inl e ↦
        if_true (λ t. sent k t ≡ sent k w + 0) w.registered _ _ e
          (sent-watch_installing _ ∙ omega arith)
    | inr e ↦ if_false (λ t. sent k t ≡ sent k w + 0) w.registered _ _ e (omega arith)
  ]
  sent-step (state_changed j st waiting installing_worker) w = elim (Bool-cases (w.listening j)) [
    | inl e ↦
        if_true (λ t. sent k t ≡ sent k w + 0) (w.listening j) _ _ e
          (sent-installed_state _ ∙ omega arith)
    | inr e ↦ if_false (λ t. sent k t ≡ sent k w + 0) (w.listening j) _ _ e (omega arith)
  ]

  sent-run : (es : List Event) (w : Watcher) → sent k (run es w) ≡ sent k w + accepted k es w
  unfolding run
  sent-run [] w = omega arith
  sent-run (e ∷ es) w = omega (arith, sent-run es (step e w), sent-step e w)

-- Whatever is called and happens, from a new watcher on: a reload of the page means that a swap was
-- asked for, a swap that was asked for was sent, and a build that is offered or applied means that a
-- worker serves the page. And a worker was sent a swap exactly as often as the operator accepted an
-- offer while that worker was the one waiting.
pub watcher_run-Inv :
    (waiting installing_worker : Option ℕ) (states : ℕ → WorkerState) (controller : Bool)
    (es : List Event) (k : ℕ)
    → Inv (run es (new_watcher waiting installing_worker states controller))
      × (sent k (run es (new_watcher waiting installing_worker states controller))
          ≡ accepted k es (new_watcher waiting installing_worker states controller))
watcher_run-Inv waiting installing_worker states controller es k =
    let fresh = new_watcher waiting installing_worker states controller in
    (
      run-Inv es fresh (record {
        reload_asked = λ h. ground arith;
        swap_sent = λ h. ground arith;
        offer_serves = λ h. absurd (h refl);
      }),
      omega (arith, sent-run k es fresh),
    )
