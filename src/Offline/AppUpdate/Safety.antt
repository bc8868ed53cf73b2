-- ===== src/Offline/AppUpdate/Safety.antt =====
-- When app-update.ts offers a build and when it reloads the page.
use classg.Prelude.{
  ℕ, ◌≡◌, refl, arith, Bool, true, false, ◌||◌, Option, none, some, List, [], ◌∷◌, if◌then◌else◌,
  is_some, any, any-append, ◌≢◌, Option-cases, Bool-cases, if_true, if_false, inl, inr, ◌∙◌,
}
use classg.Offline.AppUpdate.{
  UpdateStatus, idle, Output, reloaded, checked, skip_waiting, told, Watcher, same_status,
  is_installed, is_redundant, set_status, offer_if_superseding, unwatch, watch, watch_installing,
  on_installed_state_change, on_controller_change, offer_or_watch, start, stop, check_now, apply_to,
  apply_update, Event, starts, stops, checks, applies, timer_fired, controller_changed,
  update_found, state_changed, step, run,
}

abbrev pub is_reload : Output → Bool
is_reload reloaded = true
is_reload _ = false

abbrev pub is_skip : Output → Bool
is_skip (skip_waiting k) = true
is_skip _ = false

abbrev pub is_idle : UpdateStatus → Bool
is_idle idle = true
is_idle _ = false

-- What the watcher did to its page is backed by what the operator and the browser did.
pub record Safe (outputs : List Output) (applying : Bool) (status : UpdateStatus)
    (controller : Bool) : Type 0 where
  -- The page is reloaded only once a swap was asked for.
  pub reload_asked : any is_reload outputs ≡ true → applying ≡ true
  pub swap_sent : applying ≡ true → any is_skip outputs ≡ true
  -- A build is offered only to a page that a worker serves.
  pub offer_serves : status ≢ idle → controller ≡ true

abbrev pub Inv : Watcher → Type 0
Inv w = Safe w.outputs w.applying w.status w.controller

set_status-Inv :
    (st : UpdateStatus) (w : Watcher) → Inv w → w.controller ≡ true → Inv (set_status st w)
unfolding set_status
set_status-Inv st w v c = record {
  reload_asked = λ h. ground (arith, v.reload_asked, any-append is_reload w.outputs (told st ∷ []));
  swap_sent = λ h. ground (arith, v.swap_sent, any-append is_skip w.outputs (told st ∷ []));
  offer_serves = λ h. ground (arith, v.offer_serves, c);
}

offer-Inv : (w : Watcher) → Inv w → Inv (offer_if_superseding w)
unfolding offer_if_superseding
offer-Inv w v = elim (Bool-cases w.controller) [
  | inl c ↦ if_true Inv w.controller _ _ c (set_status-Inv UpdateStatus.available w v c)
  | inr c ↦ if_false Inv w.controller _ _ c v
]

unwatch-Inv : (w : Watcher) → Inv w → Inv (unwatch w)
unfolding unwatch
unwatch-Inv w v = elim (Option-cases w.watched) [
  | inl e ↦ rw (e, unwatch) v
  | inr (k, e) ↦ rw (e, unwatch) v
]

watch-Inv : (k : ℕ) (w : Watcher) → Inv w → Inv (watch k w)
unfolding watch
watch-Inv k w v = elim (Bool-cases (is_installed (w.worker_state k))) [
  | inl e ↦
      if_true Inv (is_installed (w.worker_state k)) _ _ e
        (offer-Inv (record (unwatch w) { watched = some k }) (unwatch-Inv w v))
  | inr e ↦ if_false Inv (is_installed (w.worker_state k)) _ _ e (unwatch-Inv w v)
]

watch_installing-Inv : (w : Watcher) → Inv w → Inv (watch_installing w)
unfolding watch_installing
watch_installing-Inv w v = elim (Option-cases w.installing) [
  | inl e ↦ rw (e, watch_installing) v
  | inr (k, e) ↦ rw (e, watch_installing) (watch-Inv k w v)
]

installed_state-Inv : (w : Watcher) → Inv w → Inv (on_installed_state_change w)
unfolding on_installed_state_change
installed_state-Inv w v = elim (Option-cases w.watched) [
  | inl e ↦ rw (e, on_installed_state_change) v
  | inr (k, e) ↦ rw (e, on_installed_state_change) (handled k)
]
  where
    handled :
        (k : ℕ)
        → Inv (
            if is_installed (w.worker_state k)
            then offer_if_superseding w
            else if is_redundant (w.worker_state k)
            then unwatch w
            else w)
    handled k = elim (Bool-cases (is_installed (w.worker_state k))) [
      | inl e ↦ if_true Inv (is_installed (w.worker_state k)) _ _ e (offer-Inv w v)
      | inr e ↦
          if_false Inv (is_installed (w.worker_state k)) _ _ e
            (elim (Bool-cases (is_redundant (w.worker_state k))) [
              | inl r ↦ if_true Inv (is_redundant (w.worker_state k)) _ _ r (unwatch-Inv w v)
              | inr r ↦ if_false Inv (is_redundant (w.worker_state k)) _ _ r v
            ])
    ]

controller_change-Inv :
    (w : Watcher) → Inv w → Inv (on_controller_change (record w { controller = true }))
unfolding on_controller_change
controller_change-Inv w v = record {
  reload_asked = λ h. ground (arith, v.reload_asked);
  swap_sent = λ h. ground (arith, v.swap_sent, any-append is_skip w.outputs (reloaded ∷ []));
  offer_serves = λ h. ground (arith, v.offer_serves);
}

start-Inv : (w : Watcher) → Inv w → Inv (start w)
unfolding start
start-Inv w v = elim (Bool-cases w.started) [
  | inl e ↦ if_true Inv w.started _ _ e v
  | inr e ↦
      if_false Inv w.started _ _ e (offered (record w { started = true; registered = true }) v)
]
  where
    offered : (t : Watcher) → Inv t → Inv (offer_or_watch t)
    offered t u = elim (Bool-cases (is_some t.waiting)) [
      | inl e ↦ if_true Inv (is_some t.waiting) _ _ e (offer-Inv t u)
      | inr e ↦ if_false Inv (is_some t.waiting) _ _ e (elim (Bool-cases (is_some t.installing)) [
        | inl r ↦ if_true Inv (is_some t.installing) _ _ r (watch_installing-Inv t u)
        | inr r ↦ if_false Inv (is_some t.installing) _ _ r u
      ])
    ]

stop-Inv : (w : Watcher) → Inv w → Inv (stop w)
unfolding stop
stop-Inv w v = elim (Bool-cases w.started) [
  | inl e ↦
      if_true Inv w.started _ _ e (unwatch-Inv (record w { started = false; registered = false }) v)
  | inr e ↦ if_false Inv w.started _ _ e v
]

check-Inv : (w : Watcher) → Inv w → Inv (check_now w)
unfolding check_now
check-Inv w v = record {
  reload_asked = λ h. ground (arith, v.reload_asked, any-append is_reload w.outputs (checked ∷ []));
  swap_sent = λ h. ground (arith, v.swap_sent, any-append is_skip w.outputs (checked ∷ []));
  offer_serves = v.offer_serves;
}

apply_to-Inv : (o : Option ℕ) (w : Watcher) → Inv w → w.controller ≡ true → Inv (apply_to o w)
unfolding apply_to set_status
apply_to-Inv none w v c = v
apply_to-Inv (some k) w v c = record {
  reload_asked = λ h. ground (arith);
  swap_sent = λ h.
      any-append is_skip (announced w) (skip_waiting k ∷ [])
      ∙ ends_true (any is_skip (announced w));
  offer_serves = λ h. ground (arith, c);
}
  where
    announced : Watcher → List Output
    announced t = (set_status UpdateStatus.applying (record t { applying = true })).outputs

    ends_true : (b : Bool) → (b || true) ≡ true
    ends_true true = refl
    ends_true false = refl

apply-Inv : (w : Watcher) → Inv w → Inv (apply_update w)
unfolding apply_update
apply-Inv w v = elim (Bool-cases (same_status w.status UpdateStatus.available)) [
  | inl e ↦
      if_true Inv (same_status w.status UpdateStatus.available) _ _ e
        (apply_to-Inv w.waiting w v (v.offer_serves (λ h. ground arith)))
  | inr e ↦ if_false Inv (same_status w.status UpdateStatus.available) _ _ e v
]

pub step-Inv : (e : Event) (w : Watcher) → Inv w → Inv (step e w)
unfolding step
step-Inv starts w v = start-Inv w v
step-Inv stops w v = stop-Inv w v
step-Inv checks w v = check-Inv w v
step-Inv applies w v = apply-Inv w v
step-Inv timer_fired w v = elim (Bool-cases w.timer) [
  | inl e ↦ if_true Inv w.timer _ _ e (check-Inv w v)
  | inr e ↦ if_false Inv w.timer _ _ e v
]
step-Inv controller_changed w v = elim (Bool-cases w.registered) [
  | inl e ↦ if_true Inv w.registered _ _ e (controller_change-Inv w v)
  | inr e ↦ if_false Inv w.registered _ _ e (served v)
]
  where
    served : Inv w → Safe w.outputs w.applying w.status true
    served u = record {
      reload_asked = u.reload_asked;
      swap_sent = u.swap_sent;
      offer_serves = λ h. refl;
    }
step-Inv (update_found k) w v = elim (Bool-cases w.registered) [
  | inl e ↦ if_true Inv w.registered _ _ e (watch_installing-Inv _ v)
  | inr e ↦ if_false Inv w.registered _ _ e v
]
step-Inv (state_changed k st waiting installing_worker) w v = elim (Bool-cases (w.listening k)) [
  | inl e ↦ if_true Inv (w.listening k) _ _ e (installed_state-Inv _ v)
  | inr e ↦ if_false Inv (w.listening k) _ _ e v
]

pub run-Inv : (es : List Event) (w : Watcher) → Inv w → Inv (run es w)
unfolding run
run-Inv [] w v = v
run-Inv (e ∷ es) w v = run-Inv es (step e w) (step-Inv e w v)
