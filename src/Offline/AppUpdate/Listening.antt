-- ===== src/Offline/AppUpdate/Listening.antt =====
-- Which workers app-update.ts listens to.
use classg.Prelude.{
  ℕ, ◌≡◌, refl, sym, ◌∙◌, arith, Bool, true, false, Option, none, some, List, [], ◌∷◌,
  if◌then◌else◌, ==_iff, is_some, Option-cases, Bool-cases, inl, inr, if_true, if_false,
}
use classg.Offline.AppUpdate.{
  same_status, UpdateStatus, WorkerState, Watcher, new_watcher, is_installed, is_redundant,
  set_status, offer_if_superseding, unwatch, watch, watch_installing, on_installed_state_change,
  on_controller_change, offer_or_watch, start, stop, check_now, apply_to, apply_update, Event,
  starts, stops, checks, applies, timer_fired, controller_changed, update_found, state_changed,
  step, run,
}

-- The only worker listened to is the watched one, and a stopped watcher has no timer, no watched
-- worker, and is not registered.
pub record Tidy (listening : ℕ → Bool) (watched : Option ℕ) (started timer registered : Bool)
    : Type 0 where
  pub one_worker : (k : ℕ) → listening k ≡ true → watched ≡ some k
  pub released : started ≡ false → (timer ≡ false) × (watched ≡ none)
  pub while_started : registered ≡ started

abbrev pub IsTidy : Watcher → Type 0
IsTidy w = Tidy w.listening w.watched w.started w.timer w.registered

unwatch-quiet :
    (w : Watcher) (k : ℕ)
    → ((j : ℕ) → w.listening j ≡ true → w.watched ≡ some j)
    → ((unwatch w).listening k ≡ false) × ((unwatch w).watched ≡ none)
unfolding unwatch
unwatch-quiet w k one = elim (Option-cases w.watched) [
  | inl e ↦ (ground (arith, one k, e), ground (arith, e))
  | inr (j, e) ↦ (ground (arith, one k, e, ==_iff k j), ground (arith, e))
]

offer-IsTidy : (w : Watcher) → IsTidy w → IsTidy (offer_if_superseding w)
unfolding offer_if_superseding set_status
offer-IsTidy w v = record {
  one_worker = λ k h. ground (arith, v.one_worker k);
  released = λ h. ground (arith, v.released);
  while_started = ground (arith, v.while_started);
}

unwatch_keeps :
    (w : Watcher)
    → ((unwatch w).started ≡ w.started)
      × ((unwatch w).timer ≡ w.timer)
      × ((unwatch w).registered ≡ w.registered)
unfolding unwatch
unwatch_keeps w = elim (Option-cases w.watched) [
  | inl e ↦ (rw (e, unwatch) refl, rw (e, unwatch) refl, rw (e, unwatch) refl)
  | inr (j, e) ↦ (rw (e, unwatch) refl, rw (e, unwatch) refl, rw (e, unwatch) refl)
]

unwatch-IsTidy : (w : Watcher) → IsTidy w → IsTidy (unwatch w)
unwatch-IsTidy w v =
    let (same_started, same_timer, same_registered) = unwatch_keeps w in
    record {
      one_worker = λ k h. ground (arith, (unwatch-quiet w k v.one_worker).0);
      released = λ h. ground (arith, v.released, (unwatch-quiet w 0 v.one_worker).1);
      while_started = ground (arith, v.while_started);
    }

watch-IsTidy : (k : ℕ) (w : Watcher) → IsTidy w → w.started ≡ true → IsTidy (watch k w)
unfolding watch
watch-IsTidy k w v on =
    let (same_started, same_timer, same_registered) = unwatch_keeps w in
    elim (Bool-cases (is_installed (w.worker_state k))) [
      | inl e ↦ if_true IsTidy (is_installed (w.worker_state k)) _ _ e (
          offer-IsTidy (record (unwatch w) { watched = some k })
            (record {
              one_worker = λ j h. ground (arith, (unwatch-quiet w j v.one_worker).0);
              released = λ h. ground arith;
              while_started = ground (arith, v.while_started);
            }))
      | inr e ↦ if_false IsTidy (is_installed (w.worker_state k)) _ _ e (record {
        one_worker =
            λ j h. ground (arith, (unwatch-quiet w j v.one_worker).0, ==_iff k j, ==_iff j k);
        released = λ h. ground arith;
        while_started = ground (arith, v.while_started);
      })
    ]

watch_installing-IsTidy : (w : Watcher) → IsTidy w → w.started ≡ true → IsTidy (watch_installing w)
unfolding watch_installing
watch_installing-IsTidy w v on = elim (Option-cases w.installing) [
  | inl e ↦ rw (e, watch_installing) v
  | inr (k, e) ↦ rw (e, watch_installing) (watch-IsTidy k w v on)
]

handled-IsTidy :
    (k : ℕ) (w : Watcher)
    → IsTidy w
    → IsTidy (
        if is_installed (w.worker_state k)
        then offer_if_superseding w
        else if is_redundant (w.worker_state k)
        then unwatch w
        else w)
handled-IsTidy k w v = elim (Bool-cases (is_installed (w.worker_state k))) [
  | inl e ↦ if_true IsTidy (is_installed (w.worker_state k)) _ _ e (offer-IsTidy w v)
  | inr e ↦
      if_false IsTidy (is_installed (w.worker_state k)) _ _ e
        (elim (Bool-cases (is_redundant (w.worker_state k))) [
          | inl r ↦ if_true IsTidy (is_redundant (w.worker_state k)) _ _ r (unwatch-IsTidy w v)
          | inr r ↦ if_false IsTidy (is_redundant (w.worker_state k)) _ _ r v
        ])
]

installed_state-IsTidy : (w : Watcher) → IsTidy w → IsTidy (on_installed_state_change w)
unfolding on_installed_state_change
installed_state-IsTidy w v = elim (Option-cases w.watched) [
  | inl e ↦ rw (e, on_installed_state_change) v
  | inr (k, e) ↦ rw (e, on_installed_state_change) (handled-IsTidy k w v)
]

-- Setting the timer of a started watcher.
with_timer : (w : Watcher) → IsTidy w → w.started ≡ true → IsTidy (record w { timer = true })
with_timer w v on = record {
  one_worker = v.one_worker;
  released = λ h. ground arith;
  while_started = v.while_started;
}

offer_started : (w : Watcher) → (offer_if_superseding w).started ≡ w.started
unfolding offer_if_superseding set_status
offer_started w = ground arith

watch_started : (k : ℕ) (w : Watcher) → (watch k w).started ≡ w.started
unfolding watch
watch_started k w =
    let same = (unwatch_keeps w).0 in
    let offered = offer_started (record (unwatch w) { watched = some k }) in
    ground (arith, same, offered)

watch_installing_started : (w : Watcher) → (watch_installing w).started ≡ w.started
unfolding watch_installing
watch_installing_started w = elim (Option-cases w.installing) [
  | inl e ↦ rw (e, watch_installing) refl
  | inr (k, e) ↦ rw (e, watch_installing) (watch_started k w)
]

abbrev IsUp : Watcher → Type 0
IsUp w = IsTidy w × (w.started ≡ true)

offered-IsUp : (t : Watcher) → IsUp t → IsUp (offer_or_watch t)
offered-IsUp t (v, on) = elim (Bool-cases (is_some t.waiting)) [
  | inl e ↦ if_true IsUp (is_some t.waiting) _ _ e (offer-IsTidy t v, offer_started t ∙ on)
  | inr e ↦ if_false IsUp (is_some t.waiting) _ _ e (elim (Bool-cases (is_some t.installing)) [
    | inl r ↦
        if_true IsUp (is_some t.installing) _ _ r
          (watch_installing-IsTidy t v on, watch_installing_started t ∙ on)
    | inr r ↦ if_false IsUp (is_some t.installing) _ _ r (v, on)
  ])
]

start-IsTidy : (w : Watcher) → IsTidy w → IsTidy (start w)
unfolding start
start-IsTidy w v = elim (Bool-cases w.started) [
  | inl e ↦ if_true IsTidy w.started _ _ e v
  | inr e ↦
      let begun : Watcher = record w { started = true; registered = true } in
      let tidy : IsTidy begun = record {
        one_worker = v.one_worker;
        released = λ h. ground arith;
        while_started = refl;
      } in
      let (offered, on) = offered-IsUp begun (tidy, refl) in
      if_false IsTidy w.started _ _ e (with_timer (offer_or_watch begun) offered on)
]

stop-IsTidy : (w : Watcher) → IsTidy w → IsTidy (stop w)
unfolding stop
stop-IsTidy w v = elim (Bool-cases w.started) [
  | inl e ↦
      let quiet = unwatch-quiet (record w { started = false; registered = false }) in
      let (same_started, same_timer, same_registered) =
        unwatch_keeps (record w { started = false; registered = false }) in
      if_true IsTidy w.started _ _ e (record {
        one_worker = λ k h. ground (arith, (quiet k v.one_worker).0);
        released = λ h. (refl, (quiet 0 v.one_worker).1);
        while_started = ground arith;
      })
  | inr e ↦ if_false IsTidy w.started _ _ e v
]

apply_to-IsTidy : (o : Option ℕ) (w : Watcher) → IsTidy w → IsTidy (apply_to o w)
unfolding apply_to set_status
apply_to-IsTidy none w v = v
apply_to-IsTidy (some k) w v = record {
  one_worker = λ j h. ground (arith, v.one_worker j);
  released = λ h. ground (arith, v.released);
  while_started = ground (arith, v.while_started);
}

apply-IsTidy : (w : Watcher) → IsTidy w → IsTidy (apply_update w)
unfolding apply_update
apply-IsTidy w v = elim (Bool-cases (same_status w.status UpdateStatus.available)) [
  | inl e ↦
      if_true IsTidy (same_status w.status UpdateStatus.available) _ _ e
        (apply_to-IsTidy w.waiting w v)
  | inr e ↦ if_false IsTidy (same_status w.status UpdateStatus.available) _ _ e v
]

pub step-IsTidy : (e : Event) (w : Watcher) → IsTidy w → IsTidy (step e w)
unfolding step check_now on_controller_change
step-IsTidy starts w v = start-IsTidy w v
step-IsTidy stops w v = stop-IsTidy w v
step-IsTidy checks w v = record {
  one_worker = v.one_worker;
  released = v.released;
  while_started = v.while_started;
}
step-IsTidy applies w v = apply-IsTidy w v
step-IsTidy timer_fired w v = elim (Bool-cases w.timer) [
  | inl e ↦ if_true IsTidy w.timer _ _ e v
  | inr e ↦ if_false IsTidy w.timer _ _ e v
]
step-IsTidy controller_changed w v = record {
  one_worker = λ k h. ground (arith, v.one_worker k);
  released = λ h. ground (arith, v.released);
  while_started = ground (arith, v.while_started);
}
step-IsTidy (update_found k) w v = elim (Bool-cases w.registered) [
  | inl e ↦
      if_true IsTidy w.registered _ _ e (watch_installing-IsTidy _ v (sym v.while_started ∙ e))
  | inr e ↦ if_false IsTidy w.registered _ _ e v
]
step-IsTidy (state_changed k st waiting installing_worker) w v = elim (Bool-cases (w.listening k)) [
  | inl e ↦ if_true IsTidy (w.listening k) _ _ e (installed_state-IsTidy _ v)
  | inr e ↦ if_false IsTidy (w.listening k) _ _ e v
]

run-IsTidy : (es : List Event) (w : Watcher) → IsTidy w → IsTidy (run es w)
unfolding run
run-IsTidy [] w v = v
run-IsTidy (e ∷ es) w v = run-IsTidy es (step e w) (step-IsTidy e w v)

-- Whatever is called and happens, from a new watcher on: at most one worker is listened to, the watched
-- one; the two listeners of the watcher are registered exactly while it is started; and while it is not,
-- no worker is watched and no timer is set.
pub watcher_run-IsTidy :
    (waiting installing_worker : Option ℕ) (states : ℕ → WorkerState) (controller : Bool)
    (es : List Event)
    → IsTidy (run es (new_watcher waiting installing_worker states controller))
watcher_run-IsTidy waiting installing_worker states controller es =
    run-IsTidy es (new_watcher waiting installing_worker states controller) (record {
      one_worker = λ k h. ground arith;
      released = λ h. (refl, refl);
      while_started = refl;
    })
