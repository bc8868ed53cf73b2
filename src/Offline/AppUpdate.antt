-- ===== src/Offline/AppUpdate.antt =====
-- services/ui/src/features/offline/app-update.ts: the watcher for a new build. A `Watcher` is the
-- object's fields, with what the browser holds for it: the state of each worker, by number, and
-- whether `onInstalledStateChange` listens to it, the registration's slots, whether the page has a
-- controller, whether the watcher's two listeners are registered, and what it did, in order.
pub mod Safety
pub mod Swaps
pub mod Applying
pub mod Listening
mod Tests
use classg.Prelude.{
  ℕ, Bool, true, false, Option, none, some, List, [], ◌∷◌, ◌++◌, if◌then◌else◌, is_some,
}
use classg.Live.Stream.{update}

pub data UpdateStatus : Type 0 where
  idle available applying : UpdateStatus

pub data WorkerState : Type 0 where
  installing installed activating activated redundant : WorkerState

pub data Output : Type 0 where
  reloaded checked : Output
  skip_waiting : ℕ → Output
  told : UpdateStatus → Output

pub record Watcher : Type 0 where
  pub status : UpdateStatus
  pub timer : Bool
  pub started : Bool
  pub applying : Bool
  pub watched : Option ℕ
  pub worker_state : ℕ → WorkerState
  pub listening : ℕ → Bool
  pub waiting : Option ℕ
  pub installing : Option ℕ
  pub controller : Bool
  pub registered : Bool
  pub outputs : List Output

abbrev pub new_watcher : Option ℕ → Option ℕ → (ℕ → WorkerState) → Bool → Watcher
new_watcher waiting installing_worker states controller = record {
  status = idle;
  timer = false;
  started = false;
  applying = false;
  watched = none;
  worker_state = states;
  listening = λ _. false;
  waiting = waiting;
  installing = installing_worker;
  controller = controller;
  registered = false;
  outputs = [];
}

abbrev pub same_status : UpdateStatus → UpdateStatus → Bool
same_status UpdateStatus.idle UpdateStatus.idle = true
same_status UpdateStatus.available UpdateStatus.available = true
same_status UpdateStatus.applying UpdateStatus.applying = true
same_status _ _ = false

abbrev pub is_installed : WorkerState → Bool
is_installed WorkerState.installed = true
is_installed _ = false

abbrev pub is_redundant : WorkerState → Bool
is_redundant WorkerState.redundant = true
is_redundant _ = false

pub set_status : UpdateStatus → Watcher → Watcher
set_status st w =
    if same_status w.status st
    then w
    else record w { status = st; outputs = w.outputs ++ told st ∷ [] }

pub offer_if_superseding : Watcher → Watcher
offer_if_superseding w = if w.controller then set_status UpdateStatus.available w else w

pub unwatch : Watcher → Watcher
unwatch w = elim w.watched [
  | none ↦ w
  | some k ↦ record w { listening = update w.listening k false; watched = none }
]

pub watch : ℕ → Watcher → Watcher
watch k w =
    let free = unwatch w in
    if is_installed (w.worker_state k)
    then offer_if_superseding (record free { watched = some k })
    else record free { watched = some k; listening = update free.listening k true }

pub watch_installing : Watcher → Watcher
watch_installing w = elim w.installing [ none ↦ w | some k ↦ watch k w ]

-- `onInstalledStateChange`
pub on_installed_state_change : Watcher → Watcher
on_installed_state_change w = elim w.watched [
  | none ↦ w
  | some k ↦
      if is_installed (w.worker_state k)
      then offer_if_superseding w
      else if is_redundant (w.worker_state k)
      then unwatch w
      else w
]

-- `onControllerChange`
pub on_controller_change : Watcher → Watcher
on_controller_change w = if w.applying then record w { outputs = w.outputs ++ reloaded ∷ [] } else w

-- A worker may already be waiting, or being installed, when the page loads.
abbrev pub offer_or_watch : Watcher → Watcher
offer_or_watch w =
    if is_some w.waiting
    then offer_if_superseding w
    else if is_some w.installing
    then watch_installing w
    else w

pub start : Watcher → Watcher
start w =
    let listening = record w { started = true; registered = true } in
    if w.started then w else record (offer_or_watch listening) { timer = true }

pub stop : Watcher → Watcher
stop w =
    let released = unwatch (record w { started = false; registered = false }) in
    if w.started then record released { timer = false } else w

pub check_now : Watcher → Watcher
check_now w = record w { outputs = w.outputs ++ checked ∷ [] }

pub apply_to : Option ℕ → Watcher → Watcher
apply_to none w = w
apply_to (some k) w =
    let applied = set_status UpdateStatus.applying (record w { applying = true }) in
    record applied { outputs = applied.outputs ++ skip_waiting k ∷ [] }

pub apply_update : Watcher → Watcher
apply_update w = if same_status w.status UpdateStatus.available then apply_to w.waiting w else w

-- A call of the object, or an event of the browser: a state change comes with the slots it leaves.
pub data Event : Type 0 where
  starts stops checks applies timer_fired controller_changed : Event
  update_found : ℕ → Event
  state_changed : (k : ℕ) → WorkerState → (waiting installing : Option ℕ) → Event

pub step : Event → Watcher → Watcher
step starts w = start w
step stops w = stop w
step checks w = check_now w
step applies w = apply_update w
step timer_fired w = if w.timer then check_now w else w
step controller_changed w =
    let taken = record w { controller = true } in
    if w.registered then on_controller_change taken else taken
step (update_found k) w =
    let found = record w {
      installing = some k;
      worker_state = update w.worker_state k WorkerState.installing;
    } in
    if w.registered then watch_installing found else found
step (state_changed k st waiting installing_worker) w =
    let changed = record w {
      worker_state = update w.worker_state k st;
      waiting = waiting;
      installing = installing_worker;
    } in
    if w.listening k then on_installed_state_change changed else changed

pub run : List Event → Watcher → Watcher
run [] w = w
run (e ∷ es) w = run es (step e w)
