-- ===== src/Live/Stream.antt =====
-- services/ui/src/lib/api/live.ts: the WebSocket client of the live stream. A `LiveStream` is the
-- object's fields, with what the browser holds for it: for each socket ever made, by number, its
-- `readyState` and whether the handlers are attached, and what was sent, told to listeners and
-- delivered, in order. `step` is one call or one event. What the environment decides comes with the
-- event: whether the socket factory throws, and the value of `jitter()`, in units of 2^-53.
pub mod Backoff
pub mod Invariant
pub mod Orderly
pub mod Closing
pub mod Recovery
mod Tests
use classg.Prelude.{
  ℕ, suc, ◌+◌, ◌-◌, ◌*◌, ◌/◌, ◌^◌, Bool, true, false, Option, none, some, List, [], ◌∷◌, ◌++◌, min,
  if◌then◌else◌, ◌==◌,
}
use classg.Api.{ServerFrame, ping}

pub data ConnectionState : Type 0 where
  connecting opened reconnecting closed : ConnectionState

pub data ReadyState : Type 0 where
  connecting opened closing closed : ReadyState

pub data ClientFrame : Type 0 where
  subscribe pong : ClientFrame

pub data Output : Type 0 where
  state_changed : ConnectionState → Output
  connected : (is_reconnect : Bool) → Output
  sent : ℕ → ClientFrame → Output
  delivered : ServerFrame → Output

pub record LiveStream : Type 0 where
  pub base_delay_ms : ℕ
  pub max_delay_ms : ℕ
  pub socket : Option ℕ
  pub timer : Option ℕ
  pub attempt : ℕ
  pub ever_connected : Bool
  pub stopped : Bool
  pub state : ConnectionState
  pub ready : ℕ → ReadyState
  pub attached : ℕ → Bool
  pub next_socket : ℕ
  pub outputs : List Output

-- The constructor, with the delays of its options.
abbrev pub new_stream : ℕ → ℕ → LiveStream
new_stream base max_delay = record {
  base_delay_ms = base;
  max_delay_ms = max_delay;
  socket = none;
  timer = none;
  attempt = 0;
  ever_connected = false;
  stopped = false;
  state = ConnectionState.closed;
  ready = λ _. ReadyState.closed;
  attached = λ _. false;
  next_socket = 0;
  outputs = [];
}

abbrev pub default_base_delay_ms : ℕ
default_base_delay_ms = 500

abbrev pub default_max_delay_ms : ℕ
default_max_delay_ms = 30000

abbrev pub update {ℓ} : {A : Type ℓ} → (ℕ → A) → ℕ → A → ℕ → A
update f k v j = if j == k then v else f j

abbrev pub same_ready : ReadyState → ReadyState → Bool
same_ready ReadyState.connecting ReadyState.connecting = true
same_ready ReadyState.opened ReadyState.opened = true
same_ready ReadyState.closing ReadyState.closing = true
same_ready ReadyState.closed ReadyState.closed = true
same_ready _ _ = false

abbrev pub same_connection : ConnectionState → ConnectionState → Bool
same_connection ConnectionState.connecting ConnectionState.connecting = true
same_connection ConnectionState.opened ConnectionState.opened = true
same_connection ConnectionState.reconnecting ConnectionState.reconnecting = true
same_connection ConnectionState.closed ConnectionState.closed = true
same_connection _ _ = false

-- `Math.min(this.baseDelayMs * 2 ** Math.max(0, attempt - 1), this.maxDelayMs)`
pub ceiling : LiveStream → ℕ → ℕ
ceiling s attempt = min (s.base_delay_ms * 2 ^ (attempt - 1)) s.max_delay_ms

pub delay_for : LiveStream → ℕ → ℕ → ℕ
unfolding ceiling
delay_for s jitter attempt = jitter * ceiling s attempt / 2 ^ 53

pub set_state : ConnectionState → LiveStream → LiveStream
set_state st s =
    if same_connection s.state st
    then s
    else record s { state = st; outputs = s.outputs ++ state_changed st ∷ [] }

-- `clearTimer` is the write of `none` to the timer.
pub schedule_reconnect : ℕ → LiveStream → LiveStream
schedule_reconnect jitter s =
    let again = set_state ConnectionState.reconnecting (record s { attempt = suc s.attempt }) in
    if s.stopped then s else record again { timer = some (delay_for s jitter (suc s.attempt)) }

-- The private `open`: `throws` says whether the socket factory does.
pub open_socket : Bool → ℕ → LiveStream → LiveStream
open_socket throws jitter s =
    let announced =
      set_state
        (if s.ever_connected then ConnectionState.reconnecting else ConnectionState.connecting) s in
    if s.stopped
    then s
    else if throws
    then schedule_reconnect jitter announced
    else record announced {
      socket = some s.next_socket;
      ready = update s.ready s.next_socket ReadyState.connecting;
      attached = update s.attached s.next_socket true;
      next_socket = suc s.next_socket;
    }

pub send : ClientFrame → LiveStream → LiveStream
send f s = elim s.socket [
  | none ↦ s
  | some k ↦
      if same_ready (s.ready k) ReadyState.opened
      then record s { outputs = s.outputs ++ sent k f ∷ [] }
      else s
]

pub connect : Bool → ℕ → LiveStream → LiveStream
connect throws jitter s = open_socket throws jitter (record s { stopped = false })

-- `detach` and `socket.close()` of the current socket, if there is one.
pub abandon : Option ℕ → LiveStream → LiveStream
abandon none s = s
abandon (some k) s = record s {
  ready = update s.ready k ReadyState.closing;
  attached = update s.attached k false;
  socket = none;
}

pub close : LiveStream → LiveStream
close s =
    set_state ConnectionState.closed (abandon s.socket (record s { stopped = true; timer = none }))

-- `this.socket?.readyState` is OPEN or CONNECTING.
abbrev pub in_use : LiveStream → Option ℕ → Bool
in_use s none = false
in_use s (some k) =
    if same_ready (s.ready k) ReadyState.opened
    then true
    else same_ready (s.ready k) ReadyState.connecting

pub resume : Bool → ℕ → LiveStream → LiveStream
resume throws jitter s =
    if s.stopped
    then s
    else if in_use s s.socket
    then s
    else open_socket throws jitter (record s { timer = none; attempt = 0 })

-- The `onopen` handler.
pub on_open : LiveStream → LiveStream
on_open s =
    let was_connected = s.ever_connected in
    let up = set_state ConnectionState.opened (record s { ever_connected = true; attempt = 0 }) in
    let subscribed = send subscribe up in
    record subscribed { outputs = subscribed.outputs ++ connected was_connected ∷ [] }

-- What arrives: data that is no text, text that is no JSON, or a frame.
pub data Message : Type 0 where
  binary garbage : Message
  frame : ServerFrame → Message

abbrev is_ping : ServerFrame → Bool
is_ping ping = true
is_ping _ = false

pub on_message : Message → LiveStream → LiveStream
on_message binary s = s
on_message garbage s = s
on_message (frame f) s =
    if is_ping f then send pong s else record s { outputs = s.outputs ++ delivered f ∷ [] }

pub on_close : ℕ → LiveStream → LiveStream
on_close jitter s = schedule_reconnect jitter (record s { socket = none })

pub on_timer : Bool → ℕ → LiveStream → LiveStream
on_timer throws jitter s = open_socket throws jitter (record s { timer = none })

-- A call of the object, or an event of the browser.
pub data Event : Type 0 where
  connects resumes : (throws : Bool) (jitter : ℕ) → Event
  closes : Event
  sends : ClientFrame → Event
  socket_opened socket_closing : ℕ → Event
  socket_message : ℕ → Message → Event
  socket_closed : (k : ℕ) (jitter : ℕ) → Event
  timer_fired : (throws : Bool) (jitter : ℕ) → Event

-- The browser fires only events that the socket's state allows; any other leaves all as it is.
pub step : Event → LiveStream → LiveStream
step (connects throws jitter) s = connect throws jitter s
step (resumes throws jitter) s = resume throws jitter s
step closes s = close s
step (sends f) s = send f s
step (socket_opened k) s =
    let up = record s { ready = update s.ready k ReadyState.opened } in
    if same_ready (s.ready k) ReadyState.connecting
    then (if s.attached k then on_open up else up)
    else s
step (socket_closing k) s =
    if same_ready (s.ready k) ReadyState.closed
    then s
    else record s { ready = update s.ready k ReadyState.closing }
step (socket_message k m) s =
    if same_ready (s.ready k) ReadyState.opened
    then (if s.attached k then on_message m s else s)
    else s
step (socket_closed k jitter) s =
    let down = record s { ready = update s.ready k ReadyState.closed } in
    if same_ready (s.ready k) ReadyState.closed
    then s
    else if s.attached k
    then on_close jitter down
    else down
step (timer_fired throws jitter) s = elim s.timer [
  | none ↦ s
  | some delay ↦ on_timer throws jitter s
]

pub run : List Event → LiveStream → LiveStream
run [] s = s
run (e ∷ es) s = run es (step e s)
