-- ===== src/Live/Stream/Orderly.antt =====
-- What holds of the stream client of live.ts after every call and event, if nobody calls `connect`
-- over a socket or a timer, or `resume` while the socket is closing.
use classg.Prelude.{
  subst, if_true, if_false, ℕ, ◌≡◌, ◌≢◌, refl, arith, Bool, true, false, some, none, inl, inr, List,
  [], ◌∷◌, ◌++◌, Option-cases, Bool-cases,
}
use classg.Live.Stream.{
  Output, sent, delivered, is_ping, pong, binary, garbage, frame, ReadyState, LiveStream,
  same_ready, update, set_state, send, connect, on_open, on_message, on_close, on_timer, Event,
  connects, resumes, closes, sends, socket_opened, socket_closing, socket_message, socket_closed,
  timer_fired, step, run, ClientFrame, Message, new_stream,
}
use classg.Live.Stream.Invariant.{
  Inv, IsOrderly, schedule_reconnect-Inv, open_socket-Inv, connect-Inv, resume-Inv, close-Inv,
}

-- What the handlers and the browser change is seen from the socket's number.
socket_opened-Inv : (k : ℕ) (s : LiveStream) → Inv s → Inv (step (socket_opened k) s)
unfolding step on_open send set_state
socket_opened-Inv k s v = elim (Option-cases s.socket) [
  | inl free ↦ record {
    owned = λ j a r. ground (arith, v.owned j, v.owned k);
    held = λ j h. ground (arith, v.held j, v.owned k);
    one_at_a_time = λ h. ground (arith, v.one_at_a_time, v.owned k);
    quiet_when_stopped = λ h. ground (arith, v.quiet_when_stopped, v.owned k);
    open_is_fresh = λ h. ground (arith, v.open_is_fresh, v.owned k);
    never_idle = λ h. ground (arith, v.never_idle, v.owned k);
  }
  | inr (c, current) ↦ record {
    owned = λ j a r. ground (arith, v.owned j, v.owned k);
    held = λ j h. ground (arith, v.held j, v.owned k);
    one_at_a_time = λ h. ground (arith, v.one_at_a_time, v.owned k);
    quiet_when_stopped = λ h. ground (arith, v.quiet_when_stopped, v.owned k);
    open_is_fresh = λ h. ground (arith, v.open_is_fresh, v.owned k);
    never_idle = λ h. ground (arith, v.never_idle, v.owned k);
  }
]

socket_closing-Inv : (k : ℕ) (s : LiveStream) → Inv s → Inv (step (socket_closing k) s)
unfolding step
socket_closing-Inv k s v = record {
  owned = λ j a r. ground (arith, v.owned j);
  held = λ j h. ground (arith, v.held j);
  one_at_a_time = λ h. ground (arith, v.one_at_a_time);
  quiet_when_stopped = λ h. ground (arith, v.quiet_when_stopped);
  open_is_fresh = λ h. ground (arith, v.open_is_fresh);
  never_idle = λ h. ground (arith, v.never_idle);
}

outputs-Inv : (s : LiveStream) (os : List Output) → Inv s → Inv (record s { outputs = os })
outputs-Inv s os v = record {
  owned = v.owned;
  held = v.held;
  one_at_a_time = v.one_at_a_time;
  quiet_when_stopped = v.quiet_when_stopped;
  open_is_fresh = v.open_is_fresh;
  never_idle = v.never_idle;
}

-- A socket whose handlers are detached may close without notice.
unattached-Inv :
    (k : ℕ) (s : LiveStream)
    → Inv s
    → s.attached k ≡ false
    → Inv (record s { ready = update s.ready k ReadyState.closed })
unattached-Inv k s v a = record {
  owned = λ j b r. ground (arith, v.owned j);
  held = λ j h. ground (arith, v.held j);
  one_at_a_time = v.one_at_a_time;
  quiet_when_stopped = v.quiet_when_stopped;
  open_is_fresh = v.open_is_fresh;
  never_idle = v.never_idle;
}

send-Inv : (f : ClientFrame) (s : LiveStream) → Inv s → Inv (send f s)
unfolding send
send-Inv f s v = elim (Option-cases s.socket) [
  | inl free ↦ subst Inv (ground arith) v
  | inr (k, current) ↦ elim (Bool-cases (same_ready (s.ready k) ReadyState.opened)) [
    | inl up ↦ subst Inv (ground arith) (outputs-Inv s (s.outputs ++ sent k f ∷ []) v)
    | inr down ↦ subst Inv (ground arith) v
  ]
]

on_message-Inv : (m : Message) (s : LiveStream) → Inv s → Inv (on_message m s)
unfolding on_message
on_message-Inv binary s v = v
on_message-Inv garbage s v = v
on_message-Inv (frame f) s v = elim (Bool-cases (is_ping f)) [
  | inl e ↦ if_true Inv (is_ping f) _ _ e (send-Inv pong s v)
  | inr e ↦ if_false Inv (is_ping f) _ _ e (outputs-Inv s (s.outputs ++ delivered f ∷ []) v)
]

socket_message-Inv :
    (k : ℕ) (m : Message) (s : LiveStream) → Inv s → Inv (step (socket_message k m) s)
unfolding step
socket_message-Inv k m s v = elim (Bool-cases (same_ready (s.ready k) ReadyState.opened)) [
  | inl up ↦ elim (Bool-cases (s.attached k)) [
    | inl a ↦ if_true Inv _ _ _ up (if_true Inv _ _ _ a (on_message-Inv m s v))
    | inr a ↦ if_true Inv _ _ _ up (if_false Inv _ _ _ a v)
  ]
  | inr down ↦ if_false Inv _ _ _ down v
]

-- The current socket goes: nobody else's handlers are left.
on_close-Inv :
    (k jitter : ℕ) (s : LiveStream)
    → Inv s
    → s.attached k ≡ true
    → s.ready k ≢ ReadyState.closed
    → Inv (on_close jitter (record s { ready = update s.ready k ReadyState.closed }))
unfolding on_close
on_close-Inv k jitter s v a r = elim (Bool-cases s.stopped) [
  | inl stopped ↦ absurd (ground (arith, v.owned k, v.quiet_when_stopped))
  | inr running ↦
      schedule_reconnect-Inv jitter
        (record s { socket = none; ready = update s.ready k ReadyState.closed }) running refl
        (λ j b q. ground (arith, v.owned j, v.owned k))
]

socket_closed-Inv : (k jitter : ℕ) (s : LiveStream) → Inv s → Inv (step (socket_closed k jitter) s)
unfolding step
socket_closed-Inv k jitter s v = elim (Bool-cases (same_ready (s.ready k) ReadyState.closed)) [
  | inl gone ↦ if_true Inv _ _ _ gone v
  | inr there ↦ elim (Bool-cases (s.attached k)) [
    | inl a ↦
        if_false Inv _ _ _ there (if_true Inv _ _ _ a (on_close-Inv k jitter s v a (ground arith)))
    | inr a ↦ if_false Inv _ _ _ there (if_false Inv _ _ _ a (unattached-Inv k s v a))
  ]
]

timer_fired-Inv :
    (throws : Bool) (jitter : ℕ) (s : LiveStream) → Inv s → Inv (step (timer_fired throws jitter) s)
unfolding step on_timer
timer_fired-Inv throws jitter s v = elim (Option-cases s.timer) [
  | inl unset ↦ subst Inv (ground arith) v
  | inr (delay, set) ↦ subst Inv (ground arith) (
      open_socket-Inv throws jitter (record s { timer = none }) (running delay set) (free delay set)
        refl (λ k. ground (arith, v.owned k, free delay set)))
]
  where
    free : (d : ℕ) → s.timer ≡ some d → s.socket ≡ none
    free d e = v.one_at_a_time (ground arith)

    running : (d : ℕ) → s.timer ≡ some d → s.stopped ≡ false
    running d e = ground (arith, v.quiet_when_stopped)

-- Every orderly call, and every event of the browser, keeps the client in order: one socket or one
-- pending retry and never both, none after `close`, one or the other until then.
pub step-Inv : (e : Event) (s : LiveStream) → Inv s → IsOrderly s e → Inv (step e s)
unfolding step
step-Inv (connects throws jitter) s v o = connect-Inv throws jitter s v o
step-Inv (resumes throws jitter) s v o = resume-Inv throws jitter s v o
step-Inv closes s v o = close-Inv s v
step-Inv (sends f) s v o = send-Inv f s v
step-Inv (socket_opened k) s v o = socket_opened-Inv k s v
step-Inv (socket_closing k) s v o = socket_closing-Inv k s v
step-Inv (socket_message k m) s v o = socket_message-Inv k m s v
step-Inv (socket_closed k jitter) s v o = socket_closed-Inv k jitter s v
step-Inv (timer_fired throws jitter) s v o = timer_fired-Inv throws jitter s v

-- Every call and event of a run is orderly where it comes.
abbrev pub IsOrderlyRun : LiveStream → List Event → Type 0
IsOrderlyRun s [] = Unit
IsOrderlyRun s (e ∷ es) = IsOrderly s e × IsOrderlyRun (step e s) es

run-Inv : (es : List Event) (s : LiveStream) → Inv s → IsOrderlyRun s es → Inv (run es s)
unfolding run
run-Inv [] s v o = v
run-Inv (e ∷ es) s v o = run-Inv es (step e s) (step-Inv e s v o.0) o.1

-- From a first `connect` of a new stream, after any orderly run of calls and events, the client is in
-- order: it has one socket or one pending retry and never both, neither once it is stopped, and its
-- state is open only with a socket and no failed attempts counted.
pub connected_run-Inv :
    (base max_delay : ℕ) (throws : Bool) (jitter : ℕ) (es : List Event)
    → IsOrderlyRun (connect throws jitter (new_stream base max_delay)) es
    → Inv (run es (connect throws jitter (new_stream base max_delay)))
unfolding connect
connected_run-Inv base max_delay throws jitter es o =
    run-Inv es _
      (open_socket-Inv throws jitter (new_stream base max_delay) refl refl refl (λ k a r. cc)) o
