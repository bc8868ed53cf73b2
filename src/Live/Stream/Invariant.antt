-- ===== src/Live/Stream/Invariant.antt =====
-- The invariant of the stream client of live.ts, and the calls `connect`, `resume` and `close`.
use classg.Prelude.{
  if_true, if_false, ℕ, ◌≡◌, ◌≢◌, refl, arith, Bool, true, false, some, none, inl, inr, ◌⊎◌,
  if◌then◌else◌, Option-cases, Bool-cases,
}
use classg.Live.Stream.{
  ConnectionState, ReadyState, LiveStream, in_use, set_state, schedule_reconnect, open_socket,
  connect, abandon, close, resume, Event, connects, resumes,
}

pub record Inv (s : LiveStream) : Type 0 where
  -- The only socket whose handlers can still run is the current one.
  pub owned : (k : ℕ) → s.attached k ≡ true → s.ready k ≢ ReadyState.closed → s.socket ≡ some k
  -- The current socket is attached and not closed: its close event is still to come.
  pub held : (k : ℕ) → s.socket ≡ some k → (s.attached k ≡ true) × (s.ready k ≢ ReadyState.closed)
  -- A pending retry means that there is no socket.
  pub one_at_a_time : s.timer ≢ none → s.socket ≡ none
  pub quiet_when_stopped :
      s.stopped ≡ true → (s.socket ≡ none) × (s.timer ≡ none) × (s.state ≡ ConnectionState.closed)
  pub open_is_fresh : s.state ≡ ConnectionState.opened → (s.attempt ≡ 0) × (s.socket ≢ none)
  -- Unless it was stopped, the client holds a socket or has a retry pending.
  pub never_idle : s.stopped ≡ false → (s.socket ≢ none) ⊎ (s.timer ≢ none)

pub schedule_reconnect-Inv :
    (jitter : ℕ) (s : LiveStream)
    → s.stopped ≡ false
    → s.socket ≡ none
    → ((k : ℕ) → s.attached k ≡ true → s.ready k ≢ ReadyState.closed → s.socket ≡ some k)
    → Inv (schedule_reconnect jitter s)
unfolding schedule_reconnect set_state
schedule_reconnect-Inv jitter s running free owned = record {
  owned = λ k a r. ground (arith, owned k);
  held = λ k h. ground arith;
  one_at_a_time = λ h. ground arith;
  quiet_when_stopped = λ h. ground arith;
  open_is_fresh = λ h. ground arith;
  never_idle = λ h. ground arith;
}

pub open_socket-Inv :
    (throws : Bool) (jitter : ℕ) (s : LiveStream)
    → s.stopped ≡ false
    → s.socket ≡ none
    → s.timer ≡ none
    → ((k : ℕ) → s.attached k ≡ true → s.ready k ≢ ReadyState.closed → s.socket ≡ some k)
    → Inv (open_socket throws jitter s)
unfolding open_socket set_state
open_socket-Inv true jitter s running free unset owned =
    let announced =
      set_state
        (if s.ever_connected then ConnectionState.reconnecting else ConnectionState.connecting) s in
    if_false Inv s.stopped _ _ running (
      schedule_reconnect-Inv jitter announced (ground arith) (ground arith)
        (λ k. ground (arith, owned k)))
open_socket-Inv false jitter s running free unset owned = record {
  owned = λ k a r. ground (arith, owned k);
  held = λ k h. ground arith;
  one_at_a_time = λ h. ground arith;
  quiet_when_stopped = λ h. ground arith;
  open_is_fresh = λ h. ground arith;
  never_idle = λ h. ground arith;
}

-- The calls and events that leave the client in order: `connect` only with no socket and no retry
-- pending, `resume` only while the socket is not closing.
abbrev pub IsOrderly : LiveStream → Event → Type 0
IsOrderly s (connects throws jitter) = (s.socket ≡ none) × (s.timer ≡ none)
IsOrderly s (resumes throws jitter) = (k : ℕ) → s.socket ≡ some k → s.ready k ≢ ReadyState.closing
IsOrderly s _ = Unit

pub connect-Inv :
    (throws : Bool) (jitter : ℕ) (s : LiveStream)
    → Inv s
    → (s.socket ≡ none) × (s.timer ≡ none)
    → Inv (connect throws jitter s)
unfolding connect
connect-Inv throws jitter s v (free, unset) =
    open_socket-Inv throws jitter (record s { stopped = false }) refl free unset v.owned

-- An orderly `resume` opens a socket only if there is none.
free_to_resume :
    (s : LiveStream)
    → Inv s
    → ((k : ℕ) → s.socket ≡ some k → s.ready k ≢ ReadyState.closing)
    → in_use s s.socket ≡ false
    → s.socket ≡ none
free_to_resume s v orderly unused = elim (Option-cases s.socket) [
  | inl free ↦ free
  | inr (k, current) ↦ ground (arith, v.held k, orderly k)
]

pub resume-Inv :
    (throws : Bool) (jitter : ℕ) (s : LiveStream)
    → Inv s
    → ((k : ℕ) → s.socket ≡ some k → s.ready k ≢ ReadyState.closing)
    → Inv (resume throws jitter s)
unfolding resume
resume-Inv throws jitter s v orderly = elim (Bool-cases s.stopped) [
  | inl stopped ↦ if_true Inv s.stopped _ _ stopped v
  | inr running ↦ elim (Bool-cases (in_use s s.socket)) [
    | inl used ↦ if_false Inv s.stopped _ _ running (if_true Inv (in_use s s.socket) _ _ used v)
    | inr unused ↦
        let free = free_to_resume s v orderly unused in
        if_false Inv s.stopped _ _ running (
          if_false Inv (in_use s s.socket) _ _ unused (
            open_socket-Inv throws jitter (record s { timer = none; attempt = 0 }) running free refl
              v.owned))
  ]
]

pub close-Inv : (s : LiveStream) → Inv s → Inv (close s)
unfolding close abandon set_state
close-Inv s v = elim (Option-cases s.socket) [
  | inl free ↦ record {
    owned = λ k a r. ground (arith, v.owned k);
    held = λ k h. ground (arith, v.held k);
    one_at_a_time = λ h. ground arith;
    quiet_when_stopped = λ h. ground arith;
    open_is_fresh = λ h. ground arith;
    never_idle = λ h. ground arith;
  }
  | inr (c, current) ↦ record {
    owned = λ k a r. ground (arith, v.owned k);
    held = λ k h. ground (arith, v.held k);
    one_at_a_time = λ h. ground arith;
    quiet_when_stopped = λ h. ground arith;
    open_is_fresh = λ h. ground arith;
    never_idle = λ h. ground arith;
  }
]
