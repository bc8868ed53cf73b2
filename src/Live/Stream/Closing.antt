-- ===== src/Live/Stream/Closing.antt =====
-- `close` and `resume` of live.ts.
use classg.Prelude.{
  ◌<◌, ◌≤◌, ◌^◌, ℕ, ◌≡◌, ◌≢◌, refl, arith, true, false, some, none, inl, inr, List, [], ◌∷◌,
  Option-cases, All, ◌∙◌,
}
use classg.Live.Stream.{
  ceiling, delay_for, ConnectionState, ReadyState, LiveStream, in_use, set_state,
  schedule_reconnect, open_socket, send, abandon, close, resume, on_open, on_message, on_close,
  on_timer, Event, connects, resumes, closes, sends, socket_opened, socket_closing, socket_message,
  socket_closed, timer_fired, step, run,
}
use classg.Live.Stream.Backoff.{first_delay-le}
use classg.Live.Stream.Invariant.{Inv, IsOrderly, close-Inv}
use classg.Live.Stream.Orderly.{step-Inv}

-- Any call or event but `connect`.
abbrev pub IsNotConnect : Event → Type 0
IsNotConnect (connects throws jitter) = ⊥
IsNotConnect _ = Unit

stopped-IsOrderly :
    (e : Event) (s : LiveStream) → Inv s → s.stopped ≡ true → IsNotConnect e → IsOrderly s e
stopped-IsOrderly (connects throws jitter) s v stopped n = absurd n
stopped-IsOrderly (resumes throws jitter) s v stopped n =
    λ k current. ground (arith, v.quiet_when_stopped)
stopped-IsOrderly _ s v stopped n = tt

step_stopped :
    (e : Event) (s : LiveStream)
    → Inv s
    → s.stopped ≡ true
    → IsNotConnect e
    → ((step e s).stopped ≡ true) × ((step e s).outputs ≡ s.outputs)
unfolding step resume close abandon set_state send on_open on_message on_close schedule_reconnect
    on_timer open_socket
step_stopped (connects throws jitter) s v stopped n = absurd n
step_stopped (resumes throws jitter) s v stopped n = ground arith
step_stopped closes s v stopped n = ground (arith, v.quiet_when_stopped)
step_stopped (sends f) s v stopped n = ground (arith, v.quiet_when_stopped)
step_stopped (socket_opened k) s v stopped n = ground (arith, v.quiet_when_stopped, v.owned k)
step_stopped (socket_closing k) s v stopped n = ground (arith, v.quiet_when_stopped)
step_stopped (socket_message k m) s v stopped n = ground (arith, v.quiet_when_stopped, v.owned k)
step_stopped (socket_closed k jitter) s v stopped n =
    ground (arith, v.quiet_when_stopped, v.owned k)
step_stopped (timer_fired throws jitter) s v stopped n = ground (arith, v.quiet_when_stopped)

run_stopped :
    (es : List Event) (s : LiveStream)
    → Inv s
    → s.stopped ≡ true
    → All IsNotConnect es
    → Inv (run es s) × ((run es s).stopped ≡ true) × ((run es s).outputs ≡ s.outputs)
unfolding run
run_stopped [] s v stopped n = (v, stopped, refl)
run_stopped (e ∷ es) s v stopped n =
    let (stopped', same) = step_stopped e s v stopped n.0 in
    let (v', stays, same') =
      run_stopped es (step e s) (step-Inv e s v (stopped-IsOrderly e s v stopped n.0)) stopped'
        n.1 in
    (v', stays, same' ∙ same)

-- After `close` of a client in order, whatever is called or happens but `connect`, nothing more is
-- sent or told to a listener, and there is no socket, no pending retry, and the state is closed.
pub close_is_final :
    (s : LiveStream) (es : List Event)
    → Inv s
    → All IsNotConnect es
    → ((run es (close s)).outputs ≡ (close s).outputs)
      × ((run es (close s)).socket ≡ none)
      × ((run es (close s)).timer ≡ none)
      × ((run es (close s)).state ≡ ConnectionState.closed)
unfolding close abandon set_state
close_is_final s es v n =
    let (v', stopped, same) = run_stopped es (close s) (close-Inv s v) (closed_is_stopped s) n in
    let (free, unset, shut) = v'.quiet_when_stopped stopped in (same, free, unset, shut)
  where
    closed_is_stopped : (t : LiveStream) → (close t).stopped ≡ true
    closed_is_stopped t = elim (Option-cases t.socket) [
      | inl e ↦ ground arith
      | inr e ↦ ground arith
    ]

-- If the client was not stopped, its socket is neither open nor connecting and the socket factory does
-- not throw, `resume` opens a new socket at once, and the backoff starts anew: if that socket closes
-- before it opens, with a jitter below 1, one failed attempt is counted and the retry is due within the
-- base delay.
pub resume_restarts_backoff :
    (s : LiveStream) (jitter later : ℕ)
    → s.stopped ≡ false
    → in_use s s.socket ≡ false
    → later < 2 ^ 53
    → ((resume false jitter s).socket ≡ some s.next_socket)
      × ((step (socket_closed s.next_socket later) (resume false jitter s)).attempt ≡ 1)
      × ((delay : ℕ) × ((step (socket_closed s.next_socket later) (resume false jitter s)).timer
            ≡ some delay)
          × (delay ≤ s.base_delay_ms))
unfolding step resume open_socket set_state on_close schedule_reconnect delay_for ceiling
resume_restarts_backoff s jitter later running unused h =
    (ground arith, ground arith, (delay_for s later 1, ground arith, first_delay-le s later h))

-- If the client was not stopped and `resume` is called while the current socket, still attached, is
-- closing, and the socket factory does not throw, then the close event of the old socket discards the
-- new one: that one stays attached and connecting, the client holds none, and a retry is pending.
pub resume_while_closing :
    (s : LiveStream) (k jitter later : ℕ)
    → s.stopped ≡ false
    → s.socket ≡ some k
    → s.ready k ≡ ReadyState.closing
    → s.attached k ≡ true
    → k ≢ s.next_socket
    → ((step (socket_closed k later) (resume false jitter s)).socket ≡ none)
      × ((step (socket_closed k later) (resume false jitter s)).timer ≢ none)
      × ((step (socket_closed k later) (resume false jitter s)).attached s.next_socket ≡ true)
      × ((step (socket_closed k later) (resume false jitter s)).ready s.next_socket
          ≡ ReadyState.connecting)
unfolding step resume open_socket set_state on_close schedule_reconnect
resume_while_closing s k jitter later running current closing a apart =
    (ground arith, λ h. ground arith, ground arith, ground arith)
