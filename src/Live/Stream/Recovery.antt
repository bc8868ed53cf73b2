-- ===== src/Live/Stream/Recovery.antt =====
-- live.ts: from a lost connection to the next one, however many attempts fail between.
use classg.Prelude.{
  ℕ, suc, ◌≡◌, ◌≢◌, refl, arith, Bool, true, false, some, none, inl, inr, List, [], ◌∷◌, ◌++◌,
  Option-cases, append_assoc,
}
use classg.Live.Stream.{
  ConnectionState, ReadyState, LiveStream, subscribe, connected, sent, Output, set_state,
  schedule_reconnect, open_socket, send, on_open, on_close, on_timer, Event, socket_opened,
  socket_closed, timer_fired, step, run,
}

-- An attempt that fails: the factory throws, or the new socket closes before it opens. Each goes with
-- what `jitter()` answers.
pub data Failure : Type 0 where
  refused : (jitter : ℕ) → Failure
  lost : (jitter later : ℕ) → Failure

-- The events of these failures and of one attempt that succeeds, if `next` is the next socket.
abbrev pub attempts : ℕ → List Failure → ℕ → List Event
attempts next [] jitter = timer_fired false jitter ∷ socket_opened next ∷ []
attempts next (refused i ∷ fs) jitter = timer_fired true i ∷ attempts next fs jitter
attempts next (lost i later ∷ fs) jitter =
    timer_fired false i ∷ socket_closed next later ∷ attempts (suc next) fs jitter

-- A retry is pending, and the sockets to come are not yet known to the browser.
abbrev IsWaiting : ℕ → LiveStream → Type 0
IsWaiting next s = (s.stopped ≡ false) × (s.timer ≢ none) × (s.next_socket ≡ next)

refused-IsWaiting :
    (i next : ℕ) (s : LiveStream) → IsWaiting next s → IsWaiting next (step (timer_fired true i) s)
unfolding step on_timer open_socket schedule_reconnect set_state
refused-IsWaiting i next s (running, pending, same) = elim (Option-cases s.timer) [
  | inl e ↦ absurd (pending e)
  | inr (delay, e) ↦ (ground arith, (λ h. ground arith), ground arith)
]

lost-IsWaiting :
    (i later next : ℕ) (s : LiveStream)
    → IsWaiting next s
    → IsWaiting (suc next) (step (socket_closed next later) (step (timer_fired false i) s))
unfolding step on_timer open_socket on_close schedule_reconnect set_state
lost-IsWaiting i later next s (running, pending, same) = elim (Option-cases s.timer) [
  | inl e ↦ absurd (pending e)
  | inr (delay, e) ↦ (ground arith, (λ h. ground arith), ground arith)
]

-- Connected by its newest socket: it is open, the backoff is back at its start and no retry is
-- pending, and the last that went out is the subscription, then the word to the listeners.
abbrev pub IsConnected : LiveStream → Type 0
IsConnected s =
    (k : ℕ) × (again : Bool) × (before : List Output) × (s.socket ≡ some k)
    × (s.ready k ≡ ReadyState.opened)
    × (s.attached k ≡ true)
    × (s.state ≡ ConnectionState.opened)
    × (s.attempt ≡ 0)
    × (s.timer ≡ none)
    × (s.outputs ≡ before ++ sent k subscribe ∷ connected again ∷ [])

-- A socket is connecting, and no retry is pending.
abbrev IsDialing : ℕ → LiveStream → Type 0
IsDialing next s =
    (s.socket ≡ some next)
    × (s.ready next ≡ ReadyState.connecting)
    × (s.attached next ≡ true)
    × (s.timer ≡ none)

timer-IsDialing :
    (jitter next : ℕ) (s : LiveStream)
    → IsWaiting next s
    → IsDialing next (step (timer_fired false jitter) s)
unfolding step on_timer open_socket set_state
timer-IsDialing jitter next s (running, pending, same) = elim (Option-cases s.timer) [
  | inl e ↦ absurd (pending e)
  | inr (delay, e) ↦ (ground arith, ground arith, ground arith, ground arith)
]

opened-IsConnected :
    (next : ℕ) (s : LiveStream) → IsDialing next s → IsConnected (step (socket_opened next) s)
unfolding step on_open send set_state
opened-IsConnected next s (current, dialing, attached, unset) =
    let before = (set_state ConnectionState.opened s).outputs in
    let joined = append_assoc before (sent next subscribe ∷ []) (connected s.ever_connected ∷ []) in
    (
      next,
      s.ever_connected,
      before,
      ground arith,
      ground arith,
      ground arith,
      ground arith,
      ground arith,
      ground arith,
      ground (arith, joined),
    )

recovers :
    (jitter : ℕ) (fs : List Failure) (next : ℕ) (s : LiveStream)
    → IsWaiting next s
    → IsConnected (run (attempts next fs jitter) s)
unfolding run
recovers jitter [] next s h =
    opened-IsConnected next (step (timer_fired false jitter) s) (timer-IsDialing jitter next s h)
recovers jitter (refused i ∷ fs) next s h =
    recovers jitter fs next (step (timer_fired true i) s) (refused-IsWaiting i next s h)
recovers jitter (lost i later ∷ fs) next s h =
    recovers jitter fs (suc next) (step (socket_closed next later) (step (timer_fired false i) s))
      (lost-IsWaiting i later next s h)

-- While a retry is pending, each attempt that fails sets the next, so that after any number of
-- failures, refused by the socket factory or lost before they open, an attempt that succeeds leaves the
-- client connected, with a fresh backoff, subscribed again and its listeners told.
pub retries_reconnect :
    (fs : List Failure) (jitter : ℕ) (s : LiveStream)
    → s.stopped ≡ false
    → s.timer ≢ none
    → IsConnected (run (attempts s.next_socket fs jitter) s)
retries_reconnect fs jitter s running pending =
    recovers jitter fs s.next_socket s (running, pending, refl)
