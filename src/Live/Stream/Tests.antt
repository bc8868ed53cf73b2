-- ===== src/Live/Stream/Tests.antt =====
-- Runs of live.ts, and its theorems at states that meet their hypotheses.
use classg.Prelude.{ℕ, ◌^◌, ◌≡◌, ◌≢◌, refl, arith, true, false, some, none, List, [], ◌∷◌}
use classg.Api.{ping}
use classg.Live.Stream.{
  ConnectionState, ReadyState, LiveStream, subscribe, pong, state_changed, connected, sent, ceiling,
  delay_for, set_state, schedule_reconnect, open_socket, send, connect, abandon, close, resume,
  on_open, on_message, on_close, on_timer, new_stream, default_base_delay_ms, default_max_delay_ms,
  frame, Event, resumes, socket_opened, socket_closing, socket_message, socket_closed, timer_fired,
  step, run,
}
use classg.Live.Stream.Invariant.{Inv}
use classg.Live.Stream.Orderly.{connected_run-Inv}
use classg.Live.Stream.Recovery.{refused, lost, attempts, IsConnected, retries_reconnect}
use classg.Live.Stream.Closing.{close_is_final, resume_while_closing}

calls : Unit {0}
unfolding run step connect resume close send on_open on_message on_close on_timer open_socket
    schedule_reconnect set_state abandon delay_for ceiling
calls = tt

abbrev fresh : LiveStream
fresh = new_stream default_base_delay_ms default_max_delay_ms

abbrev half : ℕ
half = 2 ^ 52

-- The socket opens, is pinged, and is lost; the retry is due after half of 500 ms.
abbrev script : List Event
script =
    socket_opened 0 ∷ socket_message 0 (frame ping) ∷ socket_closing 0 ∷ socket_closed 0 half ∷ []

after_loss :
    ((run script (connect false 0 fresh)).timer ≡ some 250)
    × ((run script (connect false 0 fresh)).outputs
        ≡ state_changed ConnectionState.connecting
          ∷ state_changed ConnectionState.opened
          ∷ sent 0 subscribe
          ∷ connected false
          ∷ sent 0 pong
          ∷ state_changed ConnectionState.reconnecting
          ∷ [])
unfolding calls
after_loss = (refl, refl)

connected_run-Inv_example : Inv (run script (connect false 0 fresh))
connected_run-Inv_example = connected_run-Inv 500 30000 false 0 script (tt, (tt, (tt, (tt, tt))))

abbrev waiting : LiveStream
waiting = run script (connect false 0 fresh)

close_is_final_example :
    ((run (timer_fired false 0 ∷ resumes false 0 ∷ []) (close waiting)).outputs
      ≡ (close waiting).outputs)
    × ((run (timer_fired false 0 ∷ resumes false 0 ∷ []) (close waiting)).socket ≡ none)
    × ((run (timer_fired false 0 ∷ resumes false 0 ∷ []) (close waiting)).timer ≡ none)
    × ((run (timer_fired false 0 ∷ resumes false 0 ∷ []) (close waiting)).state
        ≡ ConnectionState.closed)
close_is_final_example =
    close_is_final waiting (timer_fired false 0 ∷ resumes false 0 ∷ []) connected_run-Inv_example
      (tt, (tt, tt))

abbrev closing_down : LiveStream
closing_down = run (socket_opened 0 ∷ socket_closing 0 ∷ []) (connect false 0 fresh)

resume_while_closing_example :
    ((step (socket_closed 0 half) (resume false 0 closing_down)).socket ≡ none)
    × ((step (socket_closed 0 half) (resume false 0 closing_down)).timer ≢ none)
    × ((step (socket_closed 0 half) (resume false 0 closing_down)).attached 1 ≡ true)
    × ((step (socket_closed 0 half) (resume false 0 closing_down)).ready 1 ≡ ReadyState.connecting)
unfolding calls
resume_while_closing_example =
    resume_while_closing closing_down 0 0 half refl refl refl refl
      (λ (h : ◌≡◌ {A = ℕ} 0 1). absurd (omega arith))

-- Two attempts are refused and one is lost before the next succeeds.
retries_reconnect_example :
    IsConnected
      (run (attempts waiting.next_socket (refused 0 ∷ lost 0 half ∷ refused half ∷ []) 0) waiting)
unfolding calls
retries_reconnect_example =
    retries_reconnect (refused 0 ∷ lost 0 half ∷ refused half ∷ []) 0 waiting refl
      (λ h. ground arith)
