-- ===== src/Logs/Store/Tests.antt =====
-- Runs of log-store.ts, and its theorems at states that meet their hypotheses.
use classg.Prelude.{ℕ, zero, suc, ◌+◌, ◌≡◌, refl, none, List, [], ◌∷◌, ◌++◌, map, length}
use classg.Logs.Store.{
  LogLevel, LogSource, LogInput, LogStore, text, suppressed, new_log_store, emit, set_limit, push,
  count_debug, append_debug, append, clear, flush, Event, appended, cleared, timer_fired, step, run,
}
use classg.Logs.Store.Invariant.{Inv}
use classg.Logs.Store.Bounds.{run_from_new-Inv, timer_keeps_or_counts}
use classg.Logs.Store.Throttle.{debug_logged, debug_suppressed, burst_is_capped}

abbrev line : LogLevel → LogInput
line level = record {
  at = none;
  level = level;
  source = LogSource.stream;
  message = text "seen";
  detail = none;
  track_id = none;
}

abbrev logged : ℕ → LogLevel → Event
logged now level = appended now "2026-01-01T00:00:00Z" (line level)

abbrev repeat : ℕ → Event → List Event
repeat zero e = []
repeat (suc n) e = e ∷ repeat n e

calls : Unit {0}
unfolding run step append append_debug count_debug push flush emit clear set_limit
calls = tt

-- Fourteen debug entries in one window, then a warning: the gap is said before it.
abbrev burst : List Event
burst = logged 5000 LogLevel.debug ∷ repeat 13 (logged 5200 LogLevel.debug)

burst_then_warning :
    (length (run (burst ++ logged 5300 LogLevel.warn ∷ timer_fired ∷ []) new_log_store).entries
      ≡ 14)
    × ((run (burst ++ logged 5300 LogLevel.warn ∷ timer_fired ∷ []) new_log_store).suppressed_debug
        ≡ 0)
    × (map (λ e. e.message) (run (logged 5300 LogLevel.warn ∷ []) (run burst new_log_store)).pending
        ≡ map (λ e. e.message) (run burst new_log_store).pending
          ++ (suppressed 2 ∷ text "seen" ∷ []))
unfolding calls
burst_then_warning = (refl, refl, refl)

run_from_new-Inv_example : Inv 3 (
    run
      (logged 0 LogLevel.info ∷ logged 1 LogLevel.warn ∷ cleared ∷ logged 2 LogLevel.info ∷ [])
      new_log_store)
unfolding calls
run_from_new-Inv_example =
    run_from_new-Inv
      (logged 0 LogLevel.info ∷ logged 1 LogLevel.warn ∷ cleared ∷ logged 2 LogLevel.info ∷ [])

abbrev two_pending : LogStore
two_pending = run (logged 0 LogLevel.info ∷ logged 1 LogLevel.warn ∷ []) new_log_store

timer_keeps_or_counts_example :
    ((step timer_fired two_pending).pending ≡ [])
    × ((step timer_fired two_pending).next_id ≡ 3)
    × (length (step timer_fired two_pending).entries + (step timer_fired two_pending).dropped ≡ 2)
unfolding calls
timer_keeps_or_counts_example =
    timer_keeps_or_counts 1 two_pending
      (run_from_new-Inv (logged 0 LogLevel.info ∷ logged 1 LogLevel.warn ∷ []))

-- Eleven debug entries in the window; of three more, with a warning and the timer between, one is
-- logged.
abbrev in_burst : LogStore
in_burst = run (logged 5000 LogLevel.debug ∷ repeat 10 (logged 5200 LogLevel.debug)) new_log_store

abbrev mixed : List Event
mixed =
    logged 5300 LogLevel.debug
    ∷ timer_fired
    ∷ logged 5400 LogLevel.debug
    ∷ logged 9000 LogLevel.warn
    ∷ logged 5500 LogLevel.debug
    ∷ []

burst_is_capped_example :
    (debug_logged mixed in_burst ≡ 1)
    × (debug_logged mixed in_burst + debug_suppressed mixed in_burst ≡ 3)
unfolding calls
burst_is_capped_example = burst_is_capped mixed in_burst (refl, (tt, (refl, (refl, (refl, tt)))))
