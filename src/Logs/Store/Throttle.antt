-- ===== src/Logs/Store/Throttle.antt =====
-- The rate limit on debug entries of log-store.ts.
use classg.Prelude.{
  ℕ, suc, ◌+◌, ◌-◌, ◌≡◌, refl, arith, min, Bool, true, false, ◌||◌, List, [], ◌∷◌, if◌then◌else◌,
  not, ltb, leb, All, Bool-cases, inl, inr, count_if,
}
use classg.Logs.Store.{
  LogStore, is_debug, emit, push, count_debug, append_debug, append, set_limit, clear, flush, Event,
  appended, step, limited, cleared, timer_fired,
}

-- No debug entry arrives after the window that began at `start` is over. Other entries, the timer and
-- the other calls may come at any time.
abbrev pub IsInWindow : ℕ → Event → Type 0
IsInWindow start (appended now iso input) =
    (not (is_debug input.level) || leb now (start + 1000)) ≡ true
IsInWindow start _ = Unit

abbrev pub is_debug_entry : Event → Bool
is_debug_entry (appended now iso input) = is_debug input.level
is_debug_entry _ = false

-- The ids that debug entries are given, one for each that is logged, and what they add to the count of
-- those suppressed.
abbrev pub debug_logged : List Event → LogStore → ℕ
debug_logged [] s = 0
debug_logged (e ∷ es) s =
    (if is_debug_entry e then (step e s).next_id - s.next_id else 0) + debug_logged es (step e s)

abbrev pub debug_suppressed : List Event → LogStore → ℕ
debug_suppressed [] s = 0
debug_suppressed (e ∷ es) s =
    (if is_debug_entry e then (step e s).suppressed_debug - s.suppressed_debug else 0)
    + debug_suppressed es (step e s)

-- One event: what it does to the window, and what becomes of it if it is a debug entry.
abbrev InWindowStep : Event → LogStore → Type 0
InWindowStep e s =
    ((step e s).debug_window_start ≡ s.debug_window_start)
    × ((step e s).debug_window_count
        ≡ (if is_debug_entry e then suc s.debug_window_count else s.debug_window_count))
    × ((if is_debug_entry e then (step e s).next_id - s.next_id else 0)
        ≡ (if is_debug_entry e then if ltb s.debug_window_count 12 then 1 else 0 else 0))
    × ((if is_debug_entry e then (step e s).suppressed_debug - s.suppressed_debug else 0)
        ≡ (if is_debug_entry e then if ltb s.debug_window_count 12 then 0 else 1 else 0))

in_window : (e : Event) (s : LogStore) → IsInWindow s.debug_window_start e → InWindowStep e s
unfolding step append append_debug count_debug push set_limit clear flush emit
in_window (appended now iso input) s soon = elim (Bool-cases (is_debug input.level)) [
  | inl e ↦ (ground arith, ground arith, ground arith, ground arith)
  | inr e ↦ (ground arith, ground arith, ground arith, ground arith)
]
in_window (limited n) s h = (ground arith, ground arith, refl, refl)
in_window cleared s h = (refl, refl, refl, refl)
in_window timer_fired s h = (ground arith, ground arith, refl, refl)

-- While no debug entry arrives after its window is over: of the debug entries that arrive, so many are
-- logged as make 12 with those that the window has counted, and each other one adds one to the count of
-- the suppressed. Entries of other levels, the timer, a clear and a new limit may come between.
pub burst_is_capped :
    (es : List Event) (s : LogStore)
    → All (IsInWindow s.debug_window_start) es
    → (debug_logged es s ≡ min (count_if is_debug_entry es) (12 - s.debug_window_count))
      × (debug_logged es s + debug_suppressed es s ≡ count_if is_debug_entry es)
burst_is_capped [] s h = (omega arith, omega arith)
burst_is_capped (e ∷ es) s h =
    let (start, counted, kept, lost) = in_window e s h.0 in
    let (fewer, all_counted) = burst_is_capped es (step e s) (rw start (h.1)) in
    (ground arith, ground arith)
