-- ===== src/Timeline/Lanes/Tests.antt =====
-- Two overlapping flights and one later in a window of lanes.ts, and its theorems there.
use classg.Prelude.{
  ℕ, ◌*◌, ◌≤◌, ◌≡◌, refl, arith, String, true, Option, none, some, List, [], ◌∷◌, map, any, filter,
  All, ◌==◌, sort_by, if◌then◌else◌, str_eq,
}
use mathlib.Core.List.{Perm}
use classg.Api.{Track, TrackState}
use classg.Timeline.Lanes.{
  TimelineWindow, timed, ordered, place, pack_lanes, lane_count, in_window, tick_step, ticks_from,
  ticks,
}
use classg.Timeline.Lanes.NoOverlap.{NoClash, pack_lanes-NoClash}
use classg.Timeline.Lanes.Ticks.{IsInside, ticks_are_multiples}

abbrev parse : String → Option ℕ
parse t =
    if str_eq t "a"
    then some 100000
    else if str_eq t "b"
    then some 150000
    else if str_eq t "c"
    then some 400000
    else none

abbrev flight : String → String → String → Track
flight id first last = record {
  track_id = id;
  state = TrackState.closed;
  first_seen = first;
  last_seen = last;
  detection_count = 1;
  identity = none;
  confidence = 700;
  evidence = none;
  current = none;
  history = none;
  operator = none;
  adsb_correlated = none;
}

abbrev flights : List Track
flights = flight "T2" "b" "b" ∷ flight "T1" "a" "b" ∷ flight "T3" "c" "c" ∷ flight "T4" "c" "?" ∷ []

abbrev window : TimelineWindow
window = record { start_ms = 60000; end_ms = 420000 }

calls : Unit {0}
unfolding pack_lanes ordered timed place sort_by lane_count ticks tick_step ticks_from
calls = tt

packed :
    (map (λ e. e.lane) (pack_lanes parse flights window 60000) ≡ 0 ∷ 1 ∷ 0 ∷ [])
    × (lane_count (pack_lanes parse flights window 60000) ≡ 2)
    × (ticks window 6 ≡ 60000 ∷ 120000 ∷ 180000 ∷ 240000 ∷ 300000 ∷ 360000 ∷ [])
unfolding calls
packed = (refl, refl, refl)

pack_lanes-NoClash_example :
    NoClash 60000 (pack_lanes parse flights window 60000)
    × All
        (λ e. (60000 ≤ e.from_ms) × (e.from_ms ≤ e.to_ms) × (e.to_ms ≤ 420000))
        (pack_lanes parse flights window 60000)
    × Perm
        (map (λ e. e.track) (pack_lanes parse flights window 60000))
        (map (λ t. t.track) (filter (in_window window) (timed parse flights)))
pack_lanes-NoClash_example = pack_lanes-NoClash parse flights window 60000 (omega arith)

ticks_are_multiples_example :
    All (IsInside window (tick_step 360000 6)) (ticks window 6)
    × (any (λ t. t == 3 * tick_step 360000 6) (ticks window 6) ≡ true)
    × (60000 ≤ tick_step 360000 6)
unfolding calls
ticks_are_multiples_example = ticks_are_multiples window 6 3
