-- ===== src/Tracks/Playback/Tests.antt =====
-- A flight of flight-playback.ts with a silence, and its theorems there.
use classg.Prelude.{
  ℕ, ◌-◌, ◌≡◌, ◌≢◌, refl, ◌↔◌, arith, String, true, false, Option, none, some, List, [], ◌∷◌,
  str_eq, if◌then◌else◌, sort_by, insert, count_if, get_elem?,
}
use classg.Api.{Position}
use classg.Tracks.Playback.{
  PlaybackFrame, Dated, exact, between, turn, frame_at, frame_at_dated, dated_points, playback_span,
  search,
}
use classg.Tracks.Playback.Frames.{Shows, frame_at_answers, frame_at-Shows}
use classg.Tracks.Playback.Scan.{has_come, frame_index_scans}

abbrev parse : String → Option ℕ
parse t =
    if str_eq t "a"
    then some 1_000
    else if str_eq t "b"
    then some 3_000
    else if str_eq t "c"
    then some 50_000
    else none

abbrev point : ℕ → String → Option ℕ → Position
point lat at h = record {
  lat = lat;
  lon = 7;
  track_deg = some 350;
  height_agl_m = h;
  speed_mps = none;
  at = some at;
}

-- The fixes arrive out of order, and one has no readable time.
abbrev path : List Position
path = point 30 "c" none ∷ point 99 "?" none ∷ point 10 "a" (some 40) ∷ point 20 "b" none ∷ []

abbrev leg_frame : PlaybackFrame
leg_frame = record {
  lat = between 10 20 500 2_000;
  lon = between 7 7 500 2_000;
  height_agl_m = some (exact 40);
  speed_mps = none;
  track_deg = some (turn 350 350 500 2_000);
  at_ms = 1_500;
  index = 0;
  heard = true;
}

abbrev silent_frame : PlaybackFrame
silent_frame = record {
  lat = exact 20;
  lon = exact 7;
  height_agl_m = none;
  speed_mps = none;
  track_deg = some (exact 350);
  at_ms = 20_000;
  index = 1;
  heard = false;
}

on_the_leg : frame_at parse path 1_500 ≡ some (some leg_frame)
unfolding frame_at frame_at_dated dated_points search sort_by insert
on_the_leg = refl

in_the_silence : frame_at parse path 20_000 ≡ some (some silent_frame)
unfolding frame_at frame_at_dated dated_points search sort_by insert
in_the_silence = refl

spans : playback_span parse path ≡ some (record { start_ms = 1_000; end_ms = 50_000 })
unfolding playback_span
spans = refl

frame_at_answers_example :
    (r : Option PlaybackFrame) × (frame_at parse path 1_500 ≡ some r)
    × ((r ≡ none) ↔ (dated_points parse path ≡ []))
frame_at_answers_example = frame_at_answers parse path 1_500

frame_at-Shows_example : Shows (dated_points parse path) 20_000 silent_frame
frame_at-Shows_example = frame_at-Shows parse path 20_000 silent_frame in_the_silence

not_at_start : (d : Dated) → get_elem? (dated_points parse path) 0 ≡ some d → d.ms ≢ 20_000
unfolding dated_points sort_by insert
not_at_start d h = ground arith

frame_index_scans_example :
    silent_frame.index ≡ count_if (has_come 20_000) (dated_points parse path) - 1
frame_index_scans_example =
    frame_index_scans parse path 20_000 silent_frame not_at_start in_the_silence
