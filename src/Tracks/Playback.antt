-- ===== src/Tracks/Playback.antt =====
-- services/ui/src/features/tracks/flight-playback.ts: where an aircraft was at an instant of a
-- recorded flight. `Date.parse` is a parameter, `none` where it answers NaN. An interpolated value
-- is kept as its two ends and the fraction between them, which is what `lerp` and `lerpDegrees`
-- compute. The index that `datedCache` remembers per path is computed each time.
pub mod Search
pub mod Frames
pub mod Scan
mod Tests
use classg.Prelude.{
  ℕ, zero, suc, ◌+◌, ◌-◌, ◌/◌, String, Bool, true, false, Option, none, some, List, [], ◌∷◌,
  if◌then◌else◌, ltb, leb, min, max, length, get_elem?, sort_by, truthy, get_or_else,
}
use classg.Api.{Position}

-- TRAIL_GAP_MS of features/map/geo.ts, in milliseconds.
abbrev pub trail_gap_ms : ℕ
trail_gap_ms = 30_000

pub record PlaybackSpan : Type 0 where
  pub start_ms : ℕ
  pub end_ms : ℕ

pub record Dated : Type 0 where
  pub position : Position
  pub ms : ℕ

abbrev pub date_position : Position → Option ℕ → List Dated → List Dated
date_position p none ds = ds
date_position p (some ms) ds = record { position = p; ms = ms } ∷ ds

-- `from + (to - from) * num / den`; a turn goes the shorter way round the circle.
pub data Reading : Type 0 where
  exact : ℕ → Reading
  between turn : (from to num den : ℕ) → Reading

pub record PlaybackFrame : Type 0 where
  pub lat : Reading
  pub lon : Reading
  pub height_agl_m : Option Reading
  pub speed_mps : Option Reading
  pub track_deg : Option Reading
  pub at_ms : ℕ
  pub index : ℕ
  pub heard : Bool

abbrev pub exactly : Option ℕ → Option Reading
exactly none = none
exactly (some v) = some (exact v)

-- `optionalLerp`: where one end only has a value, that value is held.
abbrev pub optional_lerp : Option ℕ → Option ℕ → ℕ → ℕ → Option Reading
optional_lerp (some a) (some b) num den = some (between a b num den)
optional_lerp (some a) none num den = some (exact a)
optional_lerp none b num den = exactly b

abbrev pub optional_turn : Option ℕ → Option ℕ → ℕ → ℕ → Option Reading
optional_turn (some a) (some b) num den = some (turn a b num den)
optional_turn (some a) none num den = some (exact a)
optional_turn none b num den = exactly b

abbrev pub frame_of : Position → ℕ → ℕ → Bool → PlaybackFrame
frame_of p at index heard = record {
  lat = exact p.lat;
  lon = exact p.lon;
  height_agl_m = exactly p.height_agl_m;
  speed_mps = exactly p.speed_mps;
  track_deg = exactly p.track_deg;
  at_ms = at;
  index = index;
  heard = heard;
}

-- The frame between two consecutive points, `num / den` of the way from the one to the other.
abbrev pub blend : Position → Position → ℕ → ℕ → ℕ → ℕ → PlaybackFrame
blend p q at index num den = record {
  lat = between p.lat q.lat num den;
  lon = between p.lon q.lon num den;
  height_agl_m = optional_lerp p.height_agl_m q.height_agl_m num den;
  speed_mps = optional_lerp p.speed_mps q.speed_mps num den;
  track_deg = optional_turn p.track_deg q.track_deg num den;
  at_ms = at;
  index = index;
  heard = true;
}

abbrev pub frame_between : Dated → Dated → ℕ → ℕ → PlaybackFrame
frame_between d e at lo =
    if ltb trail_gap_ms (e.ms - d.ms)
    then frame_of d.position at lo false
    else if ltb 0 (e.ms - d.ms)
    then blend d.position e.position at lo (at - d.ms) (e.ms - d.ms)
    else blend d.position e.position at lo 0 1

-- The loop of the binary search on at most so many rounds, `none` where they do not suffice. An
-- entry that is missing ends it.
pub search : List Dated → ℕ → ℕ → ℕ → ℕ → Option (ℕ × ℕ)
search ds at zero lo hi = if leb (hi - lo) 1 then some (lo, hi) else none
search ds at (suc rounds) lo hi =
    let upper = search ds at rounds ((lo + hi) / 2) hi in
    let lower = search ds at rounds lo ((lo + hi) / 2) in
    if leb (hi - lo) 1 then some (lo, hi) else elim (get_elem? ds ((lo + hi) / 2)) [
      | none ↦ some (lo, hi)
      | some entry ↦ if leb entry.ms at then upper else lower
    ]

abbrev pub frame_at_pair : Option Dated → Option Dated → ℕ → ℕ → Option PlaybackFrame
frame_at_pair none e at lo = none
frame_at_pair (some d) none at lo = none
frame_at_pair (some d) (some e) at lo = some (frame_between d e at lo)

-- The frame from the two indices that the search ends with.
abbrev pub frame_at_found : List Dated → ℕ → Option (ℕ × ℕ) → Option (Option PlaybackFrame)
frame_at_found ds at none = none
frame_at_found ds at (some (lo, hi)) =
    some (frame_at_pair (get_elem? ds lo) (get_elem? ds hi) at lo)

abbrev pub frame_from_ends :
    List Dated → Option Dated → Option Dated → ℕ → Option (Option PlaybackFrame)
frame_from_ends ds none last at = some none
frame_from_ends ds (some first) none at = some none
frame_from_ends ds (some first) (some last) at =
    if leb at first.ms
    then some (some (frame_of first.position first.ms 0 true))
    else if leb last.ms at
    then some (some (frame_of last.position last.ms (length ds - 1) true))
    else frame_at_found ds at (search ds at (length ds) 0 (length ds - 1))

-- `frameAt` on the dated points: the outer `none` stands for a loop that has not ended.
pub frame_at_dated : List Dated → ℕ → Option (Option PlaybackFrame)
frame_at_dated ds at = frame_from_ends ds (get_elem? ds 0) (get_elem? ds (length ds - 1)) at

abbrev pub dated_first : Dated → Dated → Bool
dated_first d e = leb d.ms e.ms

abbrev pub widen : Option PlaybackSpan → Option ℕ → Option PlaybackSpan
widen span none = span
widen none (some ms) = some (record { start_ms = ms; end_ms = ms })
widen (some s) (some ms) = some (record { start_ms = min s.start_ms ms; end_ms = max s.end_ms ms })

module _ (parse : String → Option ℕ) where
  abbrev pub point_ms : Position → Option ℕ
  point_ms p = if truthy p.at then parse (get_or_else p.at "") else none

  abbrev pub span_from : Option PlaybackSpan → List Position → Option PlaybackSpan
  span_from span [] = span
  span_from span (p ∷ ps) = span_from (widen span (point_ms p)) ps

  pub playback_span : List Position → Option PlaybackSpan
  playback_span path = span_from none path

  abbrev pub dated : List Position → List Dated
  dated [] = []
  dated (p ∷ ps) = date_position p (point_ms p) (dated ps)

  pub dated_points : List Position → List Dated
  dated_points path = sort_by dated_first (dated path)

  pub frame_at : List Position → ℕ → Option (Option PlaybackFrame)
  unfolding frame_at_dated dated_points
  frame_at path at = frame_at_dated (dated_points path) at
