-- ===== src/Timeline/Lanes.antt =====
-- services/ui/src/features/timeline/lanes.ts: `packLanes`, `laneCount` and `ticks`. Times are
-- milliseconds since the epoch; `Date.parse` is a parameter, `none` where it answers NaN.
pub mod NoOverlap
pub mod Ticks
mod Tests
use classg.Prelude.{
  ℕ, zero, suc, ◌+◌, ◌-◌, ◌*◌, ◌/◌, String, Bool, ◌&&◌, Option, none, some, List, [], ◌∷◌, ◌++◌,
  if◌then◌else◌, ltb, leb, ◌==◌, min, max, length, filter, find, find_index, set, sort_by,
  get_or_else,
}
use classg.Api.{Track}

pub record TimelineWindow : Type 0 where
  pub start_ms : ℕ
  pub end_ms : ℕ

pub record TimelineEvent : Type 0 where
  pub track : Track
  pub from_ms : ℕ
  pub to_ms : ℕ
  pub clipped_start : Bool
  pub clipped_end : Bool
  pub lane : ℕ

abbrev pub min_event_ms : ℕ
min_event_ms = 60000

-- A track with its two parsed times.
pub record Timed : Type 0 where
  pub track : Track
  pub first : ℕ
  pub last : ℕ

abbrev pub in_window : TimelineWindow → Timed → Bool
in_window w t = leb w.start_ms t.last && ltb t.first w.end_ms

-- `a.first - b.first || a.last - b.last`, at most 0
abbrev pub starts_first : Timed → Timed → Bool
starts_first a b = if a.first == b.first then leb a.last b.last else ltb a.first b.first

abbrev pub push_timed : Track → Option ℕ → Option ℕ → List Timed → List Timed
push_timed t none last ts = ts
push_timed t (some first) none ts = ts
push_timed t (some first) (some last) ts = record { track = t; first = first; last = last } ∷ ts

module _ (parse : String → Option ℕ) where
  -- The tracks whose two times are finite.
  pub timed : List Track → List Timed
  timed [] = []
  timed (t ∷ ts) = push_timed t (parse t.first_seen) (parse t.last_seen) (timed ts)

  pub ordered : List Track → TimelineWindow → List Timed
  unfolding timed
  ordered ts w = sort_by starts_first (filter (in_window w) (timed ts))

abbrev pub bar_start : TimelineWindow → Timed → ℕ
bar_start w t = max t.first w.start_ms

abbrev pub bar_end : TimelineWindow → Timed → ℕ
bar_end w t = min (max t.last (bar_start w t + min_event_ms)) w.end_ms

-- `laneEnds.findIndex((end) => end + gapMs <= fromMs)`
abbrev pub free_lane : ℕ → ℕ → List ℕ → Option ℕ
free_lane gap from ends = find_index (λ end. leb (end + gap) from) ends

-- The lane of a bar, and the ends of the lanes with the bar in it.
abbrev pub lane_of : Option ℕ → List ℕ → ℕ
lane_of o ends = get_or_else o (length ends)

abbrev pub take_lane : Option ℕ → ℕ → List ℕ → List ℕ
take_lane none to ends = ends ++ to ∷ []
take_lane (some lane) to ends = set ends lane to

abbrev pub event_of : TimelineWindow → Timed → ℕ → TimelineEvent
event_of w t lane = record {
  track = t.track;
  from_ms = bar_start w t;
  to_ms = bar_end w t;
  clipped_start = ltb t.first w.start_ms;
  clipped_end = ltb w.end_ms t.last;
  lane = lane;
}

-- The loop over the ordered tracks, with the ends of the lanes so far.
pub place : TimelineWindow → ℕ → List ℕ → List Timed → List TimelineEvent
place w gap ends [] = []
place w gap ends (t ∷ ts) =
    let free = free_lane gap (bar_start w t) ends in
    event_of w t (lane_of free ends) ∷ place w gap (take_lane free (bar_end w t) ends) ts

module _ (parse : String → Option ℕ) where
  pub pack_lanes : List Track → TimelineWindow → ℕ → List TimelineEvent
  pack_lanes ts w gap = place w gap [] (ordered parse ts w)

pub lane_count : List TimelineEvent → ℕ
lane_count [] = 0
lane_count (e ∷ es) = max (lane_count es) (e.lane + 1)

abbrev minute : ℕ
minute = 60000

abbrev coarsest : ℕ
coarsest = 7 * 24 * 60 * minute

abbrev candidates : List ℕ
candidates =
    minute
    ∷ 5 * minute
    ∷ 15 * minute
    ∷ 30 * minute
    ∷ 60 * minute
    ∷ 3 * 60 * minute
    ∷ 6 * 60 * minute
    ∷ 12 * 60 * minute
    ∷ 24 * 60 * minute
    ∷ coarsest
    ∷ []

-- `span / c <= target`
pub tick_step : ℕ → ℕ → ℕ
tick_step span target = get_or_else (find (λ c. leb span (target * c)) candidates) coarsest

-- The loop from `t` on; each round adds `step`, so `fuel` rounds are enough once `fuel` steps pass the end.
pub ticks_from : ℕ → ℕ → ℕ → ℕ → List ℕ
ticks_from zero t step end = []
ticks_from (suc fuel) t step end =
    let rest = ticks_from fuel (t + step) step end in if ltb t end then t ∷ rest else []

-- `Math.ceil(t / step) * step`
abbrev pub round_up : ℕ → ℕ → ℕ
round_up t step = (t + step - 1) / step * step

pub ticks : TimelineWindow → ℕ → List ℕ
ticks w target =
    let span = w.end_ms - w.start_ms in
    let step = tick_step span target in
    if leb w.end_ms w.start_ms
    then []
    else ticks_from (suc span) (round_up w.start_ms step) step w.end_ms
