-- ===== src/Tracks/Speed.antt =====
-- services/ui/src/features/tracks/flight-speed.ts: the speed at each point of a path, and its
-- segments. `Date.parse` is a parameter, `none` where it answers NaN. An interpolated speed is kept
-- as its two ends and the weight between them. No speed is below 0 here, so that the test for one is
-- left out.
pub mod Filling
pub mod Honest
mod Tests
use classg.Prelude.{
  ℕ, zero, suc, ◌-◌, String, Bool, false, Option, none, some, List, [], ◌∷◌, ◌||◌, map,
  if◌then◌else◌, ltb, get_elem?, set,
}
use classg.Api.{Position}
use classg.Tracks.Playback.{trail_gap_ms, point_ms}

-- The share of the way: so many points of so many, or an instant between two.
pub data Weight : Type 0 where
  of_points : (i n : ℕ) → Weight
  of_time : (ms start end : ℕ) → Weight

pub data Speed : Type 0 where
  reported : ℕ → Speed
  blend : (from to : Speed) → Weight → Speed

abbrev pub report : Option ℕ → Option Speed
report none = none
report (some v) = some (reported v)

abbrev pub later_by : Option ℕ → Option ℕ → Bool
later_by none b = false
later_by (some a) none = false
later_by (some a) (some b) = ltb trail_gap_ms (b - a)

abbrev pub weight_of : (i n : ℕ) → Option ℕ → Option ℕ → Option ℕ → Weight
weight_of i n (some start) (some end) (some ms) =
    if ltb start end then of_time ms start end else of_points i n
weight_of i n _ _ _ = of_points i n

-- A segment's mean of its two ends, or the end that is known.
pub data MeanSpeed : Type 0 where
  mean : Speed → Speed → MeanSpeed
  one_end : Speed → MeanSpeed

pub data MidTime : Type 0 where
  midway : ℕ → ℕ → MidTime
  at_end : ℕ → MidTime

pub record PathSegment : Type 0 where
  pub from : Position
  pub to : Position
  pub speed_mps : Option MeanSpeed
  pub mid_ms : Option MidTime
  pub gap : Bool

abbrev pub mean_of : Option Speed → Option Speed → Option MeanSpeed
mean_of none none = none
mean_of (some a) none = some (one_end a)
mean_of none (some b) = some (one_end b)
mean_of (some a) (some b) = some (mean a b)

abbrev pub mid_of : Option ℕ → Option ℕ → Option MidTime
mid_of none none = none
mid_of (some a) none = some (at_end a)
mid_of none (some b) = some (at_end b)
mid_of (some a) (some b) = some (midway a b)

-- `speeds[i] ?? null`
abbrev pub flat : Option (Option Speed) → Option Speed
flat none = none
flat (some o) = o

module _ (parse : String → Option ℕ) where
  abbrev pub is_gap : Position → Position → Bool
  is_gap from to = later_by (point_ms parse from) (point_ms parse to)

  abbrev pub gap_between : Option Position → Option Position → Bool
  gap_between none to = false
  gap_between (some from) none = false
  gap_between (some from) (some to) = is_gap from to

  -- A gap among the `n` steps from index `i`.
  abbrev pub gap_in : List Position → ℕ → ℕ → Bool
  gap_in path i zero = false
  gap_in path i (suc n) =
      gap_between (get_elem? path i) (get_elem? path (suc i)) || gap_in path (suc i) n

  abbrev pub ms_at : Option Position → Option ℕ
  ms_at none = none
  ms_at (some p) = point_ms parse p

  -- The writes from index `i`, `n` of them.
  abbrev pub fill :
      List Position → Speed → Speed → ℕ → ℕ → ℕ → ℕ → List (Option Speed) → List (Option Speed)
  fill path a b start end i zero out = out
  fill path a b start end i (suc n) out =
      let w =
        weight_of (i - start) (end - start) (ms_at (get_elem? path start))
          (ms_at (get_elem? path end)) (ms_at (get_elem? path i)) in
      fill path a b start end (suc i) n (set out i (some (blend a b w)))

  abbrev pub fill_values :
      List Position
      → ℕ
      → ℕ
      → Option (Option Speed)
      → Option (Option Speed)
      → List (Option Speed)
      → List (Option Speed)
  fill_values path start end (some (some a)) (some (some b)) out =
      fill path a b start end (suc start) (end - suc start) out
  fill_values path start end _ _ out = out

  pub fill_between : List Position → List (Option Speed) → ℕ → ℕ → List (Option Speed)
  fill_between path out start end =
      if gap_in path start (end - start)
      then out
      else fill_values path start end (get_elem? out start) (get_elem? out end) out

  abbrev pub fill_to : List Position → List (Option Speed) → Option ℕ → ℕ → List (Option Speed)
  fill_to path out none i = out
  fill_to path out (some previous) i =
      if ltb 1 (i - previous) then fill_between path out previous i else out

  -- The loop over what is reported from index `i` on; `previous` is the last known index, if any.
  abbrev pub speeds_from :
      List Position → List (Option Speed) → Option ℕ → ℕ → List (Option ℕ) → List (Option Speed)
  speeds_from path out previous i [] = out
  speeds_from path out previous i (none ∷ rs) = speeds_from path out previous (suc i) rs
  speeds_from path out previous i (some v ∷ rs) =
      speeds_from path (fill_to path out previous i) (some i) (suc i) rs

  pub point_speeds : List Position → List (Option Speed)
  point_speeds path =
      speeds_from path (map (λ p. report p.speed_mps) path) none 0 (map (λ p. p.speed_mps) path)

  abbrev pub segment : Position → Position → Option Speed → Option Speed → PathSegment
  segment p q a b = record {
    from = p;
    to = q;
    speed_mps = if is_gap p q then none else mean_of a b;
    mid_ms = mid_of (point_ms parse p) (point_ms parse q);
    gap = is_gap p q;
  }

  abbrev pub segments_from : List (Option Speed) → ℕ → List Position → List PathSegment
  segments_from speeds i [] = []
  segments_from speeds i (p ∷ []) = []
  segments_from speeds i (p ∷ q ∷ ps) =
      segment p q (flat (get_elem? speeds i)) (flat (get_elem? speeds (suc i)))
      ∷ segments_from speeds (suc i) (q ∷ ps)

  pub path_segments : List Position → List PathSegment
  path_segments path = segments_from (point_speeds path) 0 path
