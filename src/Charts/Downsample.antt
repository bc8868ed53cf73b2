-- ===== src/Charts/Downsample.antt =====
-- downsampleSegment of telemetry-series.ts. `a < b` on the values is a parameter. A point is the same
-- object as another if it has the same index. The size of a bucket and its multiples are floating-point
-- numbers, rounded as IEEE 754 rounds them.
mod Pieces
mod Ends
mod Reach
pub mod Spikes
mod Tests
use classg.Prelude.{
  ℕ, zero, suc, ◌+◌, ◌-◌, ◌*◌, ◌/◌, ◌%◌, ◌^◌, ◌==◌, Bool, false, Option, some, List, [], ◌∷◌, ◌++◌,
  ◌||◌, ◌&&◌, if◌then◌else◌, ltb, leb, min, max, length, take, drop,
}
use classg.Charts.Segments.{TelemetryPoint}

-- `lo.t <= hi.t`
abbrev pub no_later : Option ℕ → Option ℕ → Bool
no_later (some a) (some b) = leb a b
no_later _ _ = false

-- The whole number next to `x / d`, the even one of two as near.
abbrev pub rounded : ℕ → ℕ → ℕ
rounded x d =
    if ltb d (2 * (x % d)) || (2 * (x % d) == d && (x / d) % 2 == 1) then suc (x / d) else x / d

abbrev pub floor_log2 : ℕ → ℕ → ℕ
floor_log2 zero n = 0
floor_log2 (suc fuel) n = let rest = floor_log2 fuel (n / 2) in if ltb n 2 then 0 else suc rest

-- A double of 1 or more: its 53 bits, and how many of them are behind the binary point.
pub record Double : Type 0 where
  pub bits : ℕ
  pub places : ℕ

-- `points.length / bucketCount`, which is below 2^53.
pub bucket_size : ℕ → ℕ → Double
bucket_size n count =
    let places = 52 - floor_log2 53 (n / count) in
    record { bits = rounded (n * 2 ^ places) count; places = places }

-- `Math.floor(b * size)`: the product is rounded to 53 bits first.
pub floor_times : ℕ → Double → ℕ
floor_times b size =
    let unit = 2 ^ (floor_log2 106 (b * size.bits) - 52) in
    (rounded (b * size.bits) unit * unit) / 2 ^ size.places

abbrev pub bucket_start : ℕ → ℕ → ℕ → ℕ
bucket_start n count b = floor_times b (bucket_size n count)

abbrev pub bucket_end : ℕ → ℕ → ℕ → ℕ
bucket_end n count b = min n (max (suc (bucket_start n count b)) (bucket_start n count (suc b)))

module _ {V : Type 0} (less : V → V → Bool) where
  pub record Extremes : Type 0 where
    pub lo_at : ℕ
    pub lo : TelemetryPoint V
    pub hi_at : ℕ
    pub hi : TelemetryPoint V

  -- The point of index `i` replaces what it is beyond.
  abbrev pub extend : Extremes → ℕ → TelemetryPoint V → Extremes
  extend e i p = record {
    lo_at = if less p.v e.lo.v then i else e.lo_at;
    lo = if less p.v e.lo.v then p else e.lo;
    hi_at = if less e.hi.v p.v then i else e.hi_at;
    hi = if less e.hi.v p.v then p else e.hi;
  }

  abbrev pub extremes_from : Extremes → ℕ → List (TelemetryPoint V) → Extremes
  extremes_from e i [] = e
  extremes_from e i (p ∷ ps) = extremes_from (extend e i p) (suc i) ps

  abbrev pub in_time : Extremes → List (TelemetryPoint V)
  in_time e =
      if leb e.lo_at e.hi_at && leb e.hi_at e.lo_at
      then e.lo ∷ []
      else if no_later e.lo.t e.hi.t
      then e.lo ∷ e.hi ∷ []
      else e.hi ∷ e.lo ∷ []

  abbrev pub of_bucket : ℕ → List (TelemetryPoint V) → List (TelemetryPoint V)
  of_bucket i [] = []
  of_bucket i (p ∷ ps) =
      in_time (extremes_from (record { lo_at = i; lo = p; hi_at = i; hi = p }) (suc i) ps)

  abbrev pub bucket : List (TelemetryPoint V) → ℕ → ℕ → List (TelemetryPoint V)
  bucket points count b =
      let start = bucket_start (length points) count b in
      take (bucket_end (length points) count b - start) (drop start points)

  -- The buckets from `b` on, `r` of them.
  abbrev pub buckets_from : List (TelemetryPoint V) → ℕ → ℕ → ℕ → List (TelemetryPoint V)
  buckets_from points count b zero = []
  buckets_from points count b (suc r) =
      of_bucket (bucket_start (length points) count b) (bucket points count b)
      ++ buckets_from points count (suc b) r

  pub downsample_segment : List (TelemetryPoint V) → ℕ → List (TelemetryPoint V)
  downsample_segment points max_points =
      if leb (length points) max_points || ltb max_points 4
      then points
      else buckets_from points (max_points / 2) 0 (max_points / 2)
