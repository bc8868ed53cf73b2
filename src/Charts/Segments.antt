-- ===== src/Charts/Segments.antt =====
-- splitSegments and sampleCadenceMs of telemetry-series.ts, and traceSegments of trace-series.ts.
-- `Date.parse` is a parameter, `none` where it answers NaN, as is the reading that is picked; a value
-- is of any type, since it is only moved. The two sources have the same loop, `split`: the trace has
-- no time that can jump.
pub mod Splitting
mod Tests
use classg.Prelude.{
  ℕ, suc, ◌+◌, ◌-◌, ◌*◌, ◌/◌, String, Bool, false, Option, none, some, List, [], ◌∷◌, ◌++◌,
  if◌then◌else◌, ltb, leb, length, get_elem?, sort_by,
}
use classg.Api.{TelemetrySample, SpectrumTrace}

-- `current[current.length - 1]`
abbrev pub last {ℓ} : {A : Type ℓ} → List A → Option A
last [] = none
last (x ∷ []) = some x
last (x ∷ y ∷ xs) = last (y ∷ xs)

-- `if (current.length > 0) segments.push(current)`
abbrev pub pushed {ℓ} : {A : Type ℓ} → List (List A) → List A → List (List A)
pushed segments [] = segments
pushed segments (x ∷ xs) = segments ++ (x ∷ xs) ∷ []

module _ {A : Type 0} (jumps : A → A → Bool) where
  -- `last && t - last.t > gapThreshold`
  abbrev pub breaks : Option A → A → Bool
  breaks none x = false
  breaks (some last) x = jumps last x

  -- The loop over the readings, `none` for a null: the segments so far and the one that grows.
  abbrev pub split_from : List (List A) → List A → List (Option A) → List (List A)
  split_from segments current [] = pushed segments current
  split_from segments current (none ∷ rs) = split_from (pushed segments current) [] rs
  split_from segments current (some x ∷ rs) =
      if breaks (last current) x
      then split_from (segments ++ current ∷ []) (x ∷ []) rs
      else split_from segments (current ++ x ∷ []) rs

  pub split : List (Option A) → List (List A)
  split rs = split_from [] [] rs

abbrev nominal_cadence_ms : ℕ
nominal_cadence_ms = 60_000

pub record TelemetryPoint (V : Type 0) : Type 0 where
  pub t : Option ℕ
  pub v : V

abbrev pub delta : Option ℕ → Option ℕ → List ℕ
delta (some prev) (some curr) = if ltb prev curr then (curr - prev) ∷ [] else []
delta _ _ = []

abbrev pub median : List ℕ → ℕ
median deltas = elim (get_elem? deltas (length deltas / 2)) [
  | none ↦ nominal_cadence_ms
  | some d ↦ d
]

-- `t - last.t > cadence * 2.5`
abbrev pub jumps_by : {V : Type 0} → ℕ → TelemetryPoint V → TelemetryPoint V → Bool
jumps_by cadence last x = elim (last.t) [
  | none ↦ false
  | some from ↦ elim (x.t) [ none ↦ false | some to ↦ ltb (5 * cadence) (2 * (to - from)) ]
]

module _ (parse : String → Option ℕ) where
  abbrev pub deltas : List TelemetrySample → List ℕ
  deltas [] = []
  deltas (prev ∷ []) = []
  deltas (prev ∷ curr ∷ ss) = delta (parse prev.ts) (parse curr.ts) ++ deltas (curr ∷ ss)

  pub sample_cadence_ms : List TelemetrySample → ℕ
  sample_cadence_ms samples = median (sort_by leb (deltas samples))

  module _ {V : Type 0} (pick : TelemetrySample → Option V) where
    abbrev pub reading : TelemetrySample → Option (TelemetryPoint V)
    reading s = elim (pick s) [ none ↦ none | some v ↦ some (record { t = parse s.ts; v = v }) ]

    abbrev pub readings : List TelemetrySample → List (Option (TelemetryPoint V))
    readings [] = []
    readings (s ∷ ss) = reading s ∷ readings ss

    pub split_segments : List TelemetrySample → List (List (TelemetryPoint V))
    split_segments samples = split (jumps_by (sample_cadence_ms samples)) (readings samples)

pub record TracePoint : Type 0 where
  pub hz : ℕ
  pub db : String

-- The centre of a cell, in half units of the width of a bin.
abbrev pub cell_hz : SpectrumTrace → ℕ → ℕ
cell_hz trace index = 2 * trace.start_hz + (2 * index + 1) * trace.bin_width_hz

abbrev pub cells : SpectrumTrace → ℕ → List (Option String) → List (Option TracePoint)
cells trace index [] = []
cells trace index (none ∷ ds) = none ∷ cells trace (suc index) ds
cells trace index (some db ∷ ds) =
    some (record { hz = cell_hz trace index; db = db }) ∷ cells trace (suc index) ds

pub trace_segments : Option SpectrumTrace → List (List TracePoint)
trace_segments none = []
trace_segments (some trace) = split (λ _ _. false) (cells trace 0 trace.dbfs)
