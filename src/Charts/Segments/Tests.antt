-- ===== src/Charts/Segments/Tests.antt =====
-- A few samples of telemetry-series.ts, one of them unread and one after an outage, a trace of
-- trace-series.ts with a notch, and the theorem on the samples.
use classg.Prelude.{
  ℕ, ◌≡◌, refl, String, Option, none, some, List, [], ◌∷◌, str_eq, if◌then◌else◌, sort_by, insert,
}
use classg.Api.{TelemetrySample, SpectrumTrace}
use classg.Charts.Segments.{
  TelemetryPoint, TracePoint, split, jumps_by, sample_cadence_ms, readings, split_segments,
  trace_segments,
}
use classg.Charts.Segments.Splitting.{IsSplit, split_segments-IsSplit}

abbrev parse : String → Option ℕ
parse t =
    if str_eq t "a"
    then some 60_000
    else if str_eq t "b"
    then some 120_000
    else if str_eq t "c"
    then some 180_000
    else if str_eq t "d"
    then some 240_000
    else if str_eq t "e"
    then some 9_000_000
    else none

abbrev sample : String → Option ℕ → TelemetrySample
sample ts load = record {
  ts = ts;
  load1 = load;
  mem_available_kb = none;
  disk_free_bytes = none;
  uptime_s = none;
}

abbrev samples : List TelemetrySample
samples =
    sample "a" (some 1)
    ∷ sample "b" (some 2)
    ∷ sample "c" none
    ∷ sample "d" (some 3)
    ∷ sample "e" (some 4)
    ∷ []

abbrev point : ℕ → ℕ → TelemetryPoint ℕ
point t v = record { t = some t; v = v }

cadence : sample_cadence_ms parse samples ≡ 60_000
unfolding sample_cadence_ms sort_by insert
cadence = refl

load_segments :
    split_segments parse (λ s. s.load1) samples
    ≡ (point 60_000 1 ∷ point 120_000 2 ∷ [])
      ∷ (point 240_000 3 ∷ [])
      ∷ (point 9_000_000 4 ∷ [])
      ∷ []
unfolding split_segments split sample_cadence_ms sort_by insert
load_segments = refl

abbrev trace : SpectrumTrace
trace = record {
  start_hz = 1_000;
  bin_width_hz = 10;
  dbfs = some "-90" ∷ none ∷ none ∷ some "-60" ∷ some "-61" ∷ [];
}

abbrev cell : ℕ → String → TracePoint
cell hz db = record { hz = hz; db = db }

notched :
    trace_segments (some trace)
    ≡ (cell 2_010 "-90" ∷ []) ∷ (cell 2_070 "-60" ∷ cell 2_090 "-61" ∷ []) ∷ []
unfolding trace_segments split
notched = refl

split_segments-IsSplit_example :
    IsSplit
      (jumps_by (sample_cadence_ms parse samples))
      (readings parse (λ s. s.load1) samples)
      (split_segments parse (λ s. s.load1) samples)
split_segments-IsSplit_example = split_segments-IsSplit parse (λ s. s.load1) samples
