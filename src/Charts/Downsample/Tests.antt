-- ===== src/Charts/Downsample/Tests.antt =====
-- A segment of telemetry-series.ts with a spike, and the theorem on what is drawn of it.
use classg.Prelude.{ℕ, zero, suc, ◌-◌, count_if, ◌≤◌, ◌≡◌, refl, some, List, [], ◌∷◌, ltb, length}
use classg.Charts.Segments.{TelemetryPoint}
use classg.Charts.Downsample.{downsample_segment, floor_times, bucket_size, bucket_start}

abbrev point : ℕ → ℕ → TelemetryPoint ℕ
point t v = record { t = some t; v = v }

-- Seven points for a chart of four.
abbrev spiky : List (TelemetryPoint ℕ)
spiky = point 1 5 ∷ point 2 90 ∷ point 3 6 ∷ point 4 5 ∷ point 5 7 ∷ point 6 1 ∷ point 7 5 ∷ []

thinned : downsample_segment ltb spiky 4 ≡ point 1 5 ∷ point 2 90 ∷ point 5 7 ∷ point 6 1 ∷ []
unfolding downsample_segment floor_times bucket_size
thinned = refl

abbrev UnderHundred : TelemetryPoint ℕ → Type 0
UnderHundred p = p.v ≤ 100

-- 7 times the double next to 61 / 7 is below 61, and so with 350 and 701: the buckets end one point too
-- early, and the last of 61 points is not drawn although it is the highest.
abbrev steady : ℕ → List (TelemetryPoint ℕ)
steady zero = point 61 900 ∷ []
steady (suc n) = point (60 - n) 5 ∷ steady n

short_reach :
    (bucket_start 61 7 7 ≡ 60) × (bucket_start 701 350 350 ≡ 700) × (bucket_start 700 2 2 ≡ 700)
unfolding floor_times bucket_size
short_reach = (refl, refl, refl)

last_is_lost :
    (length (steady 60) ≡ 61)
    × (count_if (λ p. ltb 5 p.v) (downsample_segment ltb (steady 60) 14) ≡ 0)
unfolding downsample_segment floor_times bucket_size
last_is_lost = (refl, refl)
