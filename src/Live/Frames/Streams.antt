-- ===== src/Live/Frames/Streams.antt =====
-- The caches that live-frames.ts fills from the stream: detections, sensors and sweeps.
use classg.Prelude.{
  All-const, DistinctBy, DistinctBy-set, find, All-const, ℕ, zero, suc, ◌≤◌, String, ◌≡◌, ◌≢◌, inl,
  inr, Bool, true, false, Option, none, some, List, [], ◌∷◌, arith, Bool-cases, Option-cases,
  filter, find_index, set, All, All-imp, All-filter, All-filter_of, All-take, length,
  length-take-le, find_index-none, next_index-eq-some, str_eq, eq_iff, str_eq_refl, opt_eq, take,
}
use classg.Api.{
  Detection, DetectionsResponse, SpectrumSweep, ServerFrame, track_update, detection, sweep_status,
}
use classg.Live.Frames.{
  icao_of, outlives, push_detection, push_detections, put_sweep, apply_frame, QueryCache,
}

-- Two detections are of one aircraft.
abbrev pub same_aircraft : Detection → Detection → Bool
same_aircraft a b = elim (icao_of b.adsb) [
  | none ↦ false
  | some icao ↦ opt_eq (icao_of a.adsb) icao
]

-- A list of reports with at most one for each aircraft that has a non-empty address.
abbrev pub OnePerAircraft : List Detection → Type 0
OnePerAircraft [] = Unit
OnePerAircraft (d ∷ ds) =
    (icao_of d.adsb ≢ some "" → All (λ e. same_aircraft e d ≡ false) ds) × OnePerAircraft ds

OnePerAircraft-filter :
    (p : Detection → Bool) (ds : List Detection) → OnePerAircraft ds → OnePerAircraft (filter p ds)
OnePerAircraft-filter p [] h = tt
OnePerAircraft-filter p (d ∷ ds) h = elim (Bool-cases (p d)) [
  | inl e ↦ rw e (
    λ named. All-filter (λ e. same_aircraft e d ≡ false) p ds (h.0 named),
    OnePerAircraft-filter p ds h.1,
  )
  | inr e ↦ rw e (OnePerAircraft-filter p ds h.1)
]

OnePerAircraft-take : (n : ℕ) (ds : List Detection) → OnePerAircraft ds → OnePerAircraft (take n ds)
OnePerAircraft-take zero ds h = tt
OnePerAircraft-take (suc n) [] h = tt
OnePerAircraft-take (suc n) (d ∷ ds) h = (
  λ named. All-take (λ e. same_aircraft e d ≡ false) n ds (h.0 named),
  OnePerAircraft-take n ds h.1,
)

outlives_apart :
    (new d : Detection)
    → icao_of new.adsb ≢ some ""
    → outlives new d ≡ true
    → same_aircraft d new ≡ false
outlives_apart new d named h = elim (Option-cases (icao_of new.adsb)) [
  | inl e ↦ rw (e, same_aircraft)
  | inr (icao, e) ↦ ground (arith, eq_iff icao "")
]

-- What the reducer keeps of a detections cache: 200 reports at most, with one for each aircraft.
abbrev pub FitsWindow : Option DetectionsResponse → Type 0
FitsWindow none = Unit
FitsWindow (some r) = (length r.detections ≤ 200) × OnePerAircraft r.detections

push_detection-FitsWindow :
    (new : Detection) (r : DetectionsResponse)
    → FitsWindow (some r)
    → FitsWindow (some (push_detection new r))
unfolding push_detection
push_detection-FitsWindow new r h =
    let rest = filter (outlives new) r.detections in
    (
      length-take-le 200 (new ∷ rest),
      OnePerAircraft-take 200 (new ∷ rest) (
        λ named.
            All-filter_of (λ d. same_aircraft d new ≡ false) (outlives new) r.detections
              (All-imp (λ _. Unit {0}) _ (λ d _ kept. outlives_apart new d named kept) r.detections
                (All-const r.detections)),
        OnePerAircraft-filter (outlives new) r.detections h.1,
      ),
    )

push_detections-FitsWindow :
    (new : Detection) (es : List (Option DetectionsResponse))
    → All FitsWindow es
    → All FitsWindow (push_detections new es)
push_detections-FitsWindow new [] h = tt
push_detections-FitsWindow new (none ∷ es) h = (tt, push_detections-FitsWindow new es h.1)
push_detections-FitsWindow new (some r ∷ es) h =
    (push_detection-FitsWindow new r h.0, push_detections-FitsWindow new es h.1)

-- Whatever frame arrives, if every detections cache holds 200 reports at most, with at most one for
-- each non-empty aircraft address, so does every detections cache afterwards.
pub apply_frame-FitsWindow :
    (lower : String → String) (f : ServerFrame) (c : QueryCache)
    → All FitsWindow c.detection_lists
    → All FitsWindow (apply_frame lower f c).detection_lists
unfolding apply_frame
apply_frame-FitsWindow lower (track_update raw) c h = h
apply_frame-FitsWindow lower (detection d) c h =
    ground (arith, push_detections-FitsWindow d c.detection_lists h)
apply_frame-FitsWindow lower _ c h = h

-- `a ?? b` for two values that may be missing.
abbrev first_of_two {ℓ} : {A : Type ℓ} → Option A → Option A → Option A
first_of_two none b = b
first_of_two (some a) b = some a

sweep_ids_apart :
    (sweep : SpectrumSweep) (ss : List SpectrumSweep)
    → DistinctBy (λ s. s.sweep_id) ss
    → DistinctBy (λ s. s.sweep_id) (put_sweep sweep ss)
unfolding put_sweep
sweep_ids_apart sweep ss d =
    elim (Option-cases (find_index (λ s. str_eq s.sweep_id sweep.sweep_id) ss)) [
      | inl absent ↦ rw (absent, put_sweep) (find_index-none _ ss absent, d)
      | inr (i, at) ↦ rw (at, put_sweep) (DistinctBy-set (λ s. s.sweep_id) ss i sweep at d)
    ]

find-set :
    (p : SpectrumSweep → Bool) (sweep : SpectrumSweep) (ss : List SpectrumSweep) (i : ℕ)
    → p sweep ≡ true
    → find_index p ss ≡ some i
    → find p (set ss i sweep) ≡ some sweep
find-set p sweep [] i e h = cc
find-set p sweep (s ∷ ss) zero e h = rw e
find-set p sweep (s ∷ ss) (suc i) e h =
    ground (arith, next_index-eq-some (find_index p ss) (suc i), find-set p sweep ss i e)

find-put_sweep :
    (sweep : SpectrumSweep) (ss : List SpectrumSweep)
    → find (λ s. str_eq s.sweep_id sweep.sweep_id) (put_sweep sweep ss) ≡ some sweep
unfolding put_sweep
find-put_sweep sweep ss =
    elim (Option-cases (find_index (λ s. str_eq s.sweep_id sweep.sweep_id) ss)) [
      | inl absent ↦ rw (absent, put_sweep) (rw (str_eq_refl sweep.sweep_id))
      | inr (i, at) ↦ rw (at, put_sweep) (find-set _ sweep ss i (str_eq_refl sweep.sweep_id) at)
    ]

-- After a sweep frame the list of sweeps, if it was loaded with no id twice, still has no id twice,
-- and the sweep it holds for the id of the frame is the frame's.
pub sweep_frame_lists_once :
    (lower : String → String) (c : QueryCache) (sweep : SpectrumSweep) (old : List SpectrumSweep)
    → c.sweeps ≡ some old
    → DistinctBy (λ s. s.sweep_id) old
    → (new : List SpectrumSweep) × ((apply_frame lower (sweep_status sweep) c).sweeps ≡ some new)
      × DistinctBy (λ s. s.sweep_id) new
      × (find (λ s. str_eq s.sweep_id sweep.sweep_id) new ≡ some sweep)
unfolding apply_frame
sweep_frame_lists_once lower c sweep old loaded d =
    (put_sweep sweep old, rw loaded, sweep_ids_apart sweep old d, find-put_sweep sweep old)
