-- ===== src/Status/Covered.antt =====
-- What the verdicts of sky-state.ts, recording-state.ts, status-summary.ts and freshness.ts mean.
use classg.Prelude.{
  ℕ, ◌+◌, ◌-◌, ◌≤◌, ◌<◌, ◌≡◌, refl, arith, Bool, true, false, ◌||◌, ◌&&◌, Option, none, some, List,
  [], ◌∷◌, ◌↔◌, not, ltb, leb, length, filter, any, all, inl, inr, ◌==◌, Option-cases,
}
use classg.Api.{SensorHealth, Health, MonitoringState}
use classg.Status.Sky.{
  compute_sky_state, detections_of, manned_count, drone_count, RecordingState, recording_of_health,
  recording_state, is_healthy, is_unhealthy,
}
use classg.Status.Summary.{
  StatusInputs, StatusTone, summarise_status, summarise_health, is_down, is_degraded, is_open,
  is_paused,
}
use classg.Status.Freshness.{FreshnessInput, compute_freshness, closed_freshness}

-- Some sensor is healthy and none is unhealthy.
abbrev pub is_covered : List SensorHealth → Bool
is_covered ss = any (λ s. s.healthy) ss && all (λ s. s.healthy) ss

abbrev pub reports_coverage : Option Health → Bool
reports_coverage none = false
reports_coverage (some h) = is_covered h.sensors

counts :
    (ss : List SensorHealth)
    → ((length (filter is_healthy ss) == 0) ≡ not (any is_healthy ss))
      × (ltb 0 (length (filter is_unhealthy ss)) ≡ not (all is_healthy ss))
counts [] = (refl, refl)
counts (s ∷ ss) = (ground (arith, (counts ss).0), ground (arith, (counts ss).1))

-- The absence of tracks counts as evidence exactly if a health report is there, and in it at least
-- one sensor is healthy and none is unhealthy, whatever the number of tracks.
pub absence_iff_covered :
    (h : Option Health) (n : ℕ) → (compute_sky_state h n).absence_is_evidence ≡ reports_coverage h
unfolding compute_sky_state
absence_iff_covered none n = refl
absence_iff_covered (some h) n = ground (arith, (counts h.sensors).0, (counts h.sensors).1)

filter_counts :
    (ss : List SensorHealth)
    → length (filter is_healthy ss) + length (filter is_unhealthy ss) ≡ length ss
filter_counts [] = refl
filter_counts (s ∷ ss) = ground (arith, filter_counts ss)

is_recording : RecordingState → Bool
is_recording RecordingState.recording = true
is_recording _ = false

-- With recording switched on and a health report, the recorder is said to record, without a
-- qualification, exactly if the absence of tracks counts as evidence.
pub recording_iff_evidence :
    (m : MonitoringState) (h : Health) (n : ℕ)
    → m.enabled ≡ true
    → (recording_state (some m) (some h) ≡ some RecordingState.recording)
      ↔ ((compute_sky_state (some h) n).absence_is_evidence ≡ true)
unfolding recording_state recording_of_health compute_sky_state
recording_iff_evidence m h n on =
    (λ r. ground (arith, filter_counts h.sensors), λ r. ground (arith, filter_counts h.sensors))

-- The drone and the manned counts of a quiet sky are all the detections that the sensors report.
pub quiet_counts_add_up :
    (ss : List SensorHealth) → drone_count ss + manned_count ss ≡ detections_of ss
quiet_counts_add_up [] = refl
quiet_counts_add_up (s ∷ ss) = ground (arith, quiet_counts_add_up ss)

is_ok : StatusTone → Bool
is_ok StatusTone.ok = true
is_ok _ = false

-- Nothing is wrong that the inputs tell of.
abbrev pub all_clear : Health → StatusInputs → Bool
all_clear h i =
    not (is_down h.status)
    && not (is_degraded h.status)
    && all is_healthy h.sensors
    && not (is_paused i.monitoring)
    && is_open i.connection

-- If a health report is there, the summary is green exactly if the health query did not fail, the report
-- says neither down nor degraded, no sensor is unhealthy, recording is not paused and the stream is open.
pub green_iff_all_clear :
    (i : StatusInputs) (h : Health)
    → i.health ≡ some h
    → ((summarise_status i).tone ≡ StatusTone.ok) ↔ ((not i.health_error && all_clear h i) ≡ true)
unfolding summarise_status summarise_health
green_iff_all_clear i h there = (
  λ r. ground (arith, there, (counts h.sensors).1),
  λ r. ground (arith, there, (counts h.sensors).1),
)

all-healthy :
    (h : Health) (i : StatusInputs)
    → (not i.health_error && all_clear h i) ≡ true
    → all is_healthy h.sensors ≡ true
all-healthy h i clear = ground arith

covered : (ss : List SensorHealth) → 0 < length ss → all is_healthy ss ≡ true → is_covered ss ≡ true
covered [] named h = absurd (omega arith)
covered (s ∷ ss) named h = ground arith

-- A green summary of a report that names sensors means that an empty map is evidence.
pub green_means_evidence :
    (i : StatusInputs) (h : Health) (n : ℕ)
    → i.health ≡ some h
    → 0 < length h.sensors
    → (summarise_status i).tone ≡ StatusTone.ok
    → (compute_sky_state (some h) n).absence_is_evidence ≡ true
green_means_evidence i h n there named green =
    let clear = (green_iff_all_clear i h there).0 green in
    let healthy = all-healthy h i clear in
    rw (absence_iff_covered (some h) n) (covered h.sensors named healthy)

-- While the device is online, the stream is not open, nothing new arrives and the threshold is the same,
-- a banner once shown stays: no later clock and no higher attempt count takes it away.
pub announcement_stays :
    (i j : FreshnessInput)
    → i.online ≡ true
    → j.online ≡ true
    → is_open i.connection ≡ false
    → is_open j.connection ≡ false
    → j.last_update_at ≡ i.last_update_at
    → j.stale_after_ms ≡ i.stale_after_ms
    → i.now ≤ j.now
    → i.reconnect_attempt ≤ j.reconnect_attempt
    → (compute_freshness i).announce ≡ true
    → (compute_freshness j).announce ≡ true
unfolding compute_freshness closed_freshness
announcement_stays i j on on' shut shut' same limit later more shown =
    elim (Option-cases i.last_update_at) [
      | inl e ↦ ground (arith, e, same)
      | inr (at, e) ↦ ground (arith, e, same)
    ]

abbrev is_old : FreshnessInput → Option ℕ → Bool
is_old i none = leb 2 i.reconnect_attempt
is_old i (some at) = leb i.stale_after_ms (i.now - at)

-- The operator is told exactly if the device is offline, or the stream is not open and the newest
-- reading is at least as old as the threshold, or there is none after two attempts.
pub announce_iff_old :
    (i : FreshnessInput)
    → (compute_freshness i).announce
      ≡ (not i.online || (not (is_open i.connection) && is_old i i.last_update_at))
unfolding compute_freshness closed_freshness
announce_iff_old i = elim (Option-cases i.last_update_at) [
  | inl e ↦ ground (arith, e)
  | inr (at, e) ↦ ground (arith, e)
]
