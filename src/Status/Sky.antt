-- ===== src/Status/Sky.antt =====
-- services/ui/src/features/health/sky-state.ts, and `recordingState` of
-- services/ui/src/features/monitoring/recording-state.ts. A sentence is its template and the values
-- in it.
use classg.Prelude.{
  ℕ, ◌+◌, ◌-◌, String, Bool, true, false, Option, none, some, List, [], ◌∷◌, map, if◌then◌else◌,
  not, ltb, ◌==◌, length, filter, take, get_elem?, get_or_else, str_append,
}
use classg.Api.{SensorKind, wifi, sdr, ble, net, SensorHealth, Health, MonitoringState}

pub data SkyStateKind : Type 0 where
  active active_degraded quiet degraded blind unknown : SkyStateKind

pub data Tone : Type 0 where
  ok warn down muted : Tone

pub data Title : Type 0 where
  status_unknown no_coverage coverage_degraded quiet_sky : Title
  active_tracks : ℕ → Title

pub data Detail : Type 0 where
  not_reported none_registered all_reporting : Detail
  every_unhealthy incomplete not_evidence : String → Detail
  uncorrelated_and_manned : (healthy drone manned : ℕ) → Detail
  uncorrelated : (healthy drone : ℕ) → Detail
  only_manned : (healthy manned : ℕ) → Detail
  nothing_seen : (healthy : ℕ) → Detail

pub record SkyState : Type 0 where
  pub kind : SkyStateKind
  pub absence_is_evidence : Bool
  pub title : Title
  pub detail : Detail
  pub tone : Tone
  pub unhealthy : List SensorHealth
  pub healthy : List SensorHealth
  pub track_count : ℕ

abbrev pub is_healthy : SensorHealth → Bool
is_healthy s = s.healthy

abbrev pub is_unhealthy : SensorHealth → Bool
is_unhealthy s = not s.healthy

abbrev describe : SensorHealth → String
describe s =
    str_append s.sensor_id (str_append " (" (str_append (get_or_else s.reason "no heartbeat") ")"))

-- `xs.join(', ')`
abbrev join_commas : List String → String
join_commas [] = ""
join_commas (x ∷ []) = x
join_commas (x ∷ y ∷ ys) = str_append x (str_append ", " (join_commas (y ∷ ys)))

-- `${names.slice(0, -1).join(', ')} and ${last}`
abbrev join_and : List String → String
join_and names =
    str_append (join_commas (take (length names - 1) names))
      (str_append " and " (get_or_else (get_elem? names (length names - 1)) ""))

unfoldable pub describe_sensors : List SensorHealth → String
describe_sensors [] = ""
describe_sensors (s ∷ []) = describe s
describe_sensors (s ∷ t ∷ ss) = join_and (map describe (s ∷ t ∷ ss))

abbrev is_manned_kind : SensorKind → Bool
is_manned_kind wifi = false
is_manned_kind sdr = true
is_manned_kind ble = false
is_manned_kind net = true

abbrev pub is_manned : SensorHealth → Bool
is_manned s = is_manned_kind s.sensor_kind

abbrev pub detections_of : List SensorHealth → ℕ
detections_of [] = 0
detections_of (s ∷ ss) = get_or_else s.detections_5m 0 + detections_of ss

abbrev pub manned_count : List SensorHealth → ℕ
manned_count ss = detections_of (filter is_manned ss)

abbrev pub drone_count : List SensorHealth → ℕ
drone_count ss = detections_of (filter (λ s. not (is_manned s)) ss)

pub quiet_detail : (healthy drone manned : ℕ) → Detail
quiet_detail healthy drone manned =
    if ltb 0 drone
    then (if ltb 0 manned
        then uncorrelated_and_manned healthy drone manned
        else uncorrelated healthy drone)
    else if ltb 0 manned
    then only_manned healthy manned
    else nothing_seen healthy

abbrev sky_unknown : ℕ → SkyState
sky_unknown n = record {
  kind = unknown;
  absence_is_evidence = false;
  title = status_unknown;
  detail = not_reported;
  tone = muted;
  unhealthy = [];
  healthy = [];
  track_count = n;
}

abbrev sky_blind : Health → ℕ → SkyState
sky_blind h n = record {
  kind = blind;
  absence_is_evidence = false;
  title = no_coverage;
  detail =
      if length h.sensors == 0
      then none_registered
      else every_unhealthy (describe_sensors (filter is_unhealthy h.sensors));
  tone = down;
  unhealthy = filter is_unhealthy h.sensors;
  healthy = filter is_healthy h.sensors;
  track_count = n;
}

abbrev sky_degraded : Health → ℕ → SkyState
sky_degraded h n = record {
  kind = if ltb 0 n then active_degraded else degraded;
  absence_is_evidence = false;
  title = coverage_degraded;
  detail =
      if ltb 0 n
      then incomplete (describe_sensors (filter is_unhealthy h.sensors))
      else not_evidence (describe_sensors (filter is_unhealthy h.sensors));
  tone = warn;
  unhealthy = filter is_unhealthy h.sensors;
  healthy = filter is_healthy h.sensors;
  track_count = n;
}

abbrev sky_active : Health → ℕ → SkyState
sky_active h n = record {
  kind = active;
  absence_is_evidence = true;
  title = active_tracks n;
  detail = all_reporting;
  tone = ok;
  unhealthy = filter is_unhealthy h.sensors;
  healthy = filter is_healthy h.sensors;
  track_count = n;
}

abbrev sky_quiet : Health → ℕ → SkyState
sky_quiet h n = record {
  kind = quiet;
  absence_is_evidence = true;
  title = quiet_sky;
  detail =
      quiet_detail (length (filter is_healthy h.sensors)) (drone_count h.sensors)
        (manned_count h.sensors);
  tone = ok;
  unhealthy = filter is_unhealthy h.sensors;
  healthy = filter is_healthy h.sensors;
  track_count = n;
}

unfoldable pub compute_sky_state : Option Health → ℕ → SkyState
compute_sky_state none n = sky_unknown n
compute_sky_state (some h) n =
    if length (filter is_healthy h.sensors) == 0
    then sky_blind h n
    else if ltb 0 (length (filter is_unhealthy h.sensors))
    then sky_degraded h n
    else if ltb 0 n
    then sky_active h n
    else sky_quiet h n

pub data RecordingState : Type 0 where
  recording no_coverage degraded paused : RecordingState

unfoldable pub recording_of_health : Option Health → RecordingState
recording_of_health none = RecordingState.recording
recording_of_health (some h) =
    let healthy = length (filter is_healthy h.sensors) in
    if length h.sensors == 0
    then RecordingState.no_coverage
    else if healthy == 0
    then RecordingState.no_coverage
    else if ltb healthy (length h.sensors)
    then RecordingState.degraded
    else RecordingState.recording

unfoldable pub recording_state : Option MonitoringState → Option Health → Option RecordingState
recording_state none h = none
recording_state (some m) h =
    if m.enabled then some (recording_of_health h) else some RecordingState.paused
