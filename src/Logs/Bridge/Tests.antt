-- ===== src/Logs/Bridge/Tests.antt =====
-- Runs of log-bridge.ts, and its theorems at values that meet their hypotheses.
use classg.Prelude.{◌≡◌, ◌↔◌, refl, String, true, false, none, some, [], ◌∷◌, map}
use classg.Api.{
  class_a, wifi, TrackState, Evidence, Track, RawTrack, entries, by_class, SensorHealth,
  SystemStatus, ServerFrame, health,
}
use classg.Logs.Store.{Message}
use classg.Logs.Bridge.{
  FrameLogger, create_frame_logger, memo_of, on_frame, on_track_update, open_track, update_track,
  state_lines, confirmed_lines, position_lines, on_health, status_lines, all_sensor_lines,
  sensor_lines, sensors_known,
}
use classg.Logs.Bridge.Changes.{silent_iff_unchanged, evidence_by_class_opens_unlogged}
use classg.Logs.Bridge.Repeats.{repeated_sample_is_silent}

calls : Unit {0}
unfolding on_frame on_track_update open_track update_track state_lines confirmed_lines
    position_lines on_health status_lines all_sensor_lines sensor_lines sensors_known
calls = tt

abbrev drone : Track
drone = record {
  track_id = "T1";
  state = TrackState.tentative;
  first_seen = "2026-09-15T10:00:00Z";
  last_seen = "2026-09-15T10:05:00Z";
  detection_count = 3;
  identity = none;
  confidence = 500;
  evidence = none;
  current = none;
  history = none;
  operator = none;
  adsb_correlated = none;
}

abbrev seen : Evidence
seen = record { detection_class = class_a; sensor_kind = wifi; weight = 900; count = 3 }

abbrev raw : Track → RawTrack
raw t = record { track = t; evidence = entries (seen ∷ []); suppression = none }

abbrev after_first : FrameLogger
after_first = (on_track_update (raw drone) create_frame_logger).logger

-- A confirmation is two lines: the state, and the threshold.
confirmed_once :
    map
      (λ e. e.message)
      (on_track_update
        (raw (record drone { state = TrackState.confirmed; confidence = 600 }))
        after_first).written
    ≡ Message.track_changed "T1" TrackState.tentative TrackState.confirmed
      ∷ Message.track_confirmed "T1"
      ∷ []
unfolding calls
confirmed_once = refl

silent_iff_unchanged_example :
    ((on_track_update (raw drone) after_first).written ≡ []) ↔ (memo_of drone ≡ memo_of drone)
unfolding calls
silent_iff_unchanged_example =
    silent_iff_unchanged (raw drone) (memo_of drone) after_first (class_a ∷ []) refl refl

abbrev keyed : RawTrack
keyed = record { track = drone; evidence = by_class (some seen ∷ []); suppression = none }

evidence_by_class_opens_unlogged_example :
    ((on_track_update keyed create_frame_logger).threw ≡ true)
    × ((on_track_update keyed create_frame_logger).written ≡ [])
    × ((on_track_update keyed (on_track_update keyed create_frame_logger).logger).written ≡ [])
evidence_by_class_opens_unlogged_example =
    evidence_by_class_opens_unlogged keyed create_frame_logger refl refl

abbrev sensor : String → SensorHealth
sensor id = record {
  sensor_id = id;
  sensor_kind = wifi;
  healthy = true;
  last_heartbeat = "2026-09-15T10:00:00Z";
  detections_5m = none;
  seconds_since_heartbeat = 0;
  detail = none;
  reason = none;
  config = none;
}

abbrev broken : SensorHealth
broken = record (sensor "wifi-1") { healthy = false; reason = some "no heartbeat" }

abbrev report : ServerFrame
report = health (record {
  status = SystemStatus.degraded;
  version = "1.0";
  sensors = sensor "wifi-0" ∷ broken ∷ [];
})

repeated_sample_is_silent_example :
    (on_frame report (on_frame report create_frame_logger).logger).written ≡ []
unfolding calls
repeated_sample_is_silent_example =
    repeated_sample_is_silent report create_frame_logger ((refl, tt), (tt, tt)) refl
