-- ===== src/Status/Tests.antt =====
-- The verdicts on concrete reports, and the theorems of Covered at them.
use classg.Prelude.{◌≡◌, ◌↔◌, refl, true, false, none, some, [], ◌∷◌, not, ◌&&◌}
use classg.Api.{SystemStatus, wifi, sdr, SensorHealth, Health, MonitoringState}
use classg.Live.Stream.{ConnectionState}
use classg.Status.Sky.{SkyStateKind, compute_sky_state, describe_sensors}
use classg.Status.Summary.{StatusInputs, StatusTone, summarise_status}
use classg.Status.Freshness.{FreshnessInput, default_stale_after_ms}
use classg.Status.Covered.{absence_iff_covered, all_clear, green_iff_all_clear}

abbrev radio : SensorHealth
radio = record {
  sensor_id = "sdr-0";
  sensor_kind = sdr;
  healthy = true;
  last_heartbeat = "2026-09-15T10:00:00Z";
  detections_5m = some 470;
  seconds_since_heartbeat = 0;
  detail = none;
  reason = none;
  config = none;
}

abbrev report : Health
report = record {
  status = SystemStatus.ok;
  version = "1.0";
  sensors =
      radio
      ∷ record radio { sensor_id = "wifi-0"; sensor_kind = wifi; detections_5m = some 0 }
      ∷ [];
}

sky_with_broken :
    ((compute_sky_state
        (some (record report { sensors = record radio { healthy = false } ∷ report.sensors }))
        0).kind
      ≡ SkyStateKind.degraded)
    × (describe_sensors (radio ∷ record radio { sensor_id = "wifi-1"; reason = some "gone" } ∷ [])
        ≡ "sdr-0 (no heartbeat) and wifi-1 (gone)")
unfolding compute_sky_state describe_sensors
sky_with_broken = (refl, refl)

absence_iff_covered_example : (compute_sky_state (some report) 0).absence_is_evidence ≡ true
absence_iff_covered_example = absence_iff_covered (some report) 0

abbrev on : MonitoringState
on = record {
  enabled = true;
  since = "2026-09-15T09:00:00Z";
  reason = none;
  discarded_while_paused = 0;
}

abbrev inputs : StatusInputs
inputs = record {
  health = some report;
  monitoring = some on;
  connection = ConnectionState.opened;
  health_error = false;
}

green_iff_all_clear_example :
    ((summarise_status inputs).tone ≡ StatusTone.ok)
    ↔ ((not inputs.health_error && all_clear report inputs) ≡ true)
green_iff_all_clear_example = green_iff_all_clear inputs report refl

abbrev lost : FreshnessInput
lost = record {
  online = true;
  connection = ConnectionState.reconnecting;
  reconnect_attempt = 3;
  last_update_at = some 1000;
  now = 40000;
  stale_after_ms = default_stale_after_ms;
}
