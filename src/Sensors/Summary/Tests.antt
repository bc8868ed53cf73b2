-- ===== src/Sensors/Summary/Tests.antt =====
-- The summary of a receiver by sensor-summary.ts, and its theorem there.
use classg.Prelude.{◌≡◌, refl, ◌⊎◌, String, true, none, some, List, [], ◌∷◌, map, All, get_or_else}
use classg.Api.{Json, SensorHealth, SensorKind}
use classg.Sensors.Summary.{plain, warn, muted, summarise_sensor, wifi_metrics}
use classg.Sensors.Summary.Readings.{AreNumbers, IsRead, IsOwn, tiles_are_sourced}

abbrev detail : List (String × Json)
detail =
    ("frames", Json.number 9_000)
    ∷ ("beacons", Json.words "many")
    ∷ ("detections", Json.number 0)
    ∷ ("listening_fraction", Json.number 600)
    ∷ ("hops", Json.number 12_000)
    ∷ []

abbrev sensor : SensorHealth
sensor = record {
  sensor_id = "wifi-0";
  sensor_kind = SensorKind.wifi;
  healthy = true;
  last_heartbeat = "a";
  detections_5m = some 0;
  seconds_since_heartbeat = 2_000;
  detail = some detail;
  reason = none;
  config = none;
}

-- A counter that is no number is not shown, and another takes its place.
summarised :
    (map (λ m. m.id) (summarise_sensor sensor).metrics
      ≡ "heard" ∷ "detections" ∷ "detections-5m" ∷ "listening" ∷ "heartbeat" ∷ [])
    × (map (λ m. m.tone) (summarise_sensor sensor).metrics
        ≡ plain ∷ plain ∷ muted ∷ warn ∷ plain ∷ [])
    × ((summarise_sensor sensor).consumed ≡ "frames" ∷ "detections" ∷ "listening_fraction" ∷ [])
unfolding summarise_sensor wifi_metrics
summarised = (refl, refl, refl)

tiles_are_sourced_example :
    AreNumbers (get_or_else sensor.detail []) (summarise_sensor sensor).consumed
    × All
        (λ m.
          IsRead (get_or_else sensor.detail []) (summarise_sensor sensor).consumed m.value
          ⊎ IsOwn sensor m.value)
        (summarise_sensor sensor).metrics
tiles_are_sourced_example = tiles_are_sourced sensor
