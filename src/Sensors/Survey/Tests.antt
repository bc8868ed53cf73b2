-- ===== src/Sensors/Survey/Tests.antt =====
-- A detail of two channels of which one is measured, read by wifi-survey.ts.
use classg.Prelude.{◌≡◌, refl, true, false, none, some, [], ◌∷◌, sort_by, insert}
use classg.Api.{Json, JsonItems, JsonFields, SensorHealth, SensorKind}
use classg.Sensors.Survey.{ChannelOccupancy, SurveyState, ghz2, survey_state, busiest}

abbrev entry : JsonFields
entry = JsonFields.field "freq_mhz" (Json.number 2_412_000) (
    JsonFields.field "active_ms" (Json.number 1_000)
      (JsonFields.field "busy_fraction" (Json.number 1_200) JsonFields.no_fields))

abbrev radio : SensorHealth
radio = record {
  sensor_id = "wifi-0";
  sensor_kind = SensorKind.wifi;
  healthy = true;
  last_heartbeat = "";
  detections_5m = none;
  reason = none;
  config = none;
  seconds_since_heartbeat = 0;
  detail = some (
      (
        "survey",
        Json.array (
            JsonItems.item (Json.object entry)
              (JsonItems.item (Json.object JsonFields.no_fields) JsonItems.no_items)),
      )
      ∷ []);
}

abbrev channel : ChannelOccupancy
channel = record {
  freq_mhz = Json.number 2_412_000;
  channel = none;
  band = ghz2;
  active_ms = Json.number 1_000;
  busy_fraction = 1_000;
  noise_dbm = none;
  rx_ms = Json.number 0;
  tx_ms = Json.number 0;
  in_use = false;
}

measured : survey_state (some (radio ∷ [])) none ≡ SurveyState.ready "wifi-0" (channel ∷ [])
unfolding survey_state sort_by insert
measured = refl

the_busiest : busiest (channel ∷ []) ≡ some channel
unfolding busiest
the_busiest = refl

elsewhere : survey_state (some (radio ∷ [])) (some "wifi-1") ≡ SurveyState.no_sensor
unfolding survey_state
elsewhere = refl
