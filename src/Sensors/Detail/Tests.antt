-- ===== src/Sensors/Detail/Tests.antt =====
-- The detail of a receiver under the headings of sensor-detail-groups.ts, and its theorem there.
use classg.Prelude.{
  ◌≡◌, refl, String, Bool, true, List, [], ◌∷◌, map, count_if, if◌then◌else◌, sort_by, insert,
  text_ltb, not,
}
use classg.Api.{Json}
use classg.Sensors.Detail.{
  section_radio, section_errors, section_other, group_sensor_detail, known_detail, known_index,
  omits,
}
use classg.Sensors.Detail.Keeps.{has_row_key, has_detail_key, all_rows, sections_keep_counters}

abbrev not_after : String → String → Bool
not_after a b = not (text_ltb b a)

abbrev spaced : String → String
spaced key = key

abbrev detail : List (String × Json)
detail =
    ("zeta", Json.null)
    ∷ ("channel", Json.number 6_000)
    ∷ ("beacons", Json.number 8_000)
    ∷ ("parse_errors", Json.number 0)
    ∷ ("iface", Json.words "wlan1")
    ∷ ("alpha", Json.flag true)
    ∷ []

grouped :
    (map (λ g. g.section) (group_sensor_detail spaced not_after detail ("beacons" ∷ []))
      ≡ section_radio ∷ section_errors ∷ section_other ∷ [])
    × (map (λ r. r.label) (all_rows (group_sensor_detail spaced not_after detail ("beacons" ∷ [])))
        ≡ "Interface" ∷ "Current channel" ∷ "Parse errors" ∷ "alpha" ∷ "zeta" ∷ [])
unfolding group_sensor_detail known_detail known_index sort_by insert text_ltb
grouped = (refl, refl)

sections_keep_counters_example :
    count_if
      (has_row_key "iface")
      (all_rows (group_sensor_detail spaced not_after detail ("beacons" ∷ [])))
    ≡ (if omits ("beacons" ∷ []) "iface" then 0 else count_if (has_detail_key "iface") detail)
sections_keep_counters_example =
    sections_keep_counters spaced not_after detail ("beacons" ∷ []) "iface"
