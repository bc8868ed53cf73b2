-- ===== src/Overview/Aircraft/Tests.antt =====
-- Four reports of aircraft.ts, one too old and one of no address, and its theorem there.
use classg.Prelude.{
  ℕ, ◌≡◌, refl, String, Option, none, some, List, [], ◌∷◌, count_if, min, All, str_eq,
  if◌then◌else◌, text_ltb, sort_by, insert,
}
use classg.Api.{Detection, class_d, sdr}
use classg.Overview.Aircraft.{aircraft_from_detections}
use classg.Overview.Aircraft.Once.{is_of, counts_for}
use classg.Overview.Aircraft.Latest.{IsLatest, newest_entry_each}

abbrev parse : String → Option ℕ
parse t =
    if str_eq t "1"
    then some 1_000
    else if str_eq t "2"
    then some 2_000
    else if str_eq t "3"
    then some 3_000
    else none

abbrev report : String → String → Option String → Detection
report id ts icao = record {
  detection_id = id;
  ts = ts;
  sensor_id = "sdr-0";
  sensor_kind = sdr;
  detection_class = class_d;
  rf = none;
  adsb = elim icao [ none ↦ none | some i ↦ some (record { icao = i }) ];
}

abbrev reports : List Detection
reports =
    report "D1" "1" (some "4CA1")
    ∷ report "D2" "2" (some "4CA1")
    ∷ report "D3" "3" none
    ∷ report "D4" "2" (some "4CA1")
    ∷ []

collapsed :
    aircraft_from_detections parse (some 1_500) 3_000 reports
    ≡ report "D3" "3" none ∷ report "D2" "2" (some "4CA1") ∷ []
unfolding aircraft_from_detections sort_by insert text_ltb
collapsed = refl

newest_entry_each_example :
    (count_if (is_of "4CA1") (aircraft_from_detections parse (some 1_500) 3_000 reports)
      ≡ min 1 (count_if (counts_for parse (some 1_500) 3_000 "4CA1") reports))
    × All
        (IsLatest parse (some 1_500) 3_000 "4CA1" reports)
        (aircraft_from_detections parse (some 1_500) 3_000 reports)
newest_entry_each_example = newest_entry_each parse (some 1_500) 3_000 "4CA1" reports
