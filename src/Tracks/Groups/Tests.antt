-- ===== src/Tracks/Groups/Tests.antt =====
-- Three flights of two airframes of flight-groups.ts, and its theorems there.
use classg.Prelude.{
  ℕ, ◌≡◌, refl, String, Option, none, some, List, [], ◌∷◌, map, filter, count_if, All, min, str_eq,
  if◌then◌else◌, sort_by, insert,
}
use classg.Api.{Track, TrackState}
use classg.Tracks.Flights.{serial_key, aircraft_key}
use classg.Tracks.Groups.{group_by_aircraft, aircraft_label}
use classg.Tracks.Groups.Folding.{flown_by}
use classg.Tracks.Groups.Members.{SpansFlights, groups_gather}
use classg.Tracks.Groups.Once.{has_group_key, one_group_each}

abbrev parse : String → Option ℕ
parse t =
    if str_eq t "a"
    then some 10
    else if str_eq t "b"
    then some 20
    else if str_eq t "c"
    then some 30
    else none

abbrev flight : String → String → String → Option String → Option String → Track
flight id first last serial vendor = record {
  track_id = id;
  state = TrackState.closed;
  first_seen = first;
  last_seen = last;
  detection_count = 1;
  identity = some (record {
    serial = serial;
    macs = "m" ∷ [];
    vendor = vendor;
    ua_type = none;
    manufacturer_code = none;
    model_hint = none;
    operator_id = none;
  });
  confidence = 700;
  evidence = none;
  current = none;
  history = none;
  operator = none;
  adsb_correlated = none;
}

-- The second flight of the first airframe names its vendor, and begins before the first.
abbrev flights : List Track
flights =
    flight "T1" "b" "?" (some "S") none
    ∷ flight "T2" "b" "c" none none
    ∷ flight "T3" "a" "b" (some "S") (some "DJI")
    ∷ []

grouped :
    (map (λ g. g.label) (group_by_aircraft parse flights) ≡ "m" ∷ "S" ∷ [])
    × (map (λ g. g.vendor) (group_by_aircraft parse flights) ≡ none ∷ some "DJI" ∷ [])
    × (map (λ g. map (λ t. t.track_id) g.flights) (group_by_aircraft parse flights)
        ≡ ("T2" ∷ []) ∷ ("T1" ∷ "T3" ∷ []) ∷ [])
    × (map (λ g. g.first_seen_ms) (group_by_aircraft parse flights) ≡ some 20 ∷ some 10 ∷ [])
    × (map (λ g. g.last_seen_ms) (group_by_aircraft parse flights) ≡ some 30 ∷ some 20 ∷ [])
unfolding group_by_aircraft aircraft_label aircraft_key sort_by insert
grouped = (refl, refl, refl, refl, refl)

groups_gather_example :
    All
      (λ g. (g.flights ≡ filter (flown_by g.key) flights) × SpansFlights parse g)
      (group_by_aircraft parse flights)
groups_gather_example = groups_gather parse flights

one_group_each_example :
    count_if (has_group_key (serial_key "S")) (group_by_aircraft parse flights)
    ≡ min 1 (count_if (flown_by (serial_key "S")) flights)
one_group_each_example = one_group_each parse flights (serial_key "S")
