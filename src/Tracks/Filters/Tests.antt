-- ===== src/Tracks/Filters/Tests.antt =====
-- Three flights under the filters of flight-filters.ts, and its theorem there.
use classg.Prelude.{
  ℕ, ◌*◌, ◌≡◌, refl, String, Bool, true, Option, none, some, List, [], ◌∷◌, map, All, str_eq,
  if◌then◌else◌, sort_by, insert, text_ltb, not,
}
use classg.Api.{Track, TrackState, Evidence, DetectionClass, SensorKind}
use classg.Tracks.Filters.{
  FlightFilters, filter_flights, matches_facet, searchable_identity, day_range_ms,
}
use classg.Tracks.Filters.Facets.{
  FlightFacets, flight_facets, vendor_options, operator_options, detection_options, chosen,
}
use classg.Tracks.Filters.Offers.{IsHonest}
use classg.Tracks.Filters.Thresholds.{picked, flight_facets-IsHonest}

abbrev parse : String → Option ℕ
parse t = if str_eq t "a" then some 0 else if str_eq t "b" then some 120_000 else none

abbrev day_start : ℕ → ℕ → ℕ → Option ℕ
day_start y m d = some (d * 86_400_000)

abbrev same_text : String → String
same_text s = s

abbrev not_after : String → String → Bool
not_after a b = not (text_ltb b a)

abbrev seen : DetectionClass → Evidence
seen c = record { detection_class = c; sensor_kind = SensorKind.wifi; weight = 500; count = 1 }

abbrev flight : String → Option String → List Evidence → ℕ → Track
flight id vendor evidence n = record {
  track_id = id;
  state = TrackState.closed;
  first_seen = "a";
  last_seen = "b";
  detection_count = n;
  identity = some (record {
    serial = some "S9";
    macs = [];
    vendor = vendor;
    ua_type = none;
    manufacturer_code = none;
    model_hint = none;
    operator_id = none;
  });
  confidence = 700;
  evidence = some evidence;
  current = none;
  history = none;
  operator = none;
  adsb_correlated = none;
}

abbrev flights : List Track
flights =
    flight "T1" (some "DJI") (seen DetectionClass.class_a ∷ seen DetectionClass.class_a ∷ []) 20
    ∷ flight "T2" (some "DJI") (seen DetectionClass.class_b ∷ []) 5
    ∷ flight "T3" (some "Parrot") (seen DetectionClass.class_a ∷ []) 200
    ∷ []

-- A vendor and a least number of detections are selected.
abbrev filters : FlightFilters
filters = record {
  q = some "S9";
  day = none;
  vendor = some "Parrot";
  evidence = none;
  operator = some true;
  min_duration_s = none;
  min_detections = some 10;
}

abbrev no_operator : FlightFilters
no_operator = record filters { operator = none }

abbrev offered : FlightFilters → FlightFacets
offered f = flight_facets parse day_start same_text same_text not_after flights f

runs :
    (map
        (λ t. t.track_id)
        (filter_flights parse day_start same_text same_text flights no_operator none)
      ≡ "T3" ∷ [])
    × (map (λ o. o.value) (offered no_operator).vendor ≡ "DJI" ∷ "Parrot" ∷ [])
    × (map (λ o. o.count) (offered no_operator).vendor ≡ 1 ∷ 1 ∷ [])
    × (map (λ o. o.value) (offered no_operator).detections ≡ 10 ∷ 100 ∷ [])
    × (map (λ o. o.count) (offered filters).operator ≡ 0 ∷ 1 ∷ [])
unfolding filter_flights matches_facet searchable_identity flight_facets vendor_options
    operator_options detection_options sort_by insert text_ltb
runs = (refl, refl, refl, refl, refl)

leap_day :
    day_range_ms parse day_start same_text same_text "2024-02-29"
    ≡ some (2_505_600_000, some 2_592_000_000)
unfolding day_range_ms
leap_day = refl

flight_facets-IsHonest_example :
    (All
      (IsHonest
        (λ v. record filters { vendor = some v })
        (picked parse day_start same_text same_text not_after flights filters)
        (chosen filters.vendor))
      (offered filters).vendor)
    × (All
        (IsHonest
          (λ c. record filters { evidence = some c })
          (picked parse day_start same_text same_text not_after flights filters)
          filters.evidence)
        (offered filters).evidence)
    × (All
        (IsHonest
          (λ b. record filters { operator = some b })
          (picked parse day_start same_text same_text not_after flights filters)
          filters.operator)
        (offered filters).operator)
    × (All
        (IsHonest
          (λ s. record filters { min_duration_s = some s })
          (picked parse day_start same_text same_text not_after flights filters)
          filters.min_duration_s)
        (offered filters).duration)
    × (All
        (IsHonest
          (λ n. record filters { min_detections = some n })
          (picked parse day_start same_text same_text not_after flights filters)
          filters.min_detections)
        (offered filters).detections)
flight_facets-IsHonest_example =
    flight_facets-IsHonest parse day_start same_text same_text not_after flights filters
