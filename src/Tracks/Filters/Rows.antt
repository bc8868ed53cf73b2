-- ===== src/Tracks/Filters/Rows.antt =====
-- services/ui/src/features/tracks/flight-filters.ts: the flights that a pick leaves.
use classg.Prelude.{
  ℕ, ◌≡◌, String, Bool, true, Option, none, some, List, all, leb, filter, opt_eq, truthy,
}
use classg.Api.{Track, DetectionClass}
use classg.Live.Frames.{vendor_of}
use classg.Tracks.Flights.{flight_duration, has_operator_fix}
use classg.Tracks.Filters.{
  FlightFilters, FlightFacet, by_vendor, by_evidence, by_operator, by_min_duration_s,
  by_min_detections, all_facets, passes, filter_flights, has_class, lasts, same_bool,
}
use classg.Tracks.Filters.Facets.{rows_for}
use classg.Tracks.Filters.Picks.{
  pick_vendor, pick_evidence, pick_operator, pick_min_duration, pick_min_detections,
}
use classg.Tracks.Filters.Counts.{filter-and}

module _ (parse : String → Option ℕ) (day_start : ℕ → ℕ → ℕ → Option ℕ)
    (lower trim : String → String) (id_before : String → String → Bool) (ts : List Track)
    (f : FlightFilters) where
  abbrev pub rows : FlightFilters → List Track
  rows g = filter_flights parse day_start lower trim ts g none

  abbrev pub rows_but : FlightFacet → List Track
  rows_but facet = rows_for parse day_start lower trim id_before ts f facet

  abbrev through : FlightFilters → Option FlightFacet → Track → Bool
  through g except t = all (passes parse day_start lower trim g except t) all_facets

  pub vendor_rows :
      (v : String)
      → truthy (some v) ≡ true
      → rows (record f { vendor = some v })
        ≡ filter (λ t. opt_eq (vendor_of t.identity) v) (rows_but by_vendor)
  unfolding filter_flights
  vendor_rows v e =
      filter-and (through f (some by_vendor)) (through (record f { vendor = some v }) none) _
        (λ t. pick_vendor parse day_start lower trim f t v e) ts

  pub evidence_rows :
      (c : DetectionClass)
      → rows (record f { evidence = some c }) ≡ filter (has_class c) (rows_but by_evidence)
  unfolding filter_flights
  evidence_rows c =
      filter-and (through f (some by_evidence)) (through (record f { evidence = some c }) none)
        (has_class c) (λ t. pick_evidence parse day_start lower trim f t c) ts

  pub operator_rows :
      (wanted : Bool)
      → rows (record f { operator = some wanted })
        ≡ filter (λ t. same_bool (has_operator_fix t) wanted) (rows_but by_operator)
  unfolding filter_flights
  operator_rows wanted =
      filter-and (through f (some by_operator)) (through (record f { operator = some wanted }) none)
        _ (λ t. pick_operator parse day_start lower trim f t wanted) ts

  pub duration_rows :
      (min : ℕ)
      → rows (record f { min_duration_s = some min })
        ≡ filter (λ t. lasts (flight_duration parse t) min) (rows_but by_min_duration_s)
  unfolding filter_flights
  duration_rows min =
      filter-and (through f (some by_min_duration_s))
        (through (record f { min_duration_s = some min }) none) _
        (λ t. pick_min_duration parse day_start lower trim f t min) ts

  pub detection_rows :
      (min : ℕ)
      → rows (record f { min_detections = some min })
        ≡ filter (λ t. leb min t.detection_count) (rows_but by_min_detections)
  unfolding filter_flights
  detection_rows min =
      filter-and (through f (some by_min_detections))
        (through (record f { min_detections = some min }) none) _
        (λ t. pick_min_detections parse day_start lower trim f t min) ts
