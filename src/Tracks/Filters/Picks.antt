-- ===== src/Tracks/Filters/Picks.antt =====
-- services/ui/src/features/tracks/flight-filters.ts: a facet picked instead is the other facets and
-- the test of the pick.
use classg.Prelude.{
  ℕ, ◌≡◌, arith, String, Bool, true, Option, none, some, ◌&&◌, all, leb, opt_eq, truthy,
}
use classg.Api.{Track, DetectionClass}
use classg.Live.Frames.{vendor_of}
use classg.Tracks.Flights.{flight_duration, has_operator_fix}
use classg.Tracks.Filters.{
  FlightFilters, FlightFacet, by_q, by_day, by_vendor, by_evidence, by_operator, by_min_duration_s,
  by_min_detections, all_facets, passes, matches_facet, has_class, lasts, same_bool,
}

third :
    (a b c d e g test : Bool)
    → (a && (b && (test && (c && (d && (e && (g && true)))))))
      ≡ ((a && (b && (true && (c && (d && (e && (g && true))))))) && test)
third a b c d e g test = ground arith

fourth :
    (a b c d e g test : Bool)
    → (a && (b && (c && (test && (d && (e && (g && true)))))))
      ≡ ((a && (b && (c && (true && (d && (e && (g && true))))))) && test)
fourth a b c d e g test = ground arith

fifth :
    (a b c d e g test : Bool)
    → (a && (b && (c && (d && (test && (e && (g && true)))))))
      ≡ ((a && (b && (c && (d && (true && (e && (g && true))))))) && test)
fifth a b c d e g test = ground arith

sixth :
    (a b c d e g test : Bool)
    → (a && (b && (c && (d && (e && (test && (g && true)))))))
      ≡ ((a && (b && (c && (d && (e && (true && (g && true))))))) && test)
sixth a b c d e g test = ground arith

seventh :
    (a b c d e g test : Bool)
    → (a && (b && (c && (d && (e && (g && (test && true)))))))
      ≡ ((a && (b && (c && (d && (e && (g && (true && true))))))) && test)
seventh a b c d e g test = ground arith

module _ (parse : String → Option ℕ) (day_start : ℕ → ℕ → ℕ → Option ℕ)
    (lower trim : String → String) (f : FlightFilters) where
  -- A flight meets every facet, or every one but one.
  abbrev pub passes_all : FlightFilters → Option FlightFacet → Track → Bool
  passes_all g except t = all (passes parse day_start lower trim g except t) all_facets

  module _ (t : Track) where
    abbrev m : FlightFacet → Bool
    m facet = matches_facet parse day_start lower trim t facet f

    pub pick_vendor :
        (v : String)
        → truthy (some v) ≡ true
        → passes_all (record f { vendor = some v }) none t
          ≡ (passes_all f (some by_vendor) t && opt_eq (vendor_of t.identity) v)
    unfolding matches_facet
    pick_vendor v e = rw e (
        third (m by_q) (m by_day) (m by_evidence) (m by_operator) (m by_min_duration_s)
          (m by_min_detections) (opt_eq (vendor_of t.identity) v))

    pub pick_evidence :
        (c : DetectionClass)
        → passes_all (record f { evidence = some c }) none t
          ≡ (passes_all f (some by_evidence) t && has_class c t)
    unfolding matches_facet
    pick_evidence c =
        fourth (m by_q) (m by_day) (m by_vendor) (m by_operator) (m by_min_duration_s)
          (m by_min_detections) (has_class c t)

    pub pick_operator :
        (wanted : Bool)
        → passes_all (record f { operator = some wanted }) none t
          ≡ (passes_all f (some by_operator) t && same_bool (has_operator_fix t) wanted)
    unfolding matches_facet
    pick_operator wanted =
        fifth (m by_q) (m by_day) (m by_vendor) (m by_evidence) (m by_min_duration_s)
          (m by_min_detections) (same_bool (has_operator_fix t) wanted)

    pub pick_min_duration :
        (min : ℕ)
        → passes_all (record f { min_duration_s = some min }) none t
          ≡ (passes_all f (some by_min_duration_s) t && lasts (flight_duration parse t) min)
    unfolding matches_facet
    pick_min_duration min =
        sixth (m by_q) (m by_day) (m by_vendor) (m by_evidence) (m by_operator)
          (m by_min_detections) (lasts (flight_duration parse t) min)

    pub pick_min_detections :
        (min : ℕ)
        → passes_all (record f { min_detections = some min }) none t
          ≡ (passes_all f (some by_min_detections) t && leb min t.detection_count)
    unfolding matches_facet
    pick_min_detections min =
        seventh (m by_q) (m by_day) (m by_vendor) (m by_evidence) (m by_operator)
          (m by_min_duration_s) (leb min t.detection_count)
