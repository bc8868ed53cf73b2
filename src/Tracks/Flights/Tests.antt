-- ===== src/Tracks/Flights/Tests.antt =====
-- Three flights of flight-metrics.ts, and its theorems there.
use classg.Prelude.{
  filter, ℕ, ◌≡◌, refl, String, true, Option, none, some, List, [], ◌∷◌, map, str_eq, sort_by,
  insert, if◌then◌else◌, text_ltb, not,
}
use mathlib.Core.List.{Perm}
use classg.Api.{Track, TrackState, Position}
use classg.Tracks.Flights.{
  agl, sort_value, sort_flights, order_flights, flight_neighbours, flights_around, max_height_agl_m,
  flight_positions,
}
use classg.Tracks.Flights.Sorting.{IsInDirection, same_value, sort_flights_sinks}

abbrev parse : String → Option ℕ
parse t = if str_eq t "a" then some 1 else if str_eq t "b" then some 2 else none

abbrev flight : String → String → Option Position → Track
flight id first current = record {
  track_id = id;
  state = TrackState.closed;
  first_seen = first;
  last_seen = "b";
  detection_count = 1;
  identity = none;
  confidence = 700;
  evidence = none;
  current = current;
  history = none;
  operator = none;
  adsb_correlated = none;
}

abbrev at_height : Option ℕ → Option Position
at_height h =
    some
      (record { lat = 0; lon = 0; track_deg = none; height_agl_m = h; speed_mps = none; at = none })

abbrev low : Track
low = flight "T1" "a" (at_height (some 20))

abbrev middle : Track
middle = flight "T2" "b" none

abbrev high : Track
high = flight "T3" "?" (at_height (some 90))

abbrev flights : List Track
flights = middle ∷ low ∷ high ∷ []

calls : Unit {0}
unfolding sort_flights sort_by insert sort_value max_height_agl_m flight_positions order_flights
    flight_neighbours flights_around text_ltb
calls = tt

sorted_by_height :
    (map (λ t. t.track_id) (sort_flights parse agl true flights) ≡ "T3" ∷ "T1" ∷ "T2" ∷ [])
    × (map (λ t. t.track_id) (order_flights parse (λ a b. not (text_ltb b a)) flights)
        ≡ "T1" ∷ "T2" ∷ "T3" ∷ [])
unfolding calls
sorted_by_height = (refl, refl)

sort_flights_sinks_example :
    Perm (sort_flights parse agl true flights) flights
    × IsInDirection true (map (sort_value parse agl) (sort_flights parse agl true flights))
    × (filter (λ t. same_value (sort_value parse agl t) none) (sort_flights parse agl true flights)
        ≡ filter (λ t. same_value (sort_value parse agl t) none) flights)
sort_flights_sinks_example = sort_flights_sinks parse agl true flights none
