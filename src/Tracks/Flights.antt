-- ===== src/Tracks/Flights.antt =====
-- services/ui/src/features/tracks/flight-metrics.ts: the order of flights, the neighbours of one, the
-- window of a strip, and the sort by a measurement. `Date.parse` is a parameter, `none` where it
-- answers NaN, and so is `localeCompare(…) <= 0`. Durations are milliseconds. The distance to the
-- receiver and the signal strength are not modelled, nor are the two columns that sort by them.
pub mod Sorting
pub mod Strip
mod Tests
use classg.Prelude.{
  ℕ, zero, suc, ◌-◌, ◌/◌, String, Bool, true, false, Option, none, some, List, [], ◌∷◌, map,
  if◌then◌else◌, ltb, leb, ◌==◌, min, length, take, drop, find_index, get_elem?, sort_by, truthy,
  get_or_else, is_some,
}
use classg.Api.{Track, Identity, Position}
use classg.Live.Frames.{has_id, serial_of}
use classg.Logs.Bridge.{first_of}

pub data AircraftKey : Type 0 where
  serial_key mac_key track_key : String → AircraftKey

abbrev pub mac_of : Option Identity → Option String
mac_of none = none
mac_of (some i) = first_of i.macs

unfoldable pub aircraft_key : Track → AircraftKey
aircraft_key t =
    if truthy (serial_of t.identity)
    then serial_key (get_or_else (serial_of t.identity) "")
    else if truthy (mac_of t.identity)
    then mac_key (get_or_else (mac_of t.identity) "")
    else track_key t.track_id

abbrev positions_of : List Position → Option Position → List Position
positions_of (p ∷ ps) current = p ∷ ps
positions_of [] none = []
positions_of [] (some p) = p ∷ []

pub flight_positions : Track → List Position
flight_positions t = positions_of (get_or_else t.history []) t.current

-- `max === null || value > max`, for a value that is a number
abbrev larger : Option ℕ → Option ℕ → Option ℕ
larger max none = max
larger none (some v) = some v
larger (some m) (some v) = if ltb m v then some v else some m

abbrev pub largest : Option ℕ → List (Option ℕ) → Option ℕ
largest max [] = max
largest max (v ∷ vs) = largest (larger max v) vs

pub max_height_agl_m : Track → Option ℕ
max_height_agl_m t = largest none (map (λ p. p.height_agl_m) (flight_positions t))

pub max_speed_mps : Track → Option ℕ
max_speed_mps t = largest none (map (λ p. p.speed_mps) (flight_positions t))

abbrev pub has_operator_fix : Track → Bool
has_operator_fix t = is_some t.operator

abbrev pub span_of : Option ℕ → Option ℕ → Option ℕ
span_of none b = none
span_of (some a) none = none
span_of (some a) (some b) = if ltb b a then none else some (b - a)

-- The comparator of `orderFlights`, at most 0, on the two starts and the comparison of the ids.
abbrev pub start_before : Option ℕ → Option ℕ → Bool → Bool
start_before none none by_id = by_id
start_before none (some b) by_id = false
start_before (some a) none by_id = true
start_before (some a) (some b) by_id = if a == b then by_id else ltb a b

module _ (parse : String → Option ℕ) where
  abbrev pub flight_start_ms : Track → Option ℕ
  flight_start_ms t = parse t.first_seen

  abbrev pub flight_end_ms : Track → Option ℕ
  flight_end_ms t = parse t.last_seen

  pub flight_duration : Track → Option ℕ
  flight_duration t = span_of (flight_start_ms t) (flight_end_ms t)

  module _ (id_before : String → String → Bool) where
    abbrev pub flies_first : Track → Track → Bool
    flies_first a b =
        start_before (flight_start_ms a) (flight_start_ms b) (id_before a.track_id b.track_id)

    pub order_flights : List Track → List Track
    order_flights ts = sort_by flies_first ts

pub record FlightNeighbours : Type 0 where
  pub number : Option ℕ
  pub total : ℕ
  pub previous : Option Track
  pub next : Option Track

-- `ordered[index - 1] ?? null`
abbrev pub before_index : List Track → ℕ → Option Track
before_index ts zero = none
before_index ts (suc i) = get_elem? ts i

pub flight_neighbours : List Track → String → FlightNeighbours
flight_neighbours ordered id = elim (find_index (has_id id) ordered) [
  | none ↦ record { number = none; total = length ordered; previous = none; next = none }
  | some index ↦ record {
    number = some (suc index);
    total = length ordered;
    previous = before_index ordered index;
    next = get_elem? ordered (suc index);
  }
]

-- The index of the first flight of the strip.
abbrev pub strip_from : ℕ → ℕ → Option ℕ → ℕ
strip_from total max index = min (get_or_else index 0 - max / 2) (total - max)

-- The flights of the strip, and that index.
pub flights_around : List Track → String → ℕ → List Track × ℕ
flights_around ordered id max =
    let from = strip_from (length ordered) max (find_index (has_id id) ordered) in
    if leb (length ordered) max then (ordered, 0) else (take max (drop from ordered), from)

pub data FlightSortColumn : Type 0 where
  start duration agl detections : FlightSortColumn

pub record Keyed : Type 0 where
  pub track : Track
  pub value : Option ℕ

abbrev pub value_before : Bool → Option ℕ → Option ℕ → Bool
value_before desc none none = true
value_before desc none (some b) = false
value_before desc (some a) none = true
value_before true (some a) (some b) = leb b a
value_before false (some a) (some b) = leb a b

-- The comparator of the sort, at most 0.
abbrev pub sorts_first : Bool → Keyed → Keyed → Bool
sorts_first desc a b = value_before desc a.value b.value

module _ (parse : String → Option ℕ) where
  pub sort_value : FlightSortColumn → Track → Option ℕ
  sort_value start t = flight_start_ms parse t
  sort_value duration t = flight_duration parse t
  sort_value agl t = max_height_agl_m t
  sort_value detections t = some t.detection_count

  abbrev pub keyed : FlightSortColumn → List Track → List Keyed
  keyed column ts = map (λ t. record { track = t; value = sort_value column t }) ts

  pub sort_flights : FlightSortColumn → Bool → List Track → List Track
  sort_flights column desc ts = map (λ k. k.track) (sort_by (sorts_first desc) (keyed column ts))
