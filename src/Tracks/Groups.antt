-- ===== src/Tracks/Groups.antt =====
-- services/ui/src/features/tracks/flight-groups.ts: flights collected under the airframe that flew
-- them. `Date.parse` is a parameter, `none` where it answers NaN. The key of an airframe is the data
-- type of flight-metrics.ts, in place of its text.
pub mod Folding
pub mod Members
pub mod Once
mod Tests
use classg.Prelude.{
  ℕ, String, Bool, false, Option, none, some, List, [], ◌∷◌, ◌++◌, map, if◌then◌else◌, ltb, leb,
  sort_by, truthy, get_or_else, lookup, put, str_eq,
}
use classg.Api.{Track, Identity}
use classg.Live.Frames.{serial_of, vendor_of}
use classg.Tracks.Flights.{
  AircraftKey, serial_key, mac_key, track_key, aircraft_key, mac_of, flight_start_ms, flight_end_ms,
}

pub record AircraftGroup : Type 0 where
  pub key : AircraftKey
  pub label : String
  pub serial : Option String
  pub mac : Option String
  pub vendor : Option String
  pub ua_type : Option String
  pub flights : List Track
  pub first_seen_ms : Option ℕ
  pub last_seen_ms : Option ℕ

abbrev pub key_eq : AircraftKey → AircraftKey → Bool
key_eq (serial_key a) (serial_key b) = str_eq a b
key_eq (mac_key a) (mac_key b) = str_eq a b
key_eq (track_key a) (track_key b) = str_eq a b
key_eq _ _ = false

abbrev pub ua_type_of : Option Identity → Option String
ua_type_of none = none
ua_type_of (some i) = i.ua_type

-- `firstString`, on two values.
abbrev pub first_string : Option String → Option String → Option String
first_string a b = if truthy a then a else if truthy b then b else none

-- `serial ?? macs[0] ?? track_id`
abbrev pub or_else : Option String → Option String → Option String
or_else none b = b
or_else (some a) b = some a

pub aircraft_label : Track → String
aircraft_label t = get_or_else (or_else (serial_of t.identity) (mac_of t.identity)) t.track_id

-- The earlier, and the later, of a time that is known and one that a flight may have.
abbrev pub earlier : Option ℕ → Option ℕ → Option ℕ
earlier seen none = seen
earlier none (some ms) = some ms
earlier (some s) (some ms) = if ltb ms s then some ms else some s

abbrev pub later : Option ℕ → Option ℕ → Option ℕ
later seen none = seen
later none (some ms) = some ms
later (some s) (some ms) = if ltb s ms then some ms else some s

abbrev pub newest_group : AircraftGroup → AircraftGroup → Bool
newest_group a b = leb (get_or_else b.last_seen_ms 0) (get_or_else a.last_seen_ms 0)

module _ (parse : String → Option ℕ) where
  abbrev pub new_group : Track → AircraftGroup
  new_group t = record {
    key = aircraft_key t;
    label = aircraft_label t;
    serial = serial_of t.identity;
    mac = mac_of t.identity;
    vendor = vendor_of t.identity;
    ua_type = ua_type_of t.identity;
    flights = t ∷ [];
    first_seen_ms = flight_start_ms parse t;
    last_seen_ms = flight_end_ms parse t;
  }

  abbrev pub add_flight : AircraftGroup → Track → AircraftGroup
  add_flight g t = record g {
    flights = g.flights ++ t ∷ [];
    serial = first_string g.serial (serial_of t.identity);
    mac = first_string g.mac (mac_of t.identity);
    vendor = first_string g.vendor (vendor_of t.identity);
    ua_type = first_string g.ua_type (ua_type_of t.identity);
    first_seen_ms = earlier g.first_seen_ms (flight_start_ms parse t);
    last_seen_ms = later g.last_seen_ms (flight_end_ms parse t);
  }

  abbrev pub joined : Option AircraftGroup → Track → AircraftGroup
  joined none t = new_group t
  joined (some g) t = add_flight g t

  -- The map of the groups after these flights.
  abbrev pub collect :
      List (AircraftKey × AircraftGroup) → List Track → List (AircraftKey × AircraftGroup)
  collect groups [] = groups
  collect groups (t ∷ ts) =
      let key = aircraft_key t in
      collect (put key_eq groups key (joined (lookup key_eq groups key) t)) ts

  pub group_by_aircraft : List Track → List AircraftGroup
  group_by_aircraft ts = sort_by newest_group (map (λ e. e.1) (collect [] ts))
