-- ===== src/Layout/Search/Index.antt =====
-- services/ui/src/components/layout/search-resolver.ts: `buildSearchIndex`.
use classg.Prelude.{
  String, Option, none, some, List, [], ◌∷◌, ◌||◌, map, if◌then◌else◌, str_eq, truthy, get_or_else,
  is_some, lookup, put,
}
use classg.Api.{Track, Identity, AircraftLabel, SensorHealth}
use classg.Live.Frames.{serial_of, vendor_of}
use classg.Layout.Search.{SerialEntry, MacEntry, SearchIndex}

-- `labelBySerial`, whose last label for a serial counts.
abbrev pub label_map : List (String × String) → List AircraftLabel → List (String × String)
label_map m [] = m
label_map m (l ∷ ls) = label_map (if str_eq l.label "" then m else put str_eq m l.serial l.label) ls

abbrev pub filled : Option String → Option String
filled v = if truthy v then v else none

abbrev macs_of : Option Identity → List String
macs_of none = []
macs_of (some i) = i.macs

abbrev pub add_mac : Option String → List (String × MacEntry) → String → List (String × MacEntry)
add_mac vendor m mac =
    if str_eq mac "" || is_some (lookup str_eq m mac)
    then m
    else put str_eq m mac (record { value = mac; vendor = filled vendor })

abbrev pub add_macs :
    Option String → List (String × MacEntry) → List String → List (String × MacEntry)
add_macs vendor m [] = m
add_macs vendor m (mac ∷ macs) = add_macs vendor (add_mac vendor m mac) macs

abbrev pub mac_map : List (String × MacEntry) → List Track → List (String × MacEntry)
mac_map m [] = m
mac_map m (t ∷ ts) = mac_map (add_macs (vendor_of t.identity) m (macs_of t.identity)) ts

module _ (labels : List (String × String)) where
  abbrev pub new_serial : String → Option String → SerialEntry
  new_serial serial vendor = record {
    value = serial;
    vendor = filled vendor;
    label = lookup str_eq labels serial;
  }

  abbrev pub add_serial :
      List (String × SerialEntry) → String → Option String → List (String × SerialEntry)
  add_serial m serial vendor =
      if is_some (lookup str_eq m serial) then m else put str_eq m serial (new_serial serial vendor)

  abbrev pub serial_map : List (String × SerialEntry) → List Track → List (String × SerialEntry)
  serial_map m [] = m
  serial_map m (t ∷ ts) =
      serial_map
        (if truthy (serial_of t.identity)
          then add_serial m (get_or_else (serial_of t.identity) "") (vendor_of t.identity)
          else m)
        ts

  -- `for (const [serial, label] of labelBySerial)`
  abbrev pub with_labels :
      List (String × SerialEntry) → List (String × String) → List (String × SerialEntry)
  with_labels m [] = m
  with_labels m ((serial, label) ∷ ls) =
      with_labels
        (if is_some (lookup str_eq m serial)
          then m
          else put str_eq m serial (record { value = serial; vendor = none; label = some label }))
        ls

unfoldable pub build_search_index :
    List Track → List AircraftLabel → List SensorHealth → SearchIndex
build_search_index tracks labels sensors =
    let by_serial = label_map [] labels in
    record {
      track_ids = map (λ t. t.track_id) tracks;
      serials = map (λ e. e.1) (with_labels by_serial (serial_map by_serial [] tracks) by_serial);
      macs = map (λ e. e.1) (mac_map [] tracks);
      sensors = map (λ s. record { id = s.sensor_id; kind = s.sensor_kind }) sensors;
    }
