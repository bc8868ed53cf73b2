-- ===== src/Sensors/Detail.antt =====
-- services/ui/src/features/health/sensor-detail-groups.ts: the counters of a sensor under their
-- labels, in sections. `localeCompare(…) <= 0` is a parameter. The label of a key that is not known is
-- a parameter as well, the key with spaces for its underscores.
pub mod Keeps
mod Tests
use classg.Prelude.{
  ℕ, String, Bool, true, false, Option, none, some, List, [], ◌∷◌, ◌++◌, map, if◌then◌else◌, leb,
  ◌==◌, any, find, find_index, filter, is_some, str_eq, sort_by, lookup, put, get_or_else,
}
use classg.Api.{Json}

pub data DetailSection : Type 0 where
  section_radio section_traffic section_errors section_survey section_other : DetailSection

pub data DetailKind : Type 0 where
  kind_seconds kind_millis kind_fraction kind_prose kind_raw : DetailKind

pub record KnownDetail : Type 0 where
  pub key : String
  pub label : String
  pub section : DetailSection
  pub kind : DetailKind

abbrev known : String → String → DetailSection → DetailKind → KnownDetail
known key label section kind = record { key = key; label = label; section = section; kind = kind }

abbrev pub known_details : List KnownDetail
known_details =
    known "iface" "Interface" section_radio kind_raw
    ∷ known "channel" "Current channel" section_radio kind_raw
    ∷ known "connected" "Feed connected" section_radio kind_raw
    ∷ known "source" "Feed source" section_radio kind_raw
    ∷ known "subscribers" "Feed subscribers" section_radio kind_raw
    ∷ known "reconnects" "Reconnects" section_radio kind_raw
    ∷ known "uptime_s" "Sensor uptime" section_radio kind_seconds
    ∷ known "plan" "Channel plan" section_radio kind_raw
    ∷ known "plan_fallback" "Widened to full plan" section_radio kind_raw
    ∷ known "companion_iface" "Companion receiver" section_radio kind_raw
    ∷ known "companion_present" "Companion present" section_radio kind_raw
    ∷ known "plan_widened_for_peer" "Widened while peer busy" section_radio kind_raw
    ∷ known "plan_swaps" "Plan swaps" section_radio kind_raw
    ∷ known "peers_active" "Peer receiver busy" section_radio kind_raw
    ∷ known "peer_tracks_seen" "Peer tracks seen" section_radio kind_raw
    ∷ known "seconds_since_message" "Since last message" section_radio kind_seconds
    ∷ known "frames" "Frames heard" section_traffic kind_raw
    ∷ known "beacons" "Beacons heard" section_traffic kind_raw
    ∷ known "beacons_per_channel" "Beacons by channel" section_traffic kind_raw
    ∷ known "messages_read" "Messages read" section_traffic kind_raw
    ∷ known "parsed" "Messages parsed" section_traffic kind_raw
    ∷ known "icaos" "Aircraft heard" section_traffic kind_raw
    ∷ known "detections" "Drone detections" section_traffic kind_raw
    ∷ known "drone_hits_per_channel" "Drone hits by channel" section_traffic kind_raw
    ∷ known "class_a" "Class A (Remote ID)" section_traffic kind_raw
    ∷ known "class_b" "Class B (DJI DroneID)" section_traffic kind_raw
    ∷ known "class_c" "Class C (fingerprint)" section_traffic kind_raw
    ∷ known "hops" "Channel hops" section_traffic kind_raw
    ∷ known "scan_dwells" "Scan dwells" section_traffic kind_raw
    ∷ known "dwell_share" "Dwell share by channel" section_traffic kind_raw
    ∷ known "listening_fraction" "Time spent listening" section_traffic kind_fraction
    ∷ known "hop_overhead_ms" "Time lost to hopping" section_traffic kind_millis
    ∷ known "hop_latency_ms" "Cost per hop" section_traffic kind_millis
    ∷ known "hop_latency_measured" "Hop cost measured" section_traffic kind_raw
    ∷ known "escalations" "Escalations" section_traffic kind_raw
    ∷ known "currently_escalated" "Escalated right now" section_traffic kind_raw
    ∷ known "channel_errors" "Channel errors" section_errors kind_raw
    ∷ known "parse_errors" "Parse errors" section_errors kind_raw
    ∷ known "read_errors" "Read errors" section_errors kind_raw
    ∷ known "unparsed" "Unparsed messages" section_errors kind_raw
    ∷ known "survey_available" "Survey available" section_survey kind_raw
    ∷ known "survey_seen" "Survey entries" section_survey kind_raw
    ∷ known "survey_reason" "Survey note" section_survey kind_prose
    ∷ []

abbrev pub section_rank : DetailSection → ℕ
section_rank section_radio = 0
section_rank section_traffic = 1
section_rank section_errors = 2
section_rank section_survey = 3
section_rank section_other = 4

abbrev pub section_eq : DetailSection → DetailSection → Bool
section_eq a b = section_rank a == section_rank b

abbrev pub section_order : List DetailSection
section_order =
    section_radio ∷ section_traffic ∷ section_errors ∷ section_survey ∷ section_other ∷ []

pub record DetailRow : Type 0 where
  pub key : String
  pub label : String
  pub value : Json
  pub kind : DetailKind

pub record DetailGroup : Type 0 where
  pub section : DetailSection
  pub rows : List DetailRow

-- `KNOWN[key]`, and `KNOWN_ORDER.indexOf(key)`, `none` for -1.
pub known_detail : String → Option KnownDetail
known_detail key = find (λ d. str_eq d.key key) known_details

pub known_index : String → Option ℕ
known_index key = find_index (λ d. str_eq d.key key) known_details

abbrev pub section_of : Option KnownDetail → DetailSection
section_of none = section_other
section_of (some d) = d.section

abbrev label_of : Option KnownDetail → String → String
label_of none spaced = spaced
label_of (some d) spaced = d.label

abbrev kind_of : Option KnownDetail → DetailKind
kind_of none = kind_raw
kind_of (some d) = d.kind

-- The comparator on two indices, at most 0.
abbrev pub index_first : Option ℕ → Option ℕ → Bool → Bool
index_first none none by_key = by_key
index_first none (some b) by_key = false
index_first (some a) none by_key = true
index_first (some a) (some b) by_key = leb a b

abbrev pub omits : List String → String → Bool
omits omit key = any (str_eq key) omit

module _ (spaced : String → String) (key_before : String → String → Bool) where
  abbrev pub row_of : String × Json → DetailRow
  row_of (key, value) = record {
    key = key;
    label = label_of (known_detail key) (spaced key);
    value = value;
    kind = kind_of (known_detail key);
  }

  abbrev pub row_first : DetailRow → DetailRow → Bool
  row_first a b = index_first (known_index a.key) (known_index b.key) (key_before a.key b.key)

  abbrev pub add_row :
      List String
      → List (DetailSection × List DetailRow)
      → String × Json
      → List (DetailSection × List DetailRow)
  add_row omit m (key, value) =
      if omits omit key
      then m
      else put section_eq m (section_of (known_detail key)) (
          get_or_else (lookup section_eq m (section_of (known_detail key))) []
          ++ row_of (key, value) ∷ [])

  abbrev pub by_section :
      List String
      → List (DetailSection × List DetailRow)
      → List (String × Json)
      → List (DetailSection × List DetailRow)
  by_section omit m [] = m
  by_section omit m (e ∷ es) = by_section omit (add_row omit m e) es

  abbrev pub group_at : List (DetailSection × List DetailRow) → DetailSection → DetailGroup
  group_at m section = record {
    section = section;
    rows = sort_by row_first (get_or_else (lookup section_eq m section) []);
  }

  pub group_sensor_detail : List (String × Json) → List String → List DetailGroup
  group_sensor_detail detail omit =
      let m = by_section omit [] detail in
      map (group_at m) (filter (λ s. is_some (lookup section_eq m s)) section_order)
