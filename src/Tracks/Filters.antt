-- ===== src/Tracks/Filters.antt =====
-- services/ui/src/features/tracks/flight-filters.ts: the filters of the flights and the options that
-- each facet offers, with dayRangeMs of flight-time.ts. `Date.parse`, the time at which a day of the
-- calendar begins, `toLowerCase`, `trim` and `localeCompare(…) <= 0` are parameters. A duration is in
-- milliseconds, and its thresholds in seconds. The labels of the options are left out.
pub mod Facets
pub mod Picks
pub mod Counts
pub mod Classes
pub mod Rows
pub mod Offers
pub mod Thresholds
mod Tests
use classg.Prelude.{
  ℕ, suc, ◌+◌, ◌-◌, ◌*◌, String, Bool, true, false, Option, none, some, List, [], ◌∷◌, ◌&&◌, ◌||◌,
  map, if◌then◌else◌, ltb, leb, ◌==◌, not, any, all, filter, str_eq, str_append, opt_eq, truthy,
  codes, get_or_else, includes,
}
use classg.Api.{Track, Identity, DetectionClass}
use classg.Live.Frames.{vendor_of}
use classg.Tracks.Flights.{flight_start_ms, flight_duration, has_operator_fix}

abbrev pub class_rank : DetectionClass → ℕ
class_rank DetectionClass.class_a = 0
class_rank DetectionClass.class_b = 1
class_rank DetectionClass.class_c = 2
class_rank DetectionClass.class_d = 3
class_rank DetectionClass.class_e = 4
class_rank DetectionClass.class_f = 5
class_rank DetectionClass.class_g = 6
class_rank DetectionClass.class_h = 7

abbrev pub class_eq : DetectionClass → DetectionClass → Bool
class_eq a b = class_rank a == class_rank b

-- `.filter(Boolean).join(' ')`
abbrev join_words : List (Option String) → String
join_words [] = ""
join_words (w ∷ ws) =
    let rest = join_words ws in
    if truthy w
    then if str_eq rest ""
      then get_or_else w ""
      else str_append (get_or_else w "") (str_append " " rest)
    else rest

abbrev identity_words : Option Identity → String → List (Option String)
identity_words none id = some id ∷ []
identity_words (some i) id =
    i.serial
    ∷ i.manufacturer_code
    ∷ i.vendor
    ∷ i.model_hint
    ∷ i.operator_id
    ∷ some id
    ∷ map (λ mac. some mac) i.macs

pub searchable_identity : Track → String
searchable_identity t = join_words (identity_words t.identity t.track_id)

pub record FlightFilters : Type 0 where
  pub q : Option String
  pub day : Option String
  pub vendor : Option String
  pub evidence : Option DetectionClass
  pub operator : Option Bool
  pub min_duration_s : Option ℕ
  pub min_detections : Option ℕ

pub data FlightFacet : Type 0 where
  by_q by_day by_vendor by_evidence by_operator by_min_duration_s by_min_detections : FlightFacet

abbrev pub facet_eq : FlightFacet → FlightFacet → Bool
facet_eq by_q by_q = true
facet_eq by_day by_day = true
facet_eq by_vendor by_vendor = true
facet_eq by_evidence by_evidence = true
facet_eq by_operator by_operator = true
facet_eq by_min_duration_s by_min_duration_s = true
facet_eq by_min_detections by_min_detections = true
facet_eq _ _ = false

abbrev pub all_facets : List FlightFacet
all_facets =
    by_q ∷ by_day ∷ by_vendor ∷ by_evidence ∷ by_operator ∷ by_min_duration_s ∷ by_min_detections
    ∷ []

-- A digit, a number of these digits, and `^(\d{4})-(\d{2})-(\d{2})$`.
abbrev is_digit : ℕ → Bool
is_digit c = leb 48 c && leb c 57

abbrev number_of : ℕ → List ℕ → ℕ
number_of n [] = n
number_of n (c ∷ cs) = number_of (n * 10 + (c - 48)) cs

abbrev pub date_parts : List ℕ → Option (ℕ × ℕ × ℕ)
date_parts (a ∷ b ∷ c ∷ d ∷ e ∷ f ∷ g ∷ h ∷ i ∷ j ∷ []) =
    if all is_digit (a ∷ b ∷ c ∷ d ∷ f ∷ g ∷ i ∷ j ∷ []) && (e == 45 && h == 45)
    then some (number_of 0 (a ∷ b ∷ c ∷ d ∷ []), number_of 0 (f ∷ g ∷ []), number_of 0 (i ∷ j ∷ []))
    else none
date_parts _ = none

-- The start, and the end, which is missing where the day after has no time.
abbrev pub range_of : Option ℕ → Option ℕ → Option (ℕ × Option ℕ)
range_of none end = none
range_of (some start) end = some (start, end)

abbrev pub day_range_of : (ℕ → ℕ → ℕ → Option ℕ) → Option (ℕ × ℕ × ℕ) → Option (ℕ × Option ℕ)
day_range_of day_start none = none
day_range_of day_start (some (y, m, d)) = range_of (day_start y m d) (day_start y m (suc d))

abbrev pub before_end : ℕ → Option ℕ → Bool
before_end ms none = false
before_end ms (some end) = ltb ms end

abbrev pub in_range : Option (ℕ × Option ℕ) → Option ℕ → Bool
in_range none start = true
in_range (some (from, to)) none = false
in_range (some (from, to)) (some ms) = leb from ms && before_end ms to

abbrev pub has_class : DetectionClass → Track → Bool
has_class c t = any (λ e. class_eq e.detection_class c) (get_or_else t.evidence [])

abbrev same_bool : Bool → Bool → Bool
same_bool true b = b
same_bool false b = not b

abbrev pub lasts : Option ℕ → ℕ → Bool
lasts none min = false
lasts (some ms) min = leb (min * 1_000) ms

abbrev vendor_matches : Option String → Track → Bool
vendor_matches wanted t =
    if truthy wanted then opt_eq (vendor_of t.identity) (get_or_else wanted "") else true

abbrev class_matches : Option DetectionClass → Track → Bool
class_matches none t = true
class_matches (some c) t = has_class c t

abbrev operator_matches : Option Bool → Track → Bool
operator_matches none t = true
operator_matches (some wanted) t = same_bool (has_operator_fix t) wanted

abbrev detections_match : Option ℕ → Track → Bool
detections_match none t = true
detections_match (some min) t = leb min t.detection_count

module _ (parse : String → Option ℕ) (day_start : ℕ → ℕ → ℕ → Option ℕ)
    (lower trim : String → String) where
  -- `dayRangeMs`
  pub day_range_ms : String → Option (ℕ × Option ℕ)
  day_range_ms key = day_range_of day_start (date_parts (codes key))

  abbrev q_matches : Option String → Track → Bool
  q_matches none t = true
  q_matches (some typed) t =
      let q = lower (trim typed) in
      if str_eq q "" then true else includes (lower (searchable_identity t)) q

  abbrev day_matches : Option String → Track → Bool
  day_matches day t =
      if truthy day
      then in_range (day_range_ms (get_or_else day "")) (flight_start_ms parse t)
      else true

  abbrev duration_matches : Option ℕ → Track → Bool
  duration_matches none t = true
  duration_matches (some min) t = lasts (flight_duration parse t) min

  pub matches_facet : Track → FlightFacet → FlightFilters → Bool
  matches_facet t by_q f = q_matches f.q t
  matches_facet t by_day f = day_matches f.day t
  matches_facet t by_vendor f = vendor_matches f.vendor t
  matches_facet t by_evidence f = class_matches f.evidence t
  matches_facet t by_operator f = operator_matches f.operator t
  matches_facet t by_min_duration_s f = duration_matches f.min_duration_s t
  matches_facet t by_min_detections f = detections_match f.min_detections t

  -- The facet left out, or a match.
  abbrev pub passes : FlightFilters → Option FlightFacet → Track → FlightFacet → Bool
  passes f none t facet = matches_facet t facet f
  passes f (some except) t facet = facet_eq facet except || matches_facet t facet f

  pub filter_flights : List Track → FlightFilters → Option FlightFacet → List Track
  filter_flights ts f except = filter (λ t. all (passes f except t) all_facets) ts
