-- ===== src/Tracks/Filters/Facets.antt =====
-- services/ui/src/features/tracks/flight-filters.ts: `flightFacets`, the options of each facet with
-- their counts. `localeCompare(…) <= 0` is a parameter.
use classg.Prelude.{
  ℕ, ◌-◌, String, Bool, true, false, Option, none, some, List, [], ◌∷◌, ◌++◌, ◌||◌, ◌==◌, map,
  if◌then◌else◌, ltb, leb, any, filter, length, truthy, get_or_else, str_eq, sort_by, tally, lookup,
  put, is_some,
}
use classg.Api.{Track, Evidence, DetectionClass}
use classg.Live.Frames.{vendor_of}
use classg.Tracks.Flights.{flight_duration, has_operator_fix}
use classg.Tracks.Filters.{
  FlightFilters, FlightFacet, by_vendor, by_evidence, by_operator, by_min_duration_s,
  by_min_detections, class_eq, class_rank, lasts, filter_flights,
}

pub record FacetOption {ℓ} (A : Type ℓ) : Type ℓ where
  pub value : A
  pub count : ℕ

pub record FlightFacets : Type 0 where
  pub vendor : List (FacetOption String)
  pub evidence : List (FacetOption DetectionClass)
  pub operator : List (FacetOption Bool)
  pub duration : List (FacetOption ℕ)
  pub detections : List (FacetOption ℕ)

abbrev pub duration_thresholds_s : List ℕ
duration_thresholds_s = 60 ∷ 300 ∷ 900 ∷ []

abbrev pub detection_thresholds : List ℕ
detection_thresholds = 10 ∷ 100 ∷ 1_000 ∷ []

-- `if (vendor)` for each flight.
abbrev pub vendor_keys : List Track → List String
vendor_keys [] = []
vendor_keys (t ∷ ts) =
    if truthy (vendor_of t.identity)
    then get_or_else (vendor_of t.identity) "" ∷ vendor_keys ts
    else vendor_keys ts

-- `new Set(classes)`, in the order of first occurrence.
abbrev pub add_class : List DetectionClass → DetectionClass → List DetectionClass
add_class cs c = if any (class_eq c) cs then cs else cs ++ c ∷ []

abbrev pub class_set : List DetectionClass → List Evidence → List DetectionClass
class_set cs [] = cs
class_set cs (e ∷ es) = class_set (add_class cs e.detection_class) es

abbrev pub class_keys : List Track → List DetectionClass
class_keys [] = []
class_keys (t ∷ ts) = class_set [] (get_or_else t.evidence []) ++ class_keys ts

-- `if (selected && !counts.has(selected)) counts.set(selected, 0)`
abbrev pub keep_selected {ℓ} :
    {K : Type ℓ} → (K → K → Bool) → Option K → List (K × ℕ) → List (K × ℕ)
keep_selected eq none m = m
keep_selected eq (some k) m = if is_some (lookup eq m k) then m else put eq m k 0

-- A selected vendor, the empty text being none.
abbrev pub chosen : Option String → Option String
chosen v = if truthy v then v else none

abbrev pub to_option {ℓ} : {K : Type ℓ} → K × ℕ → FacetOption K
to_option (k, n) = record { value = k; count = n }

abbrev pub class_first : DetectionClass × ℕ → DetectionClass × ℕ → Bool
class_first (a, n) (b, k) = leb (class_rank a) (class_rank b)

-- `min === value`, and `count > 0 || selected === value`.
abbrev pub is_threshold : Option ℕ → ℕ → Bool
is_threshold none value = false
is_threshold (some min) value = min == value

abbrev pub offered : Option ℕ → FacetOption ℕ → Bool
offered selected o = ltb 0 o.count || is_threshold selected o.value

abbrev pub is_choice : Option Bool → Bool → Bool
is_choice none value = false
is_choice (some true) value = value
is_choice (some false) value = if value then false else true

abbrev pub offered_choice : Option Bool → FacetOption Bool → Bool
offered_choice selected o = ltb 0 o.count || is_choice selected o.value

module _ (parse : String → Option ℕ) (day_start : ℕ → ℕ → ℕ → Option ℕ)
    (lower trim : String → String) (id_before : String → String → Bool) where
  -- The flights against which a facet counts.
  abbrev pub rows_for : List Track → FlightFilters → FlightFacet → List Track
  rows_for ts f facet = filter_flights parse day_start lower trim ts f (some facet)

  abbrev pub vendor_first : String × ℕ → String × ℕ → Bool
  vendor_first (a, n) (b, k) = if n == k then id_before a b else ltb k n

  unfoldable pub vendor_options : List Track → FlightFilters → List (FacetOption String)
  vendor_options ts f =
      let counts = tally str_eq [] (vendor_keys (rows_for ts f by_vendor)) in
      map to_option (sort_by vendor_first (keep_selected str_eq (chosen f.vendor) counts))

  unfoldable pub evidence_options : List Track → FlightFilters → List (FacetOption DetectionClass)
  evidence_options ts f =
      let counts = tally class_eq [] (class_keys (rows_for ts f by_evidence)) in
      map to_option (sort_by class_first (keep_selected class_eq f.evidence counts))

  unfoldable pub operator_options : List Track → FlightFilters → List (FacetOption Bool)
  operator_options ts f =
      let rows = rows_for ts f by_operator in
      let located = length (filter has_operator_fix rows) in
      filter (offered_choice f.operator) (
        record { value = true; count = located }
        ∷ record { value = false; count = length rows - located }
        ∷ [])

  unfoldable pub duration_options : List Track → FlightFilters → List (FacetOption ℕ)
  duration_options ts f =
      let rows = rows_for ts f by_min_duration_s in
      filter (offered f.min_duration_s) (
        map
          (λ s. record {
            value = s;
            count = length (filter (λ t. lasts (flight_duration parse t) s) rows);
          })
          duration_thresholds_s)

  unfoldable pub detection_options : List Track → FlightFilters → List (FacetOption ℕ)
  detection_options ts f =
      let rows = rows_for ts f by_min_detections in
      filter (offered f.min_detections) (
        map
          (λ min. record {
            value = min;
            count = length (filter (λ t. leb min t.detection_count) rows);
          })
          detection_thresholds)

  unfoldable pub flight_facets : List Track → FlightFilters → FlightFacets
  flight_facets ts f = record {
    vendor = vendor_options ts f;
    evidence = evidence_options ts f;
    operator = operator_options ts f;
    duration = duration_options ts f;
    detections = detection_options ts f;
  }
