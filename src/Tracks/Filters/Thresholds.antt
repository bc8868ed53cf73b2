-- ===== src/Tracks/Filters/Thresholds.antt =====
-- services/ui/src/features/tracks/flight-filters.ts: the options with a fixed list of values, and
-- all the options together.
use classg.Prelude.{
  ℕ, ◌-◌, ◌<◌, ◌≡◌, refl, ◌⊎◌, inl, inr, arith, ap, sym, ◌∙◌, String, Bool, true, false, Option,
  none, some, List, [], ◌∷◌, ==_iff, filter, map, length, length-filter-le, Bool-cases, All,
  All-filter_of,
}
use classg.Api.{Track}
use classg.Tracks.Flights.{has_operator_fix}
use classg.Tracks.Filters.{FlightFilters, by_operator, same_bool}
use classg.Tracks.Filters.Facets.{
  FacetOption, flight_facets, operator_options, duration_options, detection_options, chosen,
  offered, offered_choice, duration_thresholds_s, detection_thresholds,
}
use classg.Tracks.Filters.Rows.{rows, rows_but, operator_rows, duration_rows, detection_rows}
use classg.Tracks.Filters.Offers.{IsHonest, vendor_options-IsHonest, evidence_options-IsHonest}

offered_why :
    (selected : Option ℕ) (o : FacetOption ℕ)
    → offered selected o ≡ true
    → (0 < o.count) ⊎ (selected ≡ some o.value)
offered_why none o h = ground arith
offered_why (some s) o h = ground (arith, ==_iff s o.value)

offered_choice_why :
    (selected : Option Bool) (o : FacetOption Bool)
    → offered_choice selected o ≡ true
    → (0 < o.count) ⊎ (selected ≡ some o.value)
offered_choice_why none o h = ground arith
offered_choice_why (some true) o h = ground arith
offered_choice_why (some false) o h = ground arith

thresholds-IsHonest :
    (pick : ℕ → FlightFilters) (picked : FlightFilters → List Track) (selected : Option ℕ)
    (count : ℕ → ℕ)
    → ((s : ℕ) → count s ≡ length (picked (pick s)))
    → (values : List ℕ)
    → All
        (IsHonest pick picked selected)
        (filter (offered selected) (map (λ s. record { value = s; count = count s }) values))
thresholds-IsHonest pick picked selected count h [] = tt
thresholds-IsHonest pick picked selected count h (s ∷ values) =
    let o : FacetOption ℕ = record { value = s; count = count s } in
    let rest = thresholds-IsHonest pick picked selected count h values in
    elim (Bool-cases (offered selected o)) [
      | inl e ↦ rw e ((h s, offered_why selected o e), rest)
      | inr e ↦ rw e rest
    ]

module _ {A : Type 0} (p : A → Bool) where
  filter-same_true :
      (xs : List A) → length (filter p xs) ≡ length (filter (λ x. same_bool (p x) true) xs)
  filter-same_true [] = refl
  filter-same_true (x ∷ xs) = ground (arith, filter-same_true xs)

  filter-same_false :
      (xs : List A)
      → length xs - length (filter p xs) ≡ length (filter (λ x. same_bool (p x) false) xs)
  filter-same_false [] = omega arith
  filter-same_false (x ∷ xs) = ground (arith, filter-same_false xs, length-filter-le p xs)

module _ (parse : String → Option ℕ) (day_start : ℕ → ℕ → ℕ → Option ℕ)
    (lower trim : String → String) (id_before : String → String → Bool) (ts : List Track)
    (f : FlightFilters) where
  abbrev pub picked : FlightFilters → List Track
  picked g = rows parse day_start lower trim id_before ts f g

  abbrev HonestChoice : FacetOption Bool → Type 0
  HonestChoice = IsHonest (λ b. record f { operator = some b }) picked f.operator

  operator_options-IsHonest :
      All HonestChoice (operator_options parse day_start lower trim id_before ts f)
  unfolding operator_options
  operator_options-IsHonest =
      let but = rows_but parse day_start lower trim id_before ts f by_operator in
      let located = length (filter has_operator_fix but) in
      let yes : FacetOption Bool = record { value = true; count = located } in
      let no : FacetOption Bool = record { value = false; count = length but - located } in
      let rows_of = operator_rows parse day_start lower trim id_before ts f in
      All-filter_of HonestChoice (offered_choice f.operator) (yes ∷ no ∷ []) (
        (λ e. (
          filter-same_true has_operator_fix but ∙ ap length (sym (rows_of true)),
          offered_choice_why f.operator yes e,
        )),
        (
          (λ e. (
            filter-same_false has_operator_fix but ∙ ap length (sym (rows_of false)),
            offered_choice_why f.operator no e,
          )),
          tt,
        ),
      )

  -- Every option that a facet offers states how many flights are listed when it is picked in place of
  -- what is selected of its facet, the other facets left as they are; and it lists some, or is the
  -- one selected.
  pub flight_facets-IsHonest :
      (All
        (IsHonest (λ v. record f { vendor = some v }) picked (chosen f.vendor))
        (flight_facets parse day_start lower trim id_before ts f).vendor)
      × (All
          (IsHonest (λ c. record f { evidence = some c }) picked f.evidence)
          (flight_facets parse day_start lower trim id_before ts f).evidence)
      × (All
          (IsHonest (λ b. record f { operator = some b }) picked f.operator)
          (flight_facets parse day_start lower trim id_before ts f).operator)
      × (All
          (IsHonest (λ s. record f { min_duration_s = some s }) picked f.min_duration_s)
          (flight_facets parse day_start lower trim id_before ts f).duration)
      × (All
          (IsHonest (λ n. record f { min_detections = some n }) picked f.min_detections)
          (flight_facets parse day_start lower trim id_before ts f).detections)
  unfolding flight_facets duration_options detection_options
  flight_facets-IsHonest = (
    vendor_options-IsHonest parse day_start lower trim id_before ts f,
    evidence_options-IsHonest parse day_start lower trim id_before ts f,
    operator_options-IsHonest,
    thresholds-IsHonest _ picked f.min_duration_s _
        (λ s. ap length (sym (duration_rows parse day_start lower trim id_before ts f s)))
        duration_thresholds_s,
    thresholds-IsHonest _ picked f.min_detections _
        (λ s. ap length (sym (detection_rows parse day_start lower trim id_before ts f s)))
        detection_thresholds,
  )
