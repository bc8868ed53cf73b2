-- ===== src/Tracks/Filters/Offers.antt =====
-- services/ui/src/features/tracks/flight-filters.ts: what the options that are offered say.
use classg.Prelude.{
  ℕ, ◌<◌, ◌≡◌, subst, ◌⊎◌, inl, inr, arith, ap, sym, ◌∙◌, String, Bool, false, Option, none, some,
  List, [], count_if, length, Bool-cases, truthy, str_eq, eq_iff, tally, sort_by, All, All-map,
  All-sort_by, All-of_lookup,
}
use classg.Api.{Track, DetectionClass}
use classg.Tracks.Filters.{FlightFilters, FlightFacet, by_vendor, by_evidence, class_eq}
use classg.Tracks.Filters.Facets.{
  FacetOption, vendor_options, evidence_options, vendor_keys, class_keys, keep_selected, chosen,
  to_option, vendor_first, class_first,
}
use classg.Tracks.Filters.Counts.{
  Counts, kept-Counts, kept-KeysOnce, count-vendor_keys, no_empty_key,
}
use classg.Tracks.Filters.Classes.{class_eq_iff, count-class_keys}
use classg.Tracks.Filters.Rows.{rows, rows_but, vendor_rows, evidence_rows}

-- The option states how many flights its pick leaves, and leaves some or is the one selected.
abbrev pub IsHonest {ℓ} :
    {A : Type ℓ}
    → (A → FlightFilters)
    → (FlightFilters → List Track)
    → Option A
    → FacetOption A
    → Type ℓ
IsHonest pick rows selected o =
    (o.count ≡ length (rows (pick o.value))) × ((0 < o.count) ⊎ (selected ≡ some o.value))

no_empty :
    (ts : List Track) (o : Option String) (v : String) (n : ℕ)
    → truthy (some v) ≡ false
    → n ≡ count_if (λ j. str_eq j v) (vendor_keys ts)
    → (0 < n) ⊎ (chosen o ≡ some v)
    → ⊥
no_empty ts o v n e q (inl h) =
    let empty : v ≡ "" = ground (arith, eq_iff v "") in
    omega
      (arith, subst (λ w. n ≡ count_if (λ j. str_eq j w) (vendor_keys ts)) empty q, no_empty_key ts)
no_empty ts none v n e q (inr h) = cc
no_empty ts (some w) v n e q (inr h) = ground arith

module _ (parse : String → Option ℕ) (day_start : ℕ → ℕ → ℕ → Option ℕ)
    (lower trim : String → String) (id_before : String → String → Bool) (ts : List Track)
    (f : FlightFilters) where
  abbrev pub picked : FlightFilters → List Track
  picked g = rows parse day_start lower trim id_before ts f g

  abbrev but : FlightFacet → List Track
  but facet = rows_but parse day_start lower trim id_before ts f facet

  abbrev pub HonestVendor : FacetOption String → Type 0
  HonestVendor = IsHonest (λ v. record f { vendor = some v }) picked (chosen f.vendor)

  abbrev pub HonestClass : FacetOption DetectionClass → Type 0
  HonestClass = IsHonest (λ c. record f { evidence = some c }) picked f.evidence

  vendor_entry :
      (v : String) (n : ℕ)
      → Counts str_eq eq_iff (vendor_keys (but by_vendor)) (chosen f.vendor) v n
      → HonestVendor (record { value = v; count = n })
  vendor_entry v n (q, why) = elim (Bool-cases (truthy (some v))) [
    | inl e ↦ (
      q
          ∙ count-vendor_keys v (but by_vendor) e
          ∙ ap length (sym (vendor_rows parse day_start lower trim id_before ts f v e)),
      why,
    )
    | inr e ↦ absurd (no_empty (but by_vendor) f.vendor v n e q why)
  ]

  class_entry :
      (c : DetectionClass) (n : ℕ)
      → Counts class_eq class_eq_iff (class_keys (but by_evidence)) f.evidence c n
      → HonestClass (record { value = c; count = n })
  class_entry c n (q, why) = (
    q
        ∙ count-class_keys c (but by_evidence)
        ∙ ap length (sym (evidence_rows parse day_start lower trim id_before ts f c)),
    why,
  )

  pub vendor_options-IsHonest :
      All HonestVendor (vendor_options parse day_start lower trim id_before ts f)
  unfolding vendor_options
  vendor_options-IsHonest =
      let keys = vendor_keys (but by_vendor) in
      let kept = keep_selected str_eq (chosen f.vendor) (tally str_eq [] keys) in
      All-map (λ e. HonestVendor (to_option e)) HonestVendor to_option (λ e h. h)
        (sort_by (vendor_first parse day_start lower trim id_before) kept)
        (All-sort_by (vendor_first parse day_start lower trim id_before)
          (λ e. HonestVendor (to_option e)) kept
          (All-of_lookup str_eq eq_iff (λ e. HonestVendor (to_option e)) kept
            (kept-KeysOnce str_eq eq_iff keys (chosen f.vendor))
            (λ v n e. vendor_entry v n (kept-Counts str_eq eq_iff keys (chosen f.vendor) v n e))))

  pub evidence_options-IsHonest :
      All HonestClass (evidence_options parse day_start lower trim id_before ts f)
  unfolding evidence_options
  evidence_options-IsHonest =
      let keys = class_keys (but by_evidence) in
      let kept = keep_selected class_eq f.evidence (tally class_eq [] keys) in
      All-map (λ e. HonestClass (to_option e)) HonestClass to_option (λ e h. h)
        (sort_by class_first kept)
        (All-sort_by class_first (λ e. HonestClass (to_option e)) kept
          (All-of_lookup class_eq class_eq_iff (λ e. HonestClass (to_option e)) kept
            (kept-KeysOnce class_eq class_eq_iff keys f.evidence)
            (λ c n e. class_entry c n (kept-Counts class_eq class_eq_iff keys f.evidence c n e))))
