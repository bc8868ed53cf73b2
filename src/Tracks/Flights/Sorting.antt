-- ===== src/Tracks/Flights/Sorting.antt =====
-- The sort of flights by a measurement.
use classg.Prelude.{
  ℕ, ◌≤◌, ◌∙◌, ◌==◌, ==_iff, Bool-cases, inl, inr, filter, filter-sort_by, All-map, ◌≡◌, refl, sym,
  subst, ap, arith, String, Bool, true, false, Option, none, some, List, [], ◌∷◌, map, All,
  All-sort_by, IsSorted, sort_by, sort_by-perm, sort_by-IsSorted,
}
use mathlib.Core.List.{Perm}
use mathlib.Core.List.Perm
use classg.Api.{Track}
use classg.Tracks.Flights.{
  FlightSortColumn, Keyed, value_before, sorts_first, sort_value, keyed, sort_flights,
}

value_before_total :
    (desc : Bool) (a b : Option ℕ) → value_before desc a b ≡ false → value_before desc b a ≡ true
value_before_total desc none none h = refl
value_before_total desc none (some b) h = refl
value_before_total desc (some a) none h = cc
value_before_total true (some a) (some b) h = ground arith
value_before_total false (some a) (some b) h = ground arith

value_before_trans :
    (desc : Bool) (a b c : Option ℕ)
    → value_before desc a b ≡ true
    → value_before desc b c ≡ true
    → value_before desc a c ≡ true
value_before_trans desc none none none h k = refl
value_before_trans desc none none (some c) h k = k
value_before_trans desc none (some b) c h k = cc
value_before_trans desc (some a) b none h k = refl
value_before_trans desc (some a) none (some c) h k = cc
value_before_trans true (some a) (some b) (some c) h k = ground arith
value_before_trans false (some a) (some b) (some c) h k = ground arith

-- Whether a measurement may stand before another: none before one that is there, and those there in
-- the direction asked for.
abbrev pub MayPrecede : Bool → Option ℕ → Option ℕ → Type 0
MayPrecede desc none none = Unit
MayPrecede desc none (some b) = ⊥
MayPrecede desc (some a) none = Unit
MayPrecede true (some a) (some b) = b ≤ a
MayPrecede false (some a) (some b) = a ≤ b

abbrev pub IsInDirection : Bool → List (Option ℕ) → Type 0
IsInDirection desc [] = Unit
IsInDirection desc (v ∷ vs) = All (MayPrecede desc v) vs × IsInDirection desc vs

value_before-MayPrecede :
    (desc : Bool) (a b : Option ℕ) → value_before desc a b ≡ true → MayPrecede desc a b
value_before-MayPrecede desc none none h = tt
value_before-MayPrecede desc none (some b) h = cc
value_before-MayPrecede desc (some a) none h = tt
value_before-MayPrecede true (some a) (some b) h = ground arith
value_before-MayPrecede false (some a) (some b) h = ground arith

map-IsInDirection :
    (desc : Bool) (ks : List Keyed)
    → IsSorted (sorts_first desc) ks
    → IsInDirection desc (map (λ k. k.value) ks)
map-IsInDirection desc [] h = tt
map-IsInDirection desc (k ∷ ks) h = (
  All-map (λ j. sorts_first desc k j ≡ true) (MayPrecede desc k.value) (λ j. j.value)
      (λ j. value_before-MayPrecede desc k.value j.value) ks h.0,
  map-IsInDirection desc ks h.1,
)

abbrev pub same_value : Option ℕ → Option ℕ → Bool
same_value none none = true
same_value (some a) (some b) = a == b
same_value _ _ = false

same_value_ties :
    (desc : Bool) (v a b : Option ℕ)
    → same_value a v ≡ true
    → same_value b v ≡ true
    → value_before desc a b ≡ true
same_value_ties desc none none none h k = refl
same_value_ties desc none none (some b) h k = cc
same_value_ties desc none (some a) b h k = cc
same_value_ties desc (some v) none b h k = cc
same_value_ties desc (some v) (some a) none h k = cc
same_value_ties true (some v) (some a) (some b) h k = ground (arith, ==_iff a v, ==_iff b v)
same_value_ties false (some v) (some a) (some b) h k = ground (arith, ==_iff a v, ==_iff b v)

module _ (parse : String → Option ℕ) (column : FlightSortColumn) where
  IsKeyed : Keyed → Type 0
  IsKeyed k = k.value ≡ sort_value parse column k.track

  keyed-IsKeyed :
      (ts : List Track)
      → All (λ k. k.value ≡ sort_value parse column k.track) (keyed parse column ts)
  keyed-IsKeyed [] = tt
  keyed-IsKeyed (t ∷ ts) = (refl, keyed-IsKeyed ts)

  values :
      (ks : List Keyed)
      → All (λ k. k.value ≡ sort_value parse column k.track) ks
      → map (sort_value parse column) (map (λ k. k.track) ks) ≡ map (λ k. k.value) ks
  values [] h = refl
  values (k ∷ ks) h = rw (h.0, values ks h.1)

  keyed_tracks : (ts : List Track) → map (λ k. k.track) (keyed parse column ts) ≡ ts
  keyed_tracks [] = refl
  keyed_tracks (t ∷ ts) = ap (λ l. t ∷ l) (keyed_tracks ts)

  filter_tracks :
      (v : Option ℕ) (ks : List Keyed)
      → All (λ k. k.value ≡ sort_value parse column k.track) ks
      → filter (λ t. same_value (sort_value parse column t) v) (map (λ k. k.track) ks)
        ≡ map (λ k. k.track) (filter (λ k. same_value k.value v) ks)
  filter_tracks v [] h = refl
  filter_tracks v (k ∷ ks) h = elim (Bool-cases (same_value k.value v)) [
    | inl e ↦ rw (← h.0, e, filter_tracks v ks h.1) refl
    | inr e ↦ rw (← h.0, e, filter_tracks v ks h.1) refl
  ]

  -- Sorting flights loses and adds none, and puts their measurements in the direction asked for, the
  -- largest first if it is down, with those that have none last in both directions; and flights of the
  -- same measurement, or of none, keep their order.
  pub sort_flights_sinks :
      (desc : Bool) (ts : List Track) (v : Option ℕ)
      → Perm (sort_flights parse column desc ts) ts
        × IsInDirection desc (map (sort_value parse column) (sort_flights parse column desc ts))
        × (filter
              (λ t. same_value (sort_value parse column t) v)
              (sort_flights parse column desc ts)
            ≡ filter (λ t. same_value (sort_value parse column t) v) ts)
  unfolding sort_flights
  sort_flights_sinks desc ts v =
      let ks = keyed parse column ts in
      let before = sorts_first desc in
      let in_order =
        sort_by-IsSorted before (λ a b. value_before_total desc a.value b.value)
          (λ a b c. value_before_trans desc a.value b.value c.value) ks in
      let sorted_keys =
        All-sort_by before (λ k. k.value ≡ sort_value parse column k.track) ks (keyed-IsKeyed ts) in
      (
        subst (λ l. Perm (map (λ k. k.track) (sort_by before ks)) l) (keyed_tracks ts)
            (Perm.map (λ k. k.track) (sort_by-perm before ks)),
        subst (IsInDirection desc) (sym (values (sort_by before ks) sorted_keys))
            (map-IsInDirection desc (sort_by before ks) in_order),
        filter_tracks v (sort_by before ks) sorted_keys
            ∙ ap (map (λ k. k.track)) (
                filter-sort_by before (λ k. same_value k.value v)
                  (λ a b. same_value_ties desc v a.value b.value) ks)
            ∙ sym (filter_tracks v ks (keyed-IsKeyed ts))
            ∙ ap (filter (λ t. same_value (sort_value parse column t) v)) (keyed_tracks ts),
      )
