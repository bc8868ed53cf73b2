-- ===== src/Overview/Aircraft/Latest.antt =====
-- services/ui/src/features/map/aircraft.ts: which report an entry is.
use classg.Prelude.{
  ℕ, arith, min, count_if, ◌≡◌, ◌∙◌, refl, sym, subst, String, true, false, Option, none, some,
  List, [], ◌∷◌, ◌++◌, map, str_eq, text_ltb, text_ltb_irrefl, text_ltb_trans, text_ltb_asymm, All,
  All-append, All-map, All-imp, All-sort_by, Bool-cases, inl, inr, lookup, eq_iff, lookup-put_same,
  All-of_lookup, opt_eq,
}
use classg.Api.{Detection}
use classg.Overview.Aircraft.{
  aircraft, Contacts, newer, file, later_first, is_stale, take_in, collect, none_yet,
  aircraft_from_detections,
}
use classg.Overview.Aircraft.Once.{
  is_of, one_entry_each, counts_for, collect-Inv, none_yet-Inv, lookup-newer_other,
}

-- The entry is there, and not of before the text.
AtLeast : String → Option Detection → Type 0
AtLeast t none = ⊥
AtLeast t (some e) = text_ltb e.ts t ≡ false

-- A later report is of no earlier than what the one before is not earlier than.
later_not_before :
    (t a b : String) → text_ltb a t ≡ false → text_ltb a b ≡ true → text_ltb b t ≡ false
later_not_before t a b h l = text_ltb_trans t a b h (text_ltb_asymm a b l)

newer-AtLeast :
    (t k : String) (m : List (String × Detection)) (d : Detection) (seen : Option Detection)
    → lookup str_eq m k ≡ seen
    → AtLeast t seen
    → AtLeast t (lookup str_eq (newer m k d seen) k)
unfolding AtLeast
newer-AtLeast t k m d none e h = absurd h
newer-AtLeast t k m d (some seen) e h = elim (Bool-cases (text_ltb seen.ts d.ts)) [
  | inl later ↦
      rw (later, lookup-put_same str_eq eq_iff m k d) (later_not_before t seen.ts d.ts h later)
  | inr old ↦ rw (old, e) h
]

newer-now :
    (k : String) (m : List (String × Detection)) (d : Detection) (seen : Option Detection)
    → lookup str_eq m k ≡ seen
    → AtLeast d.ts (lookup str_eq (newer m k d seen) k)
unfolding AtLeast
newer-now k m d none e = rw (lookup-put_same str_eq eq_iff m k d) (text_ltb_irrefl d.ts)
newer-now k m d (some seen) e = elim (Bool-cases (text_ltb seen.ts d.ts)) [
  | inl later ↦ rw (later, lookup-put_same str_eq eq_iff m k d) (text_ltb_irrefl d.ts)
  | inr old ↦ rw (old, e) old
]

entry : String → Contacts → Option Detection
entry k s = lookup str_eq s.newest_by_icao k

file-AtLeast :
    (t k : String) (s : Contacts) (d : Detection) (named : Option String)
    → AtLeast t (entry k s)
    → AtLeast t (entry k (file named d s))
unfolding entry
file-AtLeast t k s d none h = h
file-AtLeast t k s d (some icao) h =
    let m = s.newest_by_icao in
    elim (Bool-cases (str_eq icao k)) [
      | inl same ↦
          let equal = sym ((eq_iff icao k).0 same) in
          subst (λ j. AtLeast t (lookup str_eq (newer m j d (lookup str_eq m j)) k)) equal
            (newer-AtLeast t k m d (lookup str_eq m k) refl h)
      | inr other ↦ rw (lookup-newer_other m icao k d (lookup str_eq m icao) other) h
    ]

file-now :
    (k : String) (s : Contacts) (d : Detection) (named : Option String)
    → opt_eq named k ≡ true
    → AtLeast d.ts (entry k (file named d s))
unfolding entry
file-now k s d none h = absurd (no_match h)
  where
    no_match : false ≡ true → ⊥
    no_match h = cc
file-now k s d (some icao) h =
    let m = s.newest_by_icao in
    let equal = sym ((eq_iff icao k).0 h) in
    subst (λ j. AtLeast d.ts (lookup str_eq (newer m j d (lookup str_eq m j)) k)) equal
      (newer-now k m d (lookup str_eq m k) refl)

module _ (parse : String → Option ℕ) (max_age_ms : Option ℕ) (now : ℕ) (k : String) where
  take_in-AtLeast :
      (t : String) (s : Contacts) (d : Detection)
      → AtLeast t (entry k s)
      → AtLeast t (entry k (take_in parse max_age_ms now s d))
  take_in-AtLeast t s d h = elim (Bool-cases (is_stale parse max_age_ms now d)) [
    | inl stale ↦ rw stale h
    | inr kept ↦ rw kept (file-AtLeast t k s d (aircraft d) h)
  ]

  collect-AtLeast :
      (t : String) (s : Contacts) (ds : List Detection)
      → AtLeast t (entry k s)
      → AtLeast t (entry k (collect parse max_age_ms now s ds))
  collect-AtLeast t s [] h = h
  collect-AtLeast t s (d ∷ ds) h =
      collect-AtLeast t (take_in parse max_age_ms now s d) ds (take_in-AtLeast t s d h)

  -- The entry of the address is of no earlier than each report that counts for it.
  abbrev Covers : Option Detection → List Detection → Type 0
  Covers o ds = All (λ d. counts_for parse max_age_ms now k d ≡ true → AtLeast d.ts o) ds

  take_in-now :
      (s : Contacts) (d : Detection)
      → counts_for parse max_age_ms now k d ≡ true
      → AtLeast d.ts (entry k (take_in parse max_age_ms now s d))
  take_in-now s d h = elim (Bool-cases (is_stale parse max_age_ms now d)) [
    | inl stale ↦ absurd (stale_counts d stale h)
    | inr kept ↦ rw kept (file-now k s d (aircraft d) (rw kept at h))
  ]
    where
      stale_counts :
          (d : Detection)
          → is_stale parse max_age_ms now d ≡ true
          → counts_for parse max_age_ms now k d ≡ true
          → ⊥
      stale_counts d s h = ground arith

  collect-Covers :
      (s : Contacts) (ds : List Detection) → Covers (entry k (collect parse max_age_ms now s ds)) ds
  collect-Covers s [] = tt
  collect-Covers s (d ∷ ds) = (
    λ h. collect-AtLeast d.ts (take_in parse max_age_ms now s d) ds (take_in-now s d h),
    collect-Covers (take_in parse max_age_ms now s d) ds,
  )

  -- Of the entries of the address, none is of before a report that counts for it.
  abbrev pub IsLatest : List Detection → Detection → Type 0
  IsLatest ds e =
      is_of k e ≡ true
      → All (λ d. counts_for parse max_age_ms now k d ≡ true → text_ltb e.ts d.ts ≡ false) ds

  stored-IsLatest :
      (ds : List Detection) (j : String) (e : Detection)
      → lookup str_eq (collect parse max_age_ms now none_yet ds).newest_by_icao j ≡ some e
      → IsLatest ds e
  unfolding entry AtLeast
  stored-IsLatest ds j e h same =
      let inv = collect-Inv parse max_age_ms now none_yet ds none_yet-Inv in
      let own : is_of k e ≡ str_eq j k = rw (inv.own j e h) refl in
      let equal = (eq_iff j k).0 (sym own ∙ same) in
      let found =
        subst (λ i. entry i (collect parse max_age_ms now none_yet ds) ≡ some e) equal h in
      subst (λ o. Covers o ds) found (collect-Covers none_yet ds)

  anonymous-IsLatest : (ds : List Detection) (e : Detection) → aircraft e ≡ none → IsLatest ds e
  anonymous-IsLatest ds e none_there same = absurd (ground arith)

  -- An aircraft with a report that is not too old has exactly one entry, and any other has none; the
  -- entry is of no earlier than any report of the aircraft that is not too old.
  pub newest_entry_each :
      (ds : List Detection)
      → (count_if (is_of k) (aircraft_from_detections parse max_age_ms now ds)
          ≡ min 1 (count_if (counts_for parse max_age_ms now k) ds))
        × All (IsLatest ds) (aircraft_from_detections parse max_age_ms now ds)
  unfolding aircraft_from_detections
  newest_entry_each ds =
      let s = collect parse max_age_ms now none_yet ds in
      let inv = collect-Inv parse max_age_ms now none_yet ds none_yet-Inv in
      (
        one_entry_each parse max_age_ms now ds k,
        All-sort_by later_first (IsLatest ds) (map (λ e. e.1) s.newest_by_icao ++ s.unattributed) (
            All-append (IsLatest ds) (map (λ e. e.1) s.newest_by_icao) s.unattributed
              (All-map (λ e. IsLatest ds e.1) (IsLatest ds) (λ e. e.1) (λ e h. h) s.newest_by_icao
                (All-of_lookup str_eq eq_iff (λ e. IsLatest ds e.1) s.newest_by_icao inv.once
                  (stored-IsLatest ds)))
              (All-imp (λ d. aircraft d ≡ none) (IsLatest ds) (anonymous-IsLatest ds) s.unattributed
                inv.others)),
      )
