-- ===== src/Overview/Aircraft/Once.antt =====
-- services/ui/src/features/map/aircraft.ts: how many entries there are.
use classg.Prelude.{
  ℕ, ◌+◌, ◌≡◌, ◌≤◌, ◌⊎◌, refl, ap, sym, subst, ◌∙◌, arith, String, Bool, false, Option, none, some,
  List, [], ◌∷◌, ◌++◌, ◌&&◌, map, count_if, not, str_eq, if◌then◌else◌, text_ltb, min, All,
  Bool-cases, inl, inr, lookup, put, is_at, has_entry, KeysOnce, put-KeysOnce, is_some,
  lookup-put_same, lookup-put_other, eq_iff, opt_eq, All-append, count_if-sort_by, count_if-append,
  All-of_lookup,
}
use classg.Api.{Detection}
use classg.Overview.Aircraft.{
  aircraft, Contacts, newer, file, later_first, is_stale, take_in, collect, none_yet,
  aircraft_from_detections,
}

abbrev pub is_of : String → Detection → Bool
is_of icao d = opt_eq (aircraft d) icao

abbrev pub is_anonymous : Detection → Bool
is_anonymous d = not (is_some (aircraft d))

-- Every entry is of its address and stands once; the others have none.
pub record Inv (s : Contacts) : Type 0 where
  pub once : KeysOnce str_eq s.newest_by_icao
  pub own :
      (k : String) (e : Detection) → lookup str_eq s.newest_by_icao k ≡ some e → aircraft e ≡ some k
  pub others : All (λ d. aircraft d ≡ none) s.unattributed

lookup-put_cases :
    (m : List (String × Detection)) (icao k : String) (d e : Detection)
    → lookup str_eq (put str_eq m icao d) k ≡ some e
    → ((icao ≡ k) × (d ≡ e)) ⊎ (lookup str_eq m k ≡ some e)
lookup-put_cases m icao k d e h = elim (Bool-cases (str_eq icao k)) [
  | inl same ↦
      let equal = (eq_iff icao k).0 same in
      let stored = lookup-put_same str_eq eq_iff m icao d in
      let shown : lookup str_eq (put str_eq m icao d) icao ≡ some e =
        subst (λ j. lookup str_eq (put str_eq m icao d) j ≡ some e) (sym equal) h in
      inl (equal, cc)
  | inr other ↦ inr (sym (lookup-put_other str_eq eq_iff m icao k d other) ∙ h)
]

has_entry-le : (o : Option Detection) → has_entry str_eq o ≤ 1
has_entry-le none = omega arith
has_entry-le (some d) = omega arith

-- The entries of an address, among the values of the map and among those of none.
pub count_own :
    (k : String) (m : List (String × Detection))
    → All (λ e. aircraft e.1 ≡ some e.0) m
    → count_if (is_of k) (map (λ e. e.1) m) ≡ count_if (is_at str_eq k) m
count_own k [] h = refl
count_own k ((j, d) ∷ m) h = rw (h.0, count_own k m h.1)

count_others :
    (k : String) (us : List Detection) → All (λ d. aircraft d ≡ none) us → count_if (is_of k) us ≡ 0
count_others k [] h = refl
count_others k (d ∷ us) h = rw (h.0, count_others k us h.1)

newer-KeysOnce :
    (m : List (String × Detection)) (icao : String) (d : Detection) (seen : Option Detection)
    → KeysOnce str_eq m
    → KeysOnce str_eq (newer m icao d seen)
newer-KeysOnce m icao d none once = put-KeysOnce str_eq eq_iff m icao d once
newer-KeysOnce m icao d (some seen) once = elim (Bool-cases (text_ltb seen.ts d.ts)) [
  | inl e ↦ rw e (put-KeysOnce str_eq eq_iff m icao d once)
  | inr e ↦ rw e once
]

-- The report, or what stood there.
lookup-newer :
    (m : List (String × Detection)) (icao k : String) (d e : Detection) (seen : Option Detection)
    → lookup str_eq (newer m icao d seen) k ≡ some e
    → ((icao ≡ k) × (d ≡ e)) ⊎ (lookup str_eq m k ≡ some e)
lookup-newer m icao k d e none h = lookup-put_cases m icao k d e h
lookup-newer m icao k d e (some seen) h = elim (Bool-cases (text_ltb seen.ts d.ts)) [
  | inl later ↦ lookup-put_cases m icao k d e (rw later at h)
  | inr old ↦ inr (rw old at h)
]

file-Inv :
    (s : Contacts) (d : Detection) (named : Option String)
    → aircraft d ≡ named
    → Inv s
    → Inv (file named d s)
file-Inv s d none e inv = record {
  once = inv.once;
  own = inv.own;
  others = All-append (λ x. aircraft x ≡ none) s.unattributed (d ∷ []) inv.others (e, tt);
}
file-Inv s d (some icao) e inv = record {
  once = newer-KeysOnce s.newest_by_icao icao d (lookup str_eq s.newest_by_icao icao) inv.once;
  own = λ k x h.
      elim (lookup-newer s.newest_by_icao icao k d x (lookup str_eq s.newest_by_icao icao) h) [
        | inl (same, this) ↦ rw (← this, ← same) e
        | inr before ↦ inv.own k x before
      ];
  others = inv.others;
}

has_entry-newer_same :
    (m : List (String × Detection)) (icao : String) (d : Detection) (seen : Option Detection)
    → lookup str_eq m icao ≡ seen
    → has_entry str_eq (lookup str_eq (newer m icao d seen) icao) ≡ 1
has_entry-newer_same m icao d none e =
    ap (has_entry str_eq) (lookup-put_same str_eq eq_iff m icao d)
has_entry-newer_same m icao d (some seen) e = elim (Bool-cases (text_ltb seen.ts d.ts)) [
  | inl later ↦ rw later (ap (has_entry str_eq) (lookup-put_same str_eq eq_iff m icao d))
  | inr old ↦ rw (old, e) refl
]

pub lookup-newer_other :
    (m : List (String × Detection)) (icao k : String) (d : Detection) (seen : Option Detection)
    → str_eq icao k ≡ false
    → lookup str_eq (newer m icao d seen) k ≡ lookup str_eq m k
lookup-newer_other m icao k d none n = lookup-put_other str_eq eq_iff m icao k d n
lookup-newer_other m icao k d (some seen) n = elim (Bool-cases (text_ltb seen.ts d.ts)) [
  | inl later ↦ rw later (lookup-put_other str_eq eq_iff m icao k d n)
  | inr old ↦ rw old refl
]

counted_file :
    (s : Contacts) (d : Detection) (k : String) (named : Option String)
    → has_entry str_eq (lookup str_eq (file named d s).newest_by_icao k)
      ≡ (if opt_eq named k then 1 else has_entry str_eq (lookup str_eq s.newest_by_icao k))
counted_file s d k none = refl
counted_file s d k (some icao) =
    let m = s.newest_by_icao in
    elim (Bool-cases (str_eq icao k)) [
      | inl same ↦
          let equal = (eq_iff icao k).0 same in
          rw same (
            subst
              (λ j. has_entry str_eq (lookup str_eq (newer m icao d (lookup str_eq m icao)) j) ≡ 1)
              equal (has_entry-newer_same m icao d (lookup str_eq m icao) refl))
      | inr other ↦
          rw other
            (ap (has_entry str_eq) (lookup-newer_other m icao k d (lookup str_eq m icao) other))
    ]

absent : {d : Detection} → none ≡ some d → ⊥
absent h = cc

pub none_yet-Inv : Inv none_yet
none_yet-Inv = record { once = λ k. refl; own = λ k e h. absurd (absent h); others = tt }

module _ (parse : String → Option ℕ) (max_age_ms : Option ℕ) (now : ℕ) where
  pub collect-Inv :
      (s : Contacts) (ds : List Detection) → Inv s → Inv (collect parse max_age_ms now s ds)
  collect-Inv s [] inv = inv
  collect-Inv s (d ∷ ds) inv =
      collect-Inv (take_in parse max_age_ms now s d) ds
        (elim (Bool-cases (is_stale parse max_age_ms now d)) [
          | inl stale ↦ rw stale inv
          | inr kept ↦ rw kept (file-Inv s d (aircraft d) refl inv)
        ])

  -- A report that counts for the address, and one that counts for none.
  abbrev pub counts_for : String → Detection → Bool
  counts_for k d = not (is_stale parse max_age_ms now d) && is_of k d

  counted_step :
      (s : Contacts) (d : Detection) (k : String)
      → has_entry str_eq (lookup str_eq (take_in parse max_age_ms now s d).newest_by_icao k)
        ≡ (if counts_for k d then 1 else has_entry str_eq (lookup str_eq s.newest_by_icao k))
  counted_step s d k = elim (Bool-cases (is_stale parse max_age_ms now d)) [
    | inl stale ↦ rw stale refl
    | inr kept ↦ rw kept (counted_file s d k (aircraft d))
  ]

  has_entry-collect :
      (s : Contacts) (ds : List Detection) (k : String)
      → has_entry str_eq (lookup str_eq (collect parse max_age_ms now s ds).newest_by_icao k)
        ≡ min 1 (has_entry str_eq (lookup str_eq s.newest_by_icao k) + count_if (counts_for k) ds)
  has_entry-collect s [] k = ground (arith, has_entry-le (lookup str_eq s.newest_by_icao k))
  has_entry-collect s (d ∷ ds) k =
      ground (arith, has_entry-collect (take_in parse max_age_ms now s d) ds k, counted_step s d k)

  -- An aircraft with a report that is not too old has exactly one entry, and any other has none.
  pub one_entry_each :
      (ds : List Detection) (k : String)
      → count_if (is_of k) (aircraft_from_detections parse max_age_ms now ds)
        ≡ min 1 (count_if (counts_for k) ds)
  unfolding aircraft_from_detections
  one_entry_each ds k =
      let s = collect parse max_age_ms now none_yet ds in
      let inv = collect-Inv none_yet ds none_yet-Inv in
      count_if-sort_by later_first (is_of k) (map (λ e. e.1) s.newest_by_icao ++ s.unattributed)
      ∙ count_if-append (is_of k) (map (λ e. e.1) s.newest_by_icao) s.unattributed
      ∙ omega (
        arith,
        count_own k s.newest_by_icao (
            All-of_lookup str_eq eq_iff (λ e. aircraft e.1 ≡ some e.0) s.newest_by_icao inv.once
              inv.own),
        count_others k s.unattributed inv.others,
        inv.once k,
        has_entry-collect none_yet ds k,
      )
