-- ===== src/Sensors/Detail/Keeps.antt =====
-- services/ui/src/features/health/sensor-detail-groups.ts: no counter is lost, and none shown twice.
use classg.Prelude.{
  ℕ, ◌+◌, ◌≡◌, refl, ◌↔◌, ap, subst, ◌∙◌, inl, inr, arith, String, Bool, true, false, some, List,
  [], ◌∷◌, ◌++◌, map, if◌then◌else◌, ◌==◌, rank_eq_iff, eq_iff, Option-cases, filter, count_if,
  count_if-append, count_if-sort_by, is_some, str_eq, sort_by, lookup, put, lookup-put_same,
  lookup-put_other, get_or_else, Bool-cases,
}
use classg.Api.{Json}
use classg.Sensors.Detail.{
  DetailSection, section_radio, section_traffic, section_errors, section_survey, section_other,
  section_rank, section_eq, section_order, DetailRow, DetailGroup, known_detail, section_of, omits,
  row_of, row_first, by_section, group_at, group_sensor_detail,
}

section_at : ℕ → DetailSection
section_at n =
    if n == 0
    then section_radio
    else if n == 1
    then section_traffic
    else if n == 2
    then section_errors
    else if n == 3
    then section_survey
    else section_other

section_at-rank : (s : DetailSection) → section_at (section_rank s) ≡ s
unfolding section_at
section_at-rank section_radio = refl
section_at-rank section_traffic = refl
section_at-rank section_errors = refl
section_at-rank section_survey = refl
section_at-rank section_other = refl

section_eq_iff : (a b : DetailSection) → (section_eq a b ≡ true) ↔ (a ≡ b)
section_eq_iff a b = rank_eq_iff section_rank section_at section_at-rank a b

abbrev pub has_row_key : String → DetailRow → Bool
has_row_key k r = str_eq r.key k

abbrev pub has_detail_key : String → String × Json → Bool
has_detail_key k e = str_eq e.0 k

-- The rows under every heading, one after another.
abbrev pub all_rows : List DetailGroup → List DetailRow
all_rows [] = []
all_rows (g ∷ gs) = g.rows ++ all_rows gs

module _ (spaced : String → String) (key_before : String → String → Bool) (omit : List String)
    (k : String) where
  -- The occurrences of the key under a section.
  abbrev at : List (DetailSection × List DetailRow) → DetailSection → ℕ
  at m s = count_if (has_row_key k) (get_or_else (lookup section_eq m s) [])

  abbrev total : List (DetailSection × List DetailRow) → ℕ
  total m =
      at m section_radio
      + (at m section_traffic + (at m section_errors + (at m section_survey + at m section_other)))

  at-put :
      (m : List (DetailSection × List DetailRow)) (j s : DetailSection) (rows : List DetailRow)
      → at (put section_eq m j rows) s
        ≡ (if section_eq j s then count_if (has_row_key k) rows else at m s)
  at-put m j s rows = elim (Bool-cases (section_eq j s)) [
    | inl e ↦
        let same = (section_eq_iff j s).0 e in
        let here : lookup section_eq (put section_eq m j rows) s ≡ some rows =
          subst (λ l. lookup section_eq (put section_eq m j rows) l ≡ some rows) same
            (lookup-put_same section_eq section_eq_iff m j rows) in
        rw (e, here)
    | inr e ↦ rw (e, lookup-put_other section_eq section_eq_iff m j s rows e)
  ]

  total-put :
      (m : List (DetailSection × List DetailRow)) (j : DetailSection) (rows : List DetailRow)
      (n : ℕ)
      → count_if (has_row_key k) rows ≡ at m j + n
      → total (put section_eq m j rows) ≡ total m + n
  total-put m section_radio rows n h =
      rw
        (
          at-put m section_radio section_radio rows,
          at-put m section_radio section_traffic rows,
          at-put m section_radio section_errors rows,
          at-put m section_radio section_survey rows,
          at-put m section_radio section_other rows,
        )
        (omega (arith, h))
  total-put m section_traffic rows n h =
      rw
        (
          at-put m section_traffic section_radio rows,
          at-put m section_traffic section_traffic rows,
          at-put m section_traffic section_errors rows,
          at-put m section_traffic section_survey rows,
          at-put m section_traffic section_other rows,
        )
        (omega (arith, h))
  total-put m section_errors rows n h =
      rw
        (
          at-put m section_errors section_radio rows,
          at-put m section_errors section_traffic rows,
          at-put m section_errors section_errors rows,
          at-put m section_errors section_survey rows,
          at-put m section_errors section_other rows,
        )
        (omega (arith, h))
  total-put m section_survey rows n h =
      rw
        (
          at-put m section_survey section_radio rows,
          at-put m section_survey section_traffic rows,
          at-put m section_survey section_errors rows,
          at-put m section_survey section_survey rows,
          at-put m section_survey section_other rows,
        )
        (omega (arith, h))
  total-put m section_other rows n h =
      rw
        (
          at-put m section_other section_radio rows,
          at-put m section_other section_traffic rows,
          at-put m section_other section_errors rows,
          at-put m section_other section_survey rows,
          at-put m section_other section_other rows,
        )
        (omega (arith, h))

  -- The key, and not omitted.
  abbrev kept : String × Json → Bool
  kept e = if omits omit e.0 then false else str_eq e.0 k

  total-by_section :
      (m : List (DetailSection × List DetailRow)) (es : List (String × Json))
      → total (by_section spaced key_before omit m es) ≡ total m + count_if kept es
  total-by_section m [] = omega arith
  total-by_section m ((key, value) ∷ es) = elim (Bool-cases (omits omit key)) [
    | inl e ↦ rw e (total-by_section m es)
    | inr e ↦
        let s = section_of (known_detail key) in
        let rows =
          get_or_else (lookup section_eq m s) [] ++ row_of spaced key_before (key, value) ∷ [] in
        let added =
          count_if-append (has_row_key k) (get_or_else (lookup section_eq m s) [])
            (row_of spaced key_before (key, value) ∷ []) in
        rw e (
          ground (
            arith,
            total-by_section (put section_eq m s rows) es,
            total-put m s rows (if str_eq key k then 1 else 0) (ground (arith, added)),
          ))
  ]

  abbrev sum_at : List (DetailSection × List DetailRow) → List DetailSection → ℕ
  sum_at m [] = 0
  sum_at m (s ∷ ss) = at m s + sum_at m ss

  absent_at :
      (m : List (DetailSection × List DetailRow)) (s : DetailSection)
      → is_some (lookup section_eq m s) ≡ false
      → at m s ≡ 0
  absent_at m s h = elim (Option-cases (lookup section_eq m s)) [
    | inl e ↦ rw e
    | inr (rows, e) ↦ absurd (ground (arith, e))
  ]

  count-groups :
      (m : List (DetailSection × List DetailRow)) (ss : List DetailSection)
      → count_if (has_row_key k) (
          all_rows
            (map (group_at spaced key_before m) (filter (λ s. is_some (lookup section_eq m s)) ss)))
        ≡ sum_at m ss
  count-groups m [] = refl
  count-groups m (s ∷ ss) = elim (Bool-cases (is_some (lookup section_eq m s))) [
    | inr e ↦ rw e (omega (arith, absent_at m s e, count-groups m ss))
    | inl e ↦
        let rows = get_or_else (lookup section_eq m s) [] in
        let rest =
          all_rows (
            map (group_at spaced key_before m)
              (filter (λ j. is_some (lookup section_eq m j)) ss)) in
        rw e (
          omega (
            arith,
            count_if-append (has_row_key k) (sort_by (row_first spaced key_before) rows) rest,
            count_if-sort_by (row_first spaced key_before) (has_row_key k) rows,
            count-groups m ss,
          ))
  ]

  count-kept :
      (es : List (String × Json))
      → count_if kept es ≡ (if omits omit k then 0 else count_if (has_detail_key k) es)
  count-kept [] = ground arith
  count-kept ((key, value) ∷ es) = elim (Bool-cases (str_eq key k)) [
    | inl e ↦
        let same : omits omit key ≡ omits omit k = ap (omits omit) ((eq_iff key k).0 e) in
        rw (same, e) (ground (arith, count-kept es))
    | inr e ↦ ground (arith, count-kept es)
  ]

-- The sections show each counter of a sensor as often as its detail has it, which is once, and no
-- counter that is left out of them, as those of the summary are.
pub sections_keep_counters :
    (spaced : String → String) (key_before : String → String → Bool) (detail : List (String × Json))
    (omit : List String) (k : String)
    → count_if (has_row_key k) (all_rows (group_sensor_detail spaced key_before detail omit))
      ≡ (if omits omit k then 0 else count_if (has_detail_key k) detail)
unfolding group_sensor_detail
sections_keep_counters spaced key_before detail omit k =
    let m = by_section spaced key_before omit [] detail in
    count-groups spaced key_before omit k m section_order
    ∙ omega (arith, total-by_section spaced key_before omit k [] detail)
    ∙ count-kept spaced key_before omit k detail
