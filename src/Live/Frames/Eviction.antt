-- ===== src/Live/Frames/Eviction.antt =====
-- The bound on closed tracks of live-frames.ts: which tracks `evictExcessClosed` drops.
use classg.Prelude.{
  DistinctBy-filter, str_eq_symm, ℕ, ◌-◌, ◌≡◌, refl, ap, ◌∙◌, inl, inr, Bool, true, false, List, [],
  ◌∷◌, ◌++◌, map, arith, Bool-cases, not, filter, take, drop, All, All-append, All-filter, All-imp,
  All-zip, All-append_right, All-sort_by, All-of_sort_by, All-insert, All-filter_of, All-take,
  str_eq, any, length, leb, min, sort_by, insert, IsSorted-take-drop, sort_by-IsSorted,
  text_ltb_trans, text_ltb_asymm, text_ltb, take-append-drop, length-sort_by, length-filter,
  length-drop, count_if, count_if-append, count_if_none, count_if-All, count_if-filter_comm,
  filter-All, subst, All-const, count_if-sort_by, filter_comm, filter-All, subst, All-const,
  str_eq_refl,
}
use classg.Api.{Track}
use classg.Live.Frames.{is_closed, seen_first, oldest_closed, evict_excess_closed}
use classg.Live.Frames.Filters.{Distinct}

-- Whether a track's id is one of those of `ds`.
abbrev among : List Track → Track → Bool
among ds t = any (str_eq t.track_id) (map (λ u. u.track_id) ds)

among_self : (ds : List Track) → All (λ t. not (among ds t) ≡ false) ds
among_self [] = tt
among_self (d ∷ ds) = (
  ground (arith, str_eq_refl d.track_id),
  All-imp (λ t. not (among ds t) ≡ false) (λ t. not (among (d ∷ ds) t) ≡ false)
      (λ t h. ground arith) ds (among_self ds),
)

-- Tracks apart from all of `ds` are not among them.
not-among :
    (ds : List Track) (t : Track)
    → All (λ d. str_eq t.track_id d.track_id ≡ false) ds
    → not (among ds t) ≡ true
not-among [] t h = refl
not-among (d ∷ ds) t h = ground (arith, not-among ds t h.1)

Distinct-append_among :
    (ds ks : List Track) → Distinct (ds ++ ks) → All (λ t. not (among ds t) ≡ true) ks
Distinct-append_among [] ks h = All-imp (λ _. Unit {0}) _ (λ t _. refl) ks (units ks)
  where
    units : (ts : List Track) → All (λ _. Unit {0}) ts
    units [] = tt
    units (t ∷ ts) = (tt, units ts)
Distinct-append_among (d ∷ ds) ks h =
    All-imp (λ t. (str_eq t.track_id d.track_id ≡ false) × (not (among ds t) ≡ true)) _
      (λ t k. ground arith) ks
      (All-zip (λ t. str_eq t.track_id d.track_id ≡ false) (λ t. not (among ds t) ≡ true) ks
        (All-append_right _ ds ks h.0) (Distinct-append_among ds ks h.1))

Distinct-insert :
    (t : Track) (ts : List Track)
    → All (λ u. str_eq u.track_id t.track_id ≡ false) ts
    → Distinct ts
    → Distinct (insert seen_first t ts)
unfolding insert
Distinct-insert t [] h d = (tt, tt)
Distinct-insert t (u ∷ ts) h d = elim (Bool-cases (seen_first t u)) [
  | inl e ↦ rw e (h, d)
  | inr e ↦ rw e (
    All-insert seen_first (λ v. str_eq v.track_id u.track_id ≡ false) t ts
        (str_eq_symm u.track_id t.track_id h.0) d.0,
    Distinct-insert t ts h.1 d.1,
  )
]

Distinct-sort_by : (ts : List Track) → Distinct ts → Distinct (sort_by seen_first ts)
unfolding sort_by
Distinct-sort_by [] d = tt
Distinct-sort_by (t ∷ ts) d =
    Distinct-insert t (sort_by seen_first ts)
      (All-sort_by seen_first (λ u. str_eq u.track_id t.track_id ≡ false) ts d.0)
      (Distinct-sort_by ts d.1)

seen_first_total : (a b : Track) → seen_first a b ≡ false → seen_first b a ≡ true
seen_first_total a b h = ground (arith, text_ltb_asymm b.last_seen a.last_seen)

seen_first_trans :
    (a b c : Track) → seen_first a b ≡ true → seen_first b c ≡ true → seen_first a c ≡ true
seen_first_trans a b c h k = ground (arith, text_ltb_trans a.last_seen b.last_seen c.last_seen)

abbrev Apart : Track → List Track → Type 0
Apart t cs = All (λ c. str_eq t.track_id c.track_id ≡ false) cs

Apart-cons :
    (x t : Track) (ts : List Track)
    → str_eq t.track_id x.track_id ≡ false
    → Apart t (filter is_closed ts)
    → Apart t (filter is_closed (x ∷ ts))
Apart-cons x t ts e h = ground arith

-- An open track shares its id with no closed one.
open-Apart :
    (ts : List Track)
    → Distinct ts
    → All (λ t. is_closed t ≡ false → Apart t (filter is_closed ts)) ts
open-Apart [] d = tt
open-Apart (x ∷ ts) d = (
  λ open_x. rw open_x (
      All-imp _ _ (λ u h. str_eq_symm u.track_id x.track_id h) (filter is_closed ts)
        (All-filter (λ u. str_eq u.track_id x.track_id ≡ false) is_closed ts d.0)),
  All-imp _ _ (λ t h open_t. Apart-cons x t ts h.0 (h.1 open_t)) ts
      (All-zip (λ t. str_eq t.track_id x.track_id ≡ false)
        (λ t. is_closed t ≡ false → Apart t (filter is_closed ts)) ts d.0 (open-Apart ts d.1)),
)

module _ (ts : List Track) where
  abbrev ordered : List Track
  ordered = sort_by seen_first (filter is_closed ts)

  abbrev surplus : ℕ
  surplus = length (filter is_closed ts) - 500

  -- How many closed tracks pass the test of the final filter.
  count_kept :
      Distinct ts
      → count_if (λ t. not (among (take surplus ordered) t)) (filter is_closed ts)
        ≡ length (filter is_closed ts) - surplus
  count_kept d =
      let keep : Track → Bool = λ t. not (among (take surplus ordered) t) in
      let front = take surplus ordered in
      let back = drop surplus ordered in
      let parted : Distinct (front ++ back) = rw (take-append-drop surplus ordered) (
        Distinct-sort_by (filter is_closed ts)
          (DistinctBy-filter (λ t. t.track_id) is_closed ts d)) in
      omega (
        arith,
        count_if-sort_by seen_first keep (filter is_closed ts),
        ap (count_if keep) (take-append-drop surplus ordered),
        count_if-append keep front back,
        count_if_none keep front (among_self front),
        count_if-All keep back (Distinct-append_among front back parted),
        length-drop surplus ordered,
        length-sort_by seen_first (filter is_closed ts),
      )

  open_kept :
      Distinct ts
      → All (λ t. not (among (take surplus ordered) t) ≡ true) (filter (λ t. not (is_closed t)) ts)
  open_kept d =
      All-filter_of (λ t. not (among (take surplus ordered) t) ≡ true) (λ t. not (is_closed t)) ts
        (All-imp (λ t. is_closed t ≡ false → Apart t (filter is_closed ts)) _
          (λ t apart open_t. not-among (take surplus ordered) t (
            All-take _ surplus ordered
              (All-sort_by seen_first _ (filter is_closed ts) (apart (ground arith)))))
          ts (open-Apart ts d))

  later : (t u : Track) → seen_first u t ≡ true → text_ltb t.last_seen u.last_seen ≡ false
  later t u h = ground arith

  -- The front of the order is earlier than all that passes the final filter.
  kept_later :
      All
        (λ t.
          not (among (take surplus ordered) t) ≡ true
          → All (λ u. text_ltb t.last_seen u.last_seen ≡ false) (take surplus ordered))
        (filter is_closed ts)
  kept_later =
      let front = take surplus ordered in
      let back = drop surplus ordered in
      All-of_sort_by seen_first _ (filter is_closed ts) (
        subst (All _) (take-append-drop surplus ordered) (
          All-append
            (λ t.
              not (among front t) ≡ true
              → All (λ u. text_ltb t.last_seen u.last_seen ≡ false) front)
            front back
            (All-imp (λ t. not (among front t) ≡ false) _ (λ t h k. cc) front (among_self front))
            (All-imp (λ t. All (λ u. seen_first u t ≡ true) front) _
              (λ t h k. All-imp _ _ (λ u m. later t u m) front h) back
              (IsSorted-take-drop seen_first seen_first_total seen_first_trans surplus ordered (
                sort_by-IsSorted seen_first seen_first_total seen_first_trans
                  (filter is_closed ts))))))

  -- If no two tracks share an id, eviction leaves exactly the lesser of 500 and the number of closed
  -- tracks there were, and leaves the open tracks as they were, in their order.
  pub evict_excess_closed_exact :
      Distinct ts
      → (length (filter is_closed (evict_excess_closed ts))
          ≡ min 500 (length (filter is_closed ts)))
        × (filter (λ t. not (is_closed t)) (evict_excess_closed ts)
            ≡ filter (λ t. not (is_closed t)) ts)
  unfolding evict_excess_closed oldest_closed
  evict_excess_closed_exact d =
      let keep : Track → Bool = λ t. not (among (take surplus ordered) t) in
      elim (Bool-cases (leb (length (filter is_closed ts)) 500)) [
        | inl e ↦ rw e (ground arith, refl)
        | inr e ↦ rw e (
          ground (
            arith,
            length-filter is_closed (filter keep ts),
            count_if-filter_comm is_closed keep ts,
            count_kept d,
          ),
          filter_comm (λ t. not (is_closed t)) keep ts ∙ filter-All keep _ (open_kept d),
        )
      ]

  -- Each closed track that eviction keeps was last seen no earlier than each track that it drops.
  pub evict_excess_closed_oldest :
      All
        (λ t. All (λ u. text_ltb t.last_seen u.last_seen ≡ false) (oldest_closed ts))
        (filter is_closed (evict_excess_closed ts))
  unfolding oldest_closed evict_excess_closed
  evict_excess_closed_oldest =
      let keep : Track → Bool = λ t. not (among (take surplus ordered) t) in
      elim (Bool-cases (leb (length (filter is_closed ts)) 500)) [
        | inl e ↦
            let none_over : surplus ≡ 0 = ground arith in
            rw (e, none_over) (All-const (filter is_closed ts))
        | inr e ↦
            rw (e, filter_comm is_closed keep ts)
              (All-filter_of _ keep (filter is_closed ts) kept_later)
      ]
