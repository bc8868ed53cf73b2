-- ===== src/Live/Frames/Totals.antt =====
-- The `total` of a list cache in live-frames.ts follows the tracks that are added and removed.
use classg.Prelude.{
  ap, ℕ, zero, suc, ◌-◌, ◌≤◌, String, ◌≡◌, refl, inl, inr, false, some, List, [], ◌∷◌, ◌++◌, arith,
  Bool-cases, Option-cases, not, filter, find_index, set, All-imp, length, length-append,
  find_index-some, str_eq, eq_iff, filter-All,
}
use classg.Api.{Track, closed, TracksQuery, TracksResponse}
use classg.Live.Frames.{
  has_id, is_closed, matches_query, evict_excess_closed, drop_track, replace_track, append_track,
  update_response, close_at, close_response,
}
use classg.Live.Frames.Filters.{Distinct}

length-set : (ts : List Track) (i : ℕ) (t : Track) → length (set ts i t) ≡ length ts
length-set [] i t = refl
length-set (u ∷ ts) zero t = refl
length-set (u ∷ ts) (suc i) t = omega (arith, length-set ts i t)

-- Dropping the one track of an id makes the list one shorter.
length-drop_id :
    (id : String) (ts : List Track) (i : ℕ)
    → Distinct ts
    → find_index (has_id id) ts ≡ some i
    → suc (length (filter (λ t. not (has_id id t)) ts)) ≡ length ts
length-drop_id id [] i d h = cc
length-drop_id id (t ∷ ts) i d h = elim (Bool-cases (has_id id t)) [
  | inl e ↦ rw e (
      ap (λ (us : List Track). suc (length us))
        (filter-All (λ u. not (has_id id u)) ts
          (All-imp (λ u. str_eq u.track_id t.track_id ≡ false) _
            (λ u k.
              ground
                (arith, eq_iff t.track_id id, eq_iff u.track_id id, eq_iff u.track_id t.track_id))
            ts d.0)))
  | inr e ↦ elim (Option-cases (find_index (has_id id) ts)) [
    | inl absent ↦ ground arith
    | inr (j, at) ↦ rw e (ap suc (length-drop_id id ts j d.1 at))
  ]
]

-- The tracks of the response that the cache does not hold: those on other pages, and those evicted.
abbrev pub unlisted : TracksResponse → ℕ
unlisted r = r.total - length r.tracks

module _ (lower : String → String) where
  -- If no two tracks of a list share an id, the list is no longer than its total, and with the new track
  -- it would hold at most 500 closed ones, then an update of that track leaves the number of tracks
  -- that are counted but not listed as it was, and the list no longer than its total.
  pub update_response_total :
      (t : Track) (q : TracksQuery) (r : TracksResponse)
      → Distinct r.tracks
      → length r.tracks ≤ r.total
      → length (filter is_closed (r.tracks ++ t ∷ [])) ≤ 500
      → (unlisted (update_response lower t q r) ≡ unlisted r)
        × (length (update_response lower t q r).tracks ≤ (update_response lower t q r).total)
  unfolding update_response append_track replace_track drop_track evict_excess_closed
  update_response_total t q r d bounded room =
      elim (Option-cases (find_index (has_id t.track_id) r.tracks)) [
        | inl absent ↦ elim (Bool-cases (matches_query lower t q)) [
          | inl m ↦
              rw (absent, m, update_response) (ground (arith, length-append r.tracks (t ∷ [])))
          | inr m ↦ rw (absent, m, update_response) (refl, bounded)
        ]
        | inr (i, at) ↦ elim (Bool-cases (matches_query lower t q)) [
          | inl m ↦ rw (at, m, update_response) (omega (arith, length-set r.tracks i t))
          | inr m ↦
              rw (at, m, update_response) (omega (arith, length-drop_id t.track_id r.tracks i d at))
        ]
      ]

  -- If no two tracks of a list share an id and the list is no longer than its total, then closing a
  -- track leaves the number of tracks that are counted but not listed as it was, and the list no longer
  -- than its total.
  pub close_response_total :
      (id : String) (q : TracksQuery) (r : TracksResponse)
      → Distinct r.tracks
      → length r.tracks ≤ r.total
      → (unlisted (close_response lower id q r) ≡ unlisted r)
        × (length (close_response lower id q r).tracks ≤ (close_response lower id q r).total)
  unfolding close_response close_at replace_track drop_track
  close_response_total id q r d bounded = elim (Option-cases (find_index (has_id id) r.tracks)) [
    | inl absent ↦ rw (absent, close_response) (refl, bounded)
    | inr (i, at) ↦
        let (t, got, same) = find_index-some (has_id id) r.tracks i at in
        rw (at, got, close_response)
          (ground (
            arith,
            length-set r.tracks i (record t { state = closed }),
            length-drop_id id r.tracks i d at,
          ))
  ]
