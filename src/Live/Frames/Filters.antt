-- ===== src/Live/Frames/Filters.antt =====
-- The list caches of live-frames.ts against the filters in their keys.
use classg.Prelude.{
  DistinctBy, DistinctBy-append, DistinctBy-set, DistinctBy-filter, ℕ, String, ◌≡◌, inl, inr, Bool,
  true, none, some, List, [], ◌∷◌, ◌++◌, arith, Bool-cases, Option-cases, not, filter, find_index,
  All, All-append, All-filter, All-set, All-map, find_index-none, find_index-some, str_eq, eq_iff,
  any, length, leb, sym, subst,
}
use classg.Api.{
  Track, closed, TracksQuery, TracksResponse, ServerFrame, track_update, track_closed, detection,
}
use classg.Live.Frames.{
  has_id, is_closed, ListEntry, QueryCache, matches_query, evict_excess_closed, doomed, drop_track,
  replace_track, append_track, update_response, update_entry, close_at, close_response, close_entry,
  normalize_track, apply_frame, apply_frames,
}

-- No two tracks of a list share an id.
abbrev pub Distinct : List Track → Type 0
Distinct ts = DistinctBy (λ t. t.track_id) ts

module _ (lower : String → String) where
  -- What a list cache promises: every track answers the query of its key, and no id stands twice.
  pub record IsConsistent (query : TracksQuery) (r : TracksResponse) : Type 0 where
    pub matching : All (λ t. matches_query lower t query ≡ true) r.tracks
    pub distinct : Distinct r.tracks

  abbrev pub EntryIsConsistent : ListEntry → Type 0
  EntryIsConsistent e = elim e.response [ none ↦ Unit | some r ↦ IsConsistent e.query r ]

  evict-IsConsistent :
      (q : TracksQuery) (ts : List Track)
      → All (λ t. matches_query lower t q ≡ true) ts
      → Distinct ts
      → All (λ t. matches_query lower t q ≡ true) (evict_excess_closed ts)
        × Distinct (evict_excess_closed ts)
  unfolding evict_excess_closed
  evict-IsConsistent q ts h d =
      let keep : Track → Bool = λ t. not (any (str_eq t.track_id) (doomed ts)) in
      elim (Bool-cases (leb (length (filter is_closed ts)) 500)) [
        | inl e ↦ rw e (h, d)
        | inr e ↦ rw e (
          All-filter (λ t. matches_query lower t q ≡ true) keep ts h,
          DistinctBy-filter (λ t. t.track_id) keep ts d,
        )
      ]

  append-IsConsistent :
      (q : TracksQuery) (t : Track) (r : TracksResponse)
      → IsConsistent q r
      → matches_query lower t q ≡ true
      → find_index (has_id t.track_id) r.tracks ≡ none
      → IsConsistent q (append_track t r)
  unfolding append_track
  append-IsConsistent q t r c m absent =
      let kept =
        evict-IsConsistent q (r.tracks ++ t ∷ [])
          (All-append (λ u. matches_query lower u q ≡ true) r.tracks (t ∷ []) c.matching (m, tt))
          (DistinctBy-append (λ t. t.track_id) r.tracks t
            (find_index-none (has_id t.track_id) r.tracks absent) c.distinct) in
      record { matching = kept.0; distinct = kept.1 }

  replace-IsConsistent :
      (q : TracksQuery) (i : ℕ) (t : Track) (r : TracksResponse)
      → IsConsistent q r
      → matches_query lower t q ≡ true
      → find_index (has_id t.track_id) r.tracks ≡ some i
      → IsConsistent q (replace_track i t r)
  unfolding replace_track
  replace-IsConsistent q i t r c m at = record {
    matching = All-set (λ u. matches_query lower u q ≡ true) r.tracks i t c.matching m;
    distinct = DistinctBy-set (λ t. t.track_id) r.tracks i t at c.distinct;
  }

  drop-IsConsistent :
      (q : TracksQuery) (id : String) (r : TracksResponse)
      → IsConsistent q r
      → IsConsistent q (drop_track id r)
  unfolding drop_track
  drop-IsConsistent q id r c = record {
    matching =
        All-filter (λ u. matches_query lower u q ≡ true) (λ t. not (has_id id t)) r.tracks
          c.matching;
    distinct = DistinctBy-filter (λ t. t.track_id) (λ t. not (has_id id t)) r.tracks c.distinct;
  }

  update-IsConsistent :
      (q : TracksQuery) (t : Track) (r : TracksResponse)
      → IsConsistent q r
      → IsConsistent q (update_response lower t q r)
  unfolding update_response
  update-IsConsistent q t r c = elim (Option-cases (find_index (has_id t.track_id) r.tracks)) [
    | inl absent ↦ elim (Bool-cases (matches_query lower t q)) [
      | inl m ↦ rw (absent, m, update_response) (append-IsConsistent q t r c m absent)
      | inr m ↦ rw (absent, m, update_response) c
    ]
    | inr (i, at) ↦ elim (Bool-cases (matches_query lower t q)) [
      | inl m ↦ rw (at, m, update_response) (replace-IsConsistent q i t r c m at)
      | inr m ↦ rw (at, m, update_response) (drop-IsConsistent q t.track_id r c)
    ]
  ]

  close_at-IsConsistent :
      (q : TracksQuery) (i : ℕ) (t : Track) (r : TracksResponse)
      → IsConsistent q r
      → find_index (has_id t.track_id) r.tracks ≡ some i
      → IsConsistent q (close_at lower t.track_id i t q r)
  unfolding close_at
  close_at-IsConsistent q i t r c at =
      let shut : Track = record t { state = closed } in
      elim (Bool-cases (is_closed t)) [
        | inl e ↦ rw e c
        | inr e ↦ elim (Bool-cases (matches_query lower shut q)) [
          | inl m ↦ rw (e, m) (replace-IsConsistent q i shut r c m at)
          | inr m ↦ rw (e, m) (drop-IsConsistent q t.track_id r c)
        ]
      ]

  close-IsConsistent :
      (q : TracksQuery) (id : String) (r : TracksResponse)
      → IsConsistent q r
      → IsConsistent q (close_response lower id q r)
  unfolding close_response
  close-IsConsistent q id r c = elim (Option-cases (find_index (has_id id) r.tracks)) [
    | inl absent ↦ rw (absent, close_response) c
    | inr (i, at) ↦
        let (t, got, same) = find_index-some (has_id id) r.tracks i at in
        let e : id ≡ t.track_id = sym ((eq_iff _ _).0 same) in
        rw (at, got, close_response)
          (subst (λ k. IsConsistent q (close_at lower k i t q r)) (sym e)
            (close_at-IsConsistent q i t r c (rw e at at)))
  ]

  update_entry-IsConsistent :
      (t : Track) (e : ListEntry) → EntryIsConsistent e → EntryIsConsistent (update_entry lower t e)
  unfolding update_entry
  update_entry-IsConsistent t e c = elim (Option-cases e.response) [
    | inl missing ↦ rw (missing, update_entry) c
    | inr (r, got) ↦ rw (got, update_entry) (update-IsConsistent e.query t r (rw got at c))
  ]

  close_entry-IsConsistent :
      (id : String) (e : ListEntry)
      → EntryIsConsistent e
      → EntryIsConsistent (close_entry lower id e)
  unfolding close_entry
  close_entry-IsConsistent id e c = elim (Option-cases e.response) [
    | inl missing ↦ rw (missing, close_entry) c
    | inr (r, got) ↦ rw (got, close_entry) (close-IsConsistent e.query id r (rw got at c))
  ]

  -- Every list cache is consistent with the filters of its key.
  abbrev pub ListsAreConsistent : QueryCache → Type 0
  ListsAreConsistent c = All EntryIsConsistent c.track_lists

  -- Whatever frame arrives, if each list cache holds only tracks that answer its query, with no id
  -- twice, so does each list cache afterwards.
  pub apply_frame-ListsAreConsistent :
      (f : ServerFrame) (c : QueryCache)
      → ListsAreConsistent c
      → ListsAreConsistent (apply_frame lower f c)
  unfolding apply_frame
  apply_frame-ListsAreConsistent (track_update raw) c h =
      All-map EntryIsConsistent EntryIsConsistent (update_entry lower (normalize_track raw))
        (update_entry-IsConsistent (normalize_track raw)) c.track_lists h
  apply_frame-ListsAreConsistent (track_closed id) c h =
      All-map EntryIsConsistent EntryIsConsistent (close_entry lower id)
        (close_entry-IsConsistent id) c.track_lists h
  apply_frame-ListsAreConsistent (detection d) c h = ground arith
  apply_frame-ListsAreConsistent _ c h = h

  -- If each list cache holds only tracks that answer its query, with no id twice, so does each list
  -- cache after any sequence of frames.
  pub apply_frames-ListsAreConsistent :
      (fs : List ServerFrame) (c : QueryCache)
      → ListsAreConsistent c
      → ListsAreConsistent (apply_frames lower fs c)
  unfolding apply_frames
  apply_frames-ListsAreConsistent [] c h = h
  apply_frames-ListsAreConsistent (f ∷ fs) c h =
      apply_frames-ListsAreConsistent fs (apply_frame lower f c)
        (apply_frame-ListsAreConsistent f c h)
