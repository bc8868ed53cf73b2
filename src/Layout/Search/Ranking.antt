-- ===== src/Layout/Search/Ranking.antt =====
-- services/ui/src/components/layout/search-resolver.ts: the hit for the id of a track comes first.
use classg.Prelude.{
  ℕ, ◌<◌, ◌≡◌, refl, subst, leb, inl, inr, arith, String, Bool, true, false, Option, none, some,
  List, [], ◌∷◌, ◌++◌, if◌then◌else◌, any, str_eq, eq_iff, sort_by, sort_by-first, All, All-append,
  All-imp, Bool-cases,
}
use classg.Layout.Search.{
  SearchHit, SearchIndex, Ranked, SerialEntry, MacEntry, SensorEntry, not_in_list, is_ulid,
  kind_order,
}
use classg.Layout.Search.Resolve.{
  take_distinct, resolve_search, ranked_first, ranked_hit, rank_of, track_row, track_hits,
  serial_hits, mac_hits, sensor_hits, normalise_mac,
}

-- Not an exact match of a track.
NotTop : Ranked → Type 0
NotTop r = r.rank ≡ 0 → 0 < kind_order r.hit.kind

ranked_hit-All :
    (P : Ranked → Type 0) (o : Option ℕ) (hit : SearchHit) (rest : List Ranked)
    → ((r : ℕ) → o ≡ some r → P (record { rank = r; hit = hit }))
    → All P rest
    → All P (ranked_hit o hit rest)
ranked_hit-All P none hit rest h hs = hs
ranked_hit-All P (some r) hit rest h hs = (h r refl, hs)

module _ (trim lower : String → String) (id_before : String → String → Bool) where
  tracks-NotTop :
      (raw : String) (ids : List String)
      → is_ulid raw ≡ true
      → All NotTop (track_hits trim lower id_before raw (lower raw) ids)
  unfolding NotTop rank_of
  tracks-NotTop raw [] u = tt
  tracks-NotTop raw (id ∷ ids) u = elim (Bool-cases (str_eq (lower id) (lower raw))) [
    | inl e ↦ rw (u, e) (tracks-NotTop raw ids u)
    | inr e ↦
        rw (u, e)
          (ranked_hit-All NotTop _ (track_row id none) _ (λ r q z. ground arith)
            (tracks-NotTop raw ids u))
  ]

  serials-NotTop :
      (needle : String) (es : List SerialEntry)
      → All NotTop (serial_hits trim lower id_before needle es)
  unfolding NotTop
  serials-NotTop needle [] = tt
  serials-NotTop needle (e ∷ es) =
      ranked_hit-All NotTop _ _ _ (λ r q z. ground arith) (serials-NotTop needle es)

  macs-NotTop :
      (needle : String) (es : List MacEntry) → All NotTop (mac_hits trim lower id_before needle es)
  unfolding NotTop
  macs-NotTop needle [] = tt
  macs-NotTop needle (e ∷ es) =
      ranked_hit-All NotTop _ _ _ (λ r q z. ground arith) (macs-NotTop needle es)

  sensors-NotTop :
      (needle : String) (es : List SensorEntry)
      → All NotTop (sensor_hits trim lower id_before needle es)
  unfolding NotTop
  sensors-NotTop needle [] = tt
  sensors-NotTop needle (e ∷ es) =
      ranked_hit-All NotTop _ _ _ (λ r q z. ground arith) (sensors-NotTop needle es)

  abbrev other_hits : String → SearchIndex → List Ranked
  other_hits raw index =
      track_hits trim lower id_before raw (lower raw) index.track_ids
      ++ (serial_hits trim lower id_before (lower raw) index.serials
          ++ (mac_hits trim lower id_before (normalise_mac trim lower id_before raw) index.macs
              ++ sensor_hits trim lower id_before (lower raw) index.sensors))

  others-NotTop :
      (raw : String) (index : SearchIndex) → is_ulid raw ≡ true → All NotTop (other_hits raw index)
  others-NotTop raw index u = All-append NotTop _ _ (tracks-NotTop raw index.track_ids u) (
      All-append NotTop _ _ (serials-NotTop (lower raw) index.serials) (
        All-append NotTop _ _ (macs-NotTop (normalise_mac trim lower id_before raw) index.macs)
          (sensors-NotTop (lower raw) index.sensors)))

  ranked_first_top :
      (hit : SearchHit) (rs : List Ranked)
      → kind_order hit.kind ≡ 0
      → All NotTop rs
      → All (λ r. ranked_first trim lower id_before (record { rank = 0; hit = hit }) r ≡ true) rs
  unfolding NotTop
  ranked_first_top hit rs k h =
      All-imp _ (λ r. ranked_first trim lower id_before (record { rank = 0; hit = hit }) r ≡ true)
        (λ r p. ground (arith, p)) rs h

cong_ulid : (s : String) → s ≡ "" → is_ulid s ≡ true → str_eq s "" ≡ false
unfolding is_ulid
cong_ulid s e u = ground (arith, subst (λ t. is_ulid t ≡ true) e u)

ulid_filled : (s : String) → is_ulid s ≡ true → str_eq s "" ≡ false
unfolding is_ulid
ulid_filled s u = elim (Bool-cases (str_eq s "")) [
  | inl e ↦ cong_ulid s ((eq_iff s "").0 e) u
  | inr e ↦ e
]

take_first :
    (limit : ℕ) (r : Ranked) (rs : List Ranked)
    → (rest : List SearchHit) × (take_distinct limit [] 0 (r ∷ rs) ≡ r.hit ∷ rest)
unfolding take_distinct
take_first limit r rs = (if leb limit 1 then [] else take_distinct limit (r.hit.id ∷ []) 1 rs, refl)

-- A search for a text that has the form of a track's id answers, before all else, the page of that
-- track, whether the index has it or not.
pub track_id_comes_first :
    (trim lower : String → String) (id_before : String → String → Bool) (query : String)
    (index : SearchIndex) (limit : ℕ)
    → is_ulid (trim query) ≡ true
    → (rest : List SearchHit) × (resolve_search trim lower id_before query index limit
        ≡ track_row
            (trim query)
            (if any (str_eq (trim query)) index.track_ids then none else some not_in_list)
          ∷ rest)
unfolding resolve_search
track_id_comes_first trim lower id_before query index limit u =
    let raw = trim query in
    let hit = track_row raw (if any (str_eq raw) index.track_ids then none else some not_in_list) in
    let top : Ranked = record { rank = 0; hit = hit } in
    let before = ranked_first trim lower id_before in
    let others = other_hits trim lower id_before raw index in
    let (rest, e) = take_first limit top (sort_by before others) in
    let sorted = sort_by-first before top others (
      ranked_first_top trim lower id_before hit others refl
        (others-NotTop trim lower id_before raw index u)) in
    (rest, rw (ulid_filled raw u, u, sorted, e))
