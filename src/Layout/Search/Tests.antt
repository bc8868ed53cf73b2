-- ===== src/Layout/Search/Tests.antt =====
-- A small index of search-resolver.ts, and its theorems there.
use classg.Prelude.{
  ◌≤◌, ◌≡◌, refl, max, String, Bool, none, some, List, [], ◌∷◌, map, any, length, if◌then◌else◌,
  str_eq, DistinctBy, sort_by, insert, text_ltb, not,
}
use classg.Api.{Track, TrackState, AircraftLabel}
use classg.Layout.Search.{SearchHit, SearchIndex, is_ulid, not_in_list, to_flights}
use classg.Layout.Search.Resolve.{resolve_search, take_distinct, rank_of, normalise_mac, track_row}
use classg.Layout.Search.Index.{build_search_index}
use classg.Layout.Search.Limit.{hits_are_few_and_distinct}
use classg.Layout.Search.Ranking.{track_id_comes_first}

-- Texts of the tests have no spaces around them, and are in lower case but for the ids of tracks.
abbrev same_text : String → String
same_text s = s

abbrev not_after : String → String → Bool
not_after a b = not (text_ltb b a)

abbrev flight : Track
flight = record {
  track_id = "01hv8z6q0000000000000000ab";
  state = TrackState.closed;
  first_seen = "a";
  last_seen = "b";
  detection_count = 1;
  identity = some (record {
    serial = some "sn-1";
    macs = "a4:2b" ∷ [];
    vendor = some "dji";
    ua_type = none;
    manufacturer_code = none;
    model_hint = none;
    operator_id = none;
  });
  confidence = 700;
  evidence = none;
  current = none;
  history = none;
  operator = none;
  adsb_correlated = none;
}

abbrev labels : List AircraftLabel
labels =
    record { serial = "sn-1"; label = "red" }
    ∷ record { serial = "sn-1"; label = "scout" }
    ∷ record { serial = "sn-2"; label = "spare" }
    ∷ []

abbrev index : SearchIndex
index = build_search_index (flight ∷ flight ∷ []) labels []

-- A label, a MAC without its separators, and the start of two serials.
found :
    (map (λ h. h.target) (resolve_search same_text same_text not_after "scout" index 8)
      ≡ to_flights "sn-1" ∷ [])
    × (map (λ h. h.label) (resolve_search same_text same_text not_after "a42b" index 8)
        ≡ "a4:2b" ∷ [])
    × (map (λ h. h.label) (resolve_search same_text same_text not_after "sn" index 8)
        ≡ "sn-1" ∷ "sn-2" ∷ [])
    × (map (λ h. h.label) (resolve_search same_text same_text not_after "sn" index 1) ≡ "sn-1" ∷ [])
    × (resolve_search same_text same_text not_after "" index 8 ≡ [])
unfolding resolve_search take_distinct rank_of normalise_mac is_ulid build_search_index sort_by
    insert text_ltb
found = (refl, refl, refl, refl, refl)

hits_are_few_and_distinct_example :
    (length (resolve_search same_text same_text not_after "sn" index 1) ≤ max 1 1)
    × DistinctBy (λ h. h.id) (resolve_search same_text same_text not_after "sn" index 1)
hits_are_few_and_distinct_example =
    hits_are_few_and_distinct same_text same_text not_after "sn" index 1

track_id_comes_first_example :
    (rest : List SearchHit) × (resolve_search same_text same_text not_after
        "01HV8Z6Q0000000000000000ZZ" index 8
      ≡ track_row "01HV8Z6Q0000000000000000ZZ" (
          if any (str_eq "01HV8Z6Q0000000000000000ZZ") index.track_ids
          then none
          else some not_in_list)
        ∷ rest)
unfolding is_ulid
track_id_comes_first_example =
    track_id_comes_first same_text same_text not_after "01HV8Z6Q0000000000000000ZZ" index 8 refl
