-- ===== src/Layout/Search/Resolve.antt =====
-- services/ui/src/components/layout/search-resolver.ts: `resolveSearch`, from the text to the hits.
-- `trim`, `toLowerCase` and `localeCompare(…) <= 0` are parameters.
use classg.Prelude.{
  ℕ, suc, String, Bool, true, false, Option, none, some, List, [], ◌∷◌, ◌++◌, ◌&&◌, if◌then◌else◌,
  ltb, leb, ◌==◌, any, sort_by, str_eq, str_append, truthy, get_or_else, starts_with, includes,
}
use classg.Layout.Search.{
  SearchHit, track_hit, serial_hit, label_hit, mac_hit, sensor_hit, HitDetail, words, sensor,
  not_in_list, to_track, to_flights, to_sensor, SerialEntry, MacEntry, SensorEntry, SearchIndex,
  Ranked, is_ulid, without_separators, kind_order,
}

abbrev pub search_result_limit : ℕ
search_result_limit = 8

-- Whether a label beats a serial, a lower rank being better and `none` no match.
abbrev pub beats : Option ℕ → Option ℕ → Bool
beats none serial = false
beats (some l) none = true
beats (some l) (some s) = ltb l s

abbrev pub words_of : Option String → Option HitDetail
words_of none = none
words_of (some w) = some (words w)

-- The hit for a rank, if there is one.
abbrev pub ranked_hit : Option ℕ → SearchHit → List Ranked → List Ranked
ranked_hit none hit rest = rest
ranked_hit (some r) hit rest = record { rank = r; hit = hit } ∷ rest

abbrev pub track_row : String → Option HitDetail → SearchHit
track_row id detail = record {
  id = str_append "track:" id;
  kind = track_hit;
  label = id;
  detail = detail;
  target = to_track id;
}

abbrev pub serial_row : SerialEntry → Bool → SearchHit
serial_row e use_label = record {
  id = str_append "serial:" e.value;
  kind = if use_label then label_hit else serial_hit;
  label = if use_label then get_or_else e.label e.value else e.value;
  detail = if use_label then some (words e.value) else words_of e.label;
  target = to_flights e.value;
}

abbrev pub mac_row : MacEntry → SearchHit
mac_row e = record {
  id = str_append "mac:" e.value;
  kind = mac_hit;
  label = e.value;
  detail = words_of e.vendor;
  target = to_flights e.value;
}

abbrev pub sensor_row : SensorEntry → SearchHit
sensor_row e = record {
  id = str_append "sensor:" e.id;
  kind = sensor_hit;
  label = e.id;
  detail = some (sensor e.kind);
  target = to_sensor e.id;
}

-- The loop that drops a hit whose id it has seen, and ends once it has as many as the limit.
unfoldable pub take_distinct : ℕ → List String → ℕ → List Ranked → List SearchHit
take_distinct limit seen n [] = []
take_distinct limit seen n (r ∷ rs) =
    if any (str_eq r.hit.id) seen
    then take_distinct limit seen n rs
    else r.hit
      ∷ (if leb limit (suc n) then [] else take_distinct limit (r.hit.id ∷ seen) (suc n) rs)

module _ (trim lower : String → String) (id_before : String → String → Bool) where
  abbrev pub rank_in : String → String → Option ℕ
  rank_in needle hay =
      if str_eq hay needle
      then some 0
      else if starts_with hay needle
      then some 1
      else if includes hay needle
      then some 2
      else none

  unfoldable pub rank_of : String → String → Option ℕ
  rank_of needle hay = rank_in needle (lower hay)

  unfoldable pub normalise_mac : String → String
  normalise_mac value = lower (without_separators value)

  abbrev pub ulid_hits : String → SearchIndex → List Ranked
  ulid_hits raw index =
      if is_ulid raw
      then record {
        rank = 0;
        hit = track_row raw (if any (str_eq raw) index.track_ids then none else some not_in_list);
      }
        ∷ []
      else []

  abbrev pub track_hits : String → String → List String → List Ranked
  track_hits raw needle [] = []
  track_hits raw needle (id ∷ ids) =
      let rest = track_hits raw needle ids in
      if is_ulid raw && str_eq (lower id) needle
      then rest
      else ranked_hit (rank_of needle id) (track_row id none) rest

  -- `entry.label ? rankOf(needle, entry.label) : null`
  abbrev pub label_rank : String → SerialEntry → Option ℕ
  label_rank needle e = if truthy e.label then rank_of needle (get_or_else e.label "") else none

  abbrev pub serial_hits : String → List SerialEntry → List Ranked
  serial_hits needle [] = []
  serial_hits needle (e ∷ es) =
      let use_label = beats (label_rank needle e) (rank_of needle e.value) in
      ranked_hit (if use_label then label_rank needle e else rank_of needle e.value)
        (serial_row e use_label) (serial_hits needle es)

  abbrev pub mac_hits : String → List MacEntry → List Ranked
  mac_hits needle [] = []
  mac_hits needle (e ∷ es) =
      ranked_hit (rank_of needle (normalise_mac e.value)) (mac_row e) (mac_hits needle es)

  abbrev pub sensor_hits : String → List SensorEntry → List Ranked
  sensor_hits needle [] = []
  sensor_hits needle (e ∷ es) =
      ranked_hit (rank_of needle e.id) (sensor_row e) (sensor_hits needle es)

  abbrev pub ranked_first : Ranked → Ranked → Bool
  ranked_first a b =
      if a.rank == b.rank
      then if kind_order a.hit.kind == kind_order b.hit.kind
        then id_before a.hit.label b.hit.label
        else ltb (kind_order a.hit.kind) (kind_order b.hit.kind)
      else ltb a.rank b.rank

  abbrev pub all_ranked : String → SearchIndex → List Ranked
  all_ranked raw index =
      ulid_hits raw index
      ++ (track_hits raw (lower raw) index.track_ids
          ++ (serial_hits (lower raw) index.serials
              ++ (mac_hits (normalise_mac raw) index.macs
                  ++ sensor_hits (lower raw) index.sensors)))

  unfoldable pub resolve_search : String → SearchIndex → ℕ → List SearchHit
  resolve_search query index limit =
      let raw = trim query in
      if str_eq raw ""
      then []
      else take_distinct limit [] 0 (sort_by ranked_first (all_ranked raw index))
