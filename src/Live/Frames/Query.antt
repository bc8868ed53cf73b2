-- ===== src/Live/Frames/Query.antt =====
-- The filters of a list query, `matchesQuery` of live-frames.ts, and `normalizeTrack` of
-- services/ui/src/lib/api/client.ts.
use classg.Prelude.{
  ℕ, String, Bool, true, false, ◌&&◌, Option, none, some, List, [], ◌∷◌, ltb, if◌then◌else◌, not,
  get_or_else, length, any, str_eq, text_ltb, opt_eq,
}
use classg.Api.{
  TrackState, tentative, confirmed, coasting, closed, Evidence, Identity, Track, RawEvidence,
  entries, by_class, absent, other, RawTrack, TracksQuery,
}

-- `filter(Boolean)` on values that may be null.
abbrev pub present : List (Option Evidence) → List Evidence
present [] = []
present (none ∷ es) = present es
present (some e ∷ es) = e ∷ present es

pub normalize_evidence : RawEvidence → List Evidence
normalize_evidence (entries es) = es
normalize_evidence (by_class es) = present es
normalize_evidence absent = []
normalize_evidence other = []

abbrev pub or_else {ℓ} : {A : Type ℓ} → Option A → Option A → Option A
or_else none b = b
or_else (some a) b = some a

abbrev pub join {ℓ} : {A : Type ℓ} → Option (Option A) → Option A
join none = none
join (some o) = o

unfoldable pub normalize_track : RawTrack → Track
unfolding normalize_evidence
normalize_track raw = record raw.track {
  evidence = some (normalize_evidence raw.evidence);
  history = some (get_or_else raw.track.history []);
  adsb_correlated =
      some (get_or_else (or_else raw.track.adsb_correlated (join raw.suppression)) false);
}

abbrev pub same_state : TrackState → TrackState → Bool
same_state tentative tentative = true
same_state confirmed confirmed = true
same_state coasting coasting = true
same_state closed closed = true
same_state _ _ = false

abbrev pub is_closed : Track → Bool
is_closed t = same_state t.state closed

abbrev pub serial_of : Option Identity → Option String
serial_of none = none
serial_of (some i) = i.serial

abbrev pub vendor_of : Option Identity → Option String
vendor_of none = none
vendor_of (some i) = i.vendor

-- `query.state && query.state.length > 0 && !query.state.includes(track.state)`
abbrev pub state_refused : Track → Option (List TrackState) → Bool
state_refused t none = false
state_refused t (some states) = ltb 0 (length states) && not (any (same_state t.state) states)

-- `query.since && track.last_seen < query.since`
abbrev pub since_refused : Track → Option String → Bool
since_refused t none = false
since_refused t (some since) = not (str_eq since "") && text_ltb t.last_seen since

-- `query.until && track.last_seen > query.until`
abbrev pub until_refused : Track → Option String → Bool
until_refused t none = false
until_refused t (some until) = not (str_eq until "") && text_ltb until t.last_seen

abbrev pub serial_refused : Track → Option String → Bool
serial_refused t none = false
serial_refused t (some serial) = not (opt_eq (serial_of t.identity) serial)

abbrev pub confidence_refused : Track → Option ℕ → Bool
confidence_refused t none = false
confidence_refused t (some floor) = ltb t.confidence floor

-- `toLowerCase` follows the Unicode tables of the browser, and is a parameter.
module _ (lower : String → String) where
  abbrev vendor_refused : Track → Option String → Bool
  vendor_refused t none = false
  vendor_refused t (some vendor) =
      not (str_eq (lower (get_or_else (vendor_of t.identity) "")) (lower vendor))

  unfoldable pub matches_query : Track → TracksQuery → Bool
  matches_query t q =
      if state_refused t q.state
      then false
      else if since_refused t q.since
      then false
      else if until_refused t q.until
      then false
      else if serial_refused t q.serial
      then false
      else if vendor_refused t q.vendor
      then false
      else if confidence_refused t q.min_confidence
      then false
      else true
