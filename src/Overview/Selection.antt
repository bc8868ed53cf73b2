-- ===== src/Overview/Selection.antt =====
-- services/ui/src/features/map/selection.ts: the contact that is selected, one slot for both kinds.
use classg.Prelude.{◌≡◌, refl, ◌⊎◌, inl, inr, String, Option, none, some}

pub data ContactKind : Type 0 where
  drone manned : ContactKind

pub record Selected : Type 0 where
  pub kind : ContactKind
  pub id : String

-- `selectTrack(id)` and `selectManned(id)`, which replace what was selected.
abbrev pub select_track : Option String → Option Selected
select_track none = none
select_track (some id) = some (record { kind = drone; id = id })

abbrev pub select_manned : Option String → Option Selected
select_manned none = none
select_manned (some id) = some (record { kind = manned; id = id })

abbrev pub id_of : ContactKind → ContactKind → String → Option String
id_of drone drone id = some id
id_of manned manned id = some id
id_of _ _ id = none

abbrev pub selected_track_id : Option Selected → Option String
selected_track_id none = none
selected_track_id (some s) = id_of drone s.kind s.id

abbrev pub selected_manned_icao : Option Selected → Option String
selected_manned_icao none = none
selected_manned_icao (some s) = id_of manned s.kind s.id

-- Two contacts are never selected at once.
one_selected :
    (s : Option Selected) → (selected_track_id s ≡ none) ⊎ (selected_manned_icao s ≡ none)
one_selected none = inl refl
one_selected (some s) = go s.kind s.id
  where
    go : (k : ContactKind) (id : String) → (id_of drone k id ≡ none) ⊎ (id_of manned k id ≡ none)
    go drone id = inr refl
    go manned id = inl refl
