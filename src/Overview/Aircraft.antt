-- ===== src/Overview/Aircraft.antt =====
-- services/ui/src/features/map/aircraft.ts: one entry for each aircraft among the ADS-B detections.
-- `Date.parse` is a parameter, `none` where it answers NaN. The comparator of the sort never answers
-- 0: which of two reports of one instant comes first is left to the sort, and here it is the first.
mod Once
mod Latest
mod Tests
use classg.Prelude.{
  ℕ, ◌-◌, String, Bool, false, Option, none, some, List, [], ◌∷◌, ◌++◌, map, str_eq, not,
  if◌then◌else◌, ltb, text_ltb, sort_by, lookup, put,
}
use classg.Api.{Detection}
use classg.Live.Frames.{icao_of}

-- `if (!icao)`
abbrev pub named : Option String → Option String
named none = none
named (some icao) = if str_eq icao "" then none else some icao

abbrev pub aircraft : Detection → Option String
aircraft d = named (icao_of d.adsb)

pub record Contacts : Type 0 where
  pub newest_by_icao : List (String × Detection)
  pub unattributed : List Detection

-- The entry of the address after a report, `seen` being the one it had.
abbrev pub newer :
    List (String × Detection) → String → Detection → Option Detection → List (String × Detection)
newer m icao d none = put str_eq m icao d
newer m icao d (some seen) = if text_ltb seen.ts d.ts then put str_eq m icao d else m

abbrev pub file : Option String → Detection → Contacts → Contacts
file none d s = record s { unattributed = s.unattributed ++ d ∷ [] }
file (some icao) d s = record s {
  newest_by_icao = newer s.newest_by_icao icao d (lookup str_eq s.newest_by_icao icao);
}

-- The comparator answers -1 unless the first is older.
abbrev pub later_first : Detection → Detection → Bool
later_first a b = not (text_ltb a.ts b.ts)

abbrev pub none_yet : Contacts
none_yet = record { newest_by_icao = []; unattributed = [] }

module _ (parse : String → Option ℕ) (max_age_ms : Option ℕ) (now : ℕ) where
  abbrev pub too_old : Option ℕ → Option ℕ → Bool
  too_old none at = false
  too_old (some age) none = false
  too_old (some age) (some at) = ltb age (now - at)

  abbrev pub is_stale : Detection → Bool
  is_stale d = too_old max_age_ms (parse d.ts)

  abbrev pub take_in : Contacts → Detection → Contacts
  take_in s d = if is_stale d then s else file (aircraft d) d s

  abbrev pub collect : Contacts → List Detection → Contacts
  collect s [] = s
  collect s (d ∷ ds) = collect (take_in s d) ds

  pub aircraft_from_detections : List Detection → List Detection
  aircraft_from_detections ds =
      let s = collect none_yet ds in
      sort_by later_first (map (λ e. e.1) s.newest_by_icao ++ s.unattributed)
