-- ===== src/Layout/Search.antt =====
-- services/ui/src/components/layout/search-resolver.ts: what a text typed into the search box means.
-- `trim`, `toLowerCase` and `localeCompare(…) <= 0` are parameters. Texts are compared by their code
-- points.
pub mod Resolve
pub mod Index
pub mod Limit
pub mod Ranking
pub mod Entries
mod Tests
use classg.Prelude.{
  ℕ, ◌-◌, String, Bool, Option, List, [], ◌∷◌, ◌&&◌, ◌||◌, if◌then◌else◌, leb, ◌==◌, any, all,
  length, codes,
}
use Prim.Native.Char.{code}
use classg.Api.{SensorKind}

pub data SearchHitKind : Type 0 where
  track_hit serial_hit label_hit mac_hit sensor_hit : SearchHitKind

pub data SearchTarget : Type 0 where
  to_track to_flights to_sensor : String → SearchTarget

-- The qualifier of a hit: a text, the kind of a sensor, or that the track is not in the list.
pub data HitDetail : Type 0 where
  words : String → HitDetail
  sensor : SensorKind → HitDetail
  not_in_list : HitDetail

pub record SearchHit : Type 0 where
  pub id : String
  pub kind : SearchHitKind
  pub label : String
  pub detail : Option HitDetail
  pub target : SearchTarget

pub record SerialEntry : Type 0 where
  pub value : String
  pub vendor : Option String
  pub label : Option String

pub record MacEntry : Type 0 where
  pub value : String
  pub vendor : Option String

pub record SensorEntry : Type 0 where
  pub id : String
  pub kind : SensorKind

pub record SearchIndex : Type 0 where
  pub track_ids : List String
  pub serials : List SerialEntry
  pub macs : List MacEntry
  pub sensors : List SensorEntry

pub record Ranked : Type 0 where
  pub rank : ℕ
  pub hit : SearchHit

abbrev between : ℕ → ℕ → ℕ → Bool
between lo hi c = leb lo c && leb c hi

-- `[0-9A-HJKMNP-TV-Z]`, in either case.
abbrev is_base32 : ℕ → Bool
is_base32 c =
    between 48 57 c
    || (between 65 72 c
        || (c == 74 || (c == 75 || (c == 77 || (c == 78 || (between 80 84 c || between 86 90 c))))))

abbrev is_ulid_char : ℕ → Bool
is_ulid_char c = is_base32 c || (between 97 122 c && is_base32 (c - 32))

-- `/^[0-9A-HJKMNP-TV-Z]{26}$/i`
pub is_ulid : String → Bool
is_ulid s = length (codes s) == 26 && all is_ulid_char (codes s)

-- `[:\-.\s]`
abbrev is_separator : ℕ → Bool
is_separator c =
    any (λ d. c == d)
      (58 ∷ 45 ∷ 46 ∷ 32 ∷ 160 ∷ 5760 ∷ 8232 ∷ 8233 ∷ 8239 ∷ 8287 ∷ 12288 ∷ 65279 ∷ [])
    || (between 9 13 c || between 8192 8202 c)

abbrev without_separators : String → String
without_separators String.[] = ""
without_separators (String.◌∷◌ c s) =
    if is_separator (code c) then without_separators s else String.◌∷◌ c (without_separators s)

abbrev pub kind_order : SearchHitKind → ℕ
kind_order track_hit = 0
kind_order serial_hit = 1
kind_order label_hit = 2
kind_order mac_hit = 3
kind_order sensor_hit = 4
