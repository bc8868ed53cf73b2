-- ===== src/Logs/Export.antt =====
-- services/ui/src/features/logs/log-store.ts: the exports of the log, on texts as their UTF-16 code units.
-- The text of a message template, and `JSON.stringify` of a detail or of a whole entry, are
-- parameters. The download of the text by the browser is not modelled.
pub mod Reader
pub mod Fields
pub mod ReadsBack
mod Tests
use classg.Prelude.{
  ℕ, String, Bool, Option, none, some, List, [], ◌∷◌, ◌++◌, map, if◌then◌else◌, ◌==◌, ◌||◌, any,
  codes, get_or_else,
}
use classg.Logs.Store.{LogEntry, LogLevel, LogSource, Message, Field}

abbrev pub quote : ℕ
quote = 34

abbrev pub comma : ℕ
comma = 44

abbrev pub newline : ℕ
newline = 10

-- `/[",\n]/`
abbrev pub is_special : ℕ → Bool
is_special c = c == 34 || (c == 44 || c == 10)

abbrev pub double_quotes : List ℕ → List ℕ
double_quotes [] = []
double_quotes (c ∷ s) = if c == 34 then 34 ∷ 34 ∷ double_quotes s else c ∷ double_quotes s

abbrev pub escape : List ℕ → List ℕ
escape s = if any is_special s then 34 ∷ (double_quotes s ++ 34 ∷ []) else s

-- `parts.join(sep)`, for a separator of one character.
abbrev pub join : ℕ → List (List ℕ) → List ℕ
join sep [] = []
join sep (x ∷ []) = x
join sep (x ∷ y ∷ xs) = x ++ sep ∷ join sep (y ∷ xs)

abbrev pub level_text : LogLevel → String
level_text LogLevel.debug = "debug"
level_text LogLevel.info = "info"
level_text LogLevel.warn = "warn"
level_text LogLevel.error = "error"

abbrev pub source_text : LogSource → String
source_text LogSource.stream = "stream"
source_text LogSource.track = "track"
source_text LogSource.detection = "detection"
source_text LogSource.sensor = "sensor"
source_text LogSource.capture = "capture"
source_text LogSource.spectrum = "spectrum"
source_text LogSource.deploy = "deploy"
source_text LogSource.api = "api"
source_text LogSource.ui = "ui"

abbrev pub columns : List (List ℕ)
columns =
    codes "timestamp"
    ∷ codes "level"
    ∷ codes "source"
    ∷ codes "message"
    ∷ codes "track_id"
    ∷ codes "detail"
    ∷ []

module _ (text_of : Message → String) (json_of : List Field → String) where
  abbrev pub detail_text : Option (List Field) → List ℕ
  detail_text none = []
  detail_text (some d) = codes (json_of d)

  -- The values of a row, and the row as it is written.
  abbrev pub fields : LogEntry → List (List ℕ)
  fields e =
      codes e.at
      ∷ codes (level_text e.level)
      ∷ codes (source_text e.source)
      ∷ codes (text_of e.message)
      ∷ codes (get_or_else e.track_id "")
      ∷ detail_text e.detail
      ∷ []

  abbrev pub row : LogEntry → List ℕ
  row e = join 44 (
      codes e.at
      ∷ codes (level_text e.level)
      ∷ codes (source_text e.source)
      ∷ escape (codes (text_of e.message))
      ∷ codes (get_or_else e.track_id "")
      ∷ escape (detail_text e.detail)
      ∷ [])

  pub to_csv : List LogEntry → List ℕ
  to_csv entries = join 10 (join 44 columns ∷ map row entries)

pub to_ndjson : (LogEntry → String) → List LogEntry → List ℕ
to_ndjson entry_json entries = join 10 (map (λ e. codes (entry_json e)) entries)
