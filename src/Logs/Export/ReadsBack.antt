-- ===== src/Logs/Export/ReadsBack.antt =====
-- The export to CSV of services/ui/src/features/logs/log-store.ts, read back row by row.
use classg.Prelude.{
  ℕ, ◌≡◌, refl, sym, ap, ◌∙◌, String, false, List, [], ◌∷◌, ◌++◌, map, any, codes, get_or_else, All,
}
use mathlib.Core.List.{append-nil}
use classg.Logs.Store.{LogEntry, LogLevel, LogSource, Message, Field}
use classg.Logs.Export.{
  is_special, escape, join, level_text, source_text, columns, detail_text, fields, row, to_csv,
}
use classg.Logs.Export.Reader.{start, read}
use classg.Logs.Export.Fields.{Writes, AllWrite, EndsRow, read-row, plain_field, escaped_field}

-- A text without a comma, a quote or a newline.
abbrev pub IsPlain : List ℕ → Type 0
IsPlain s = any is_special s ≡ false

plain-Writes : (s : List ℕ) → IsPlain s → Writes s s
plain-Writes s h t ends = plain_field s t h ends

escape-Writes : (s : List ℕ) → Writes (escape s) s
escape-Writes s t ends = escaped_field s t ends

level_text-IsPlain : (l : LogLevel) → IsPlain (codes (level_text l))
level_text-IsPlain LogLevel.debug = refl
level_text-IsPlain LogLevel.info = refl
level_text-IsPlain LogLevel.warn = refl
level_text-IsPlain LogLevel.error = refl

source_text-IsPlain : (s : LogSource) → IsPlain (codes (source_text s))
source_text-IsPlain LogSource.stream = refl
source_text-IsPlain LogSource.track = refl
source_text-IsPlain LogSource.detection = refl
source_text-IsPlain LogSource.sensor = refl
source_text-IsPlain LogSource.capture = refl
source_text-IsPlain LogSource.spectrum = refl
source_text-IsPlain LogSource.deploy = refl
source_text-IsPlain LogSource.api = refl
source_text-IsPlain LogSource.ui = refl

module _ (text_of : Message → String) (json_of : List Field → String) where
  -- The two values of an entry that are written without an escape need none.
  abbrev pub IsWritable : LogEntry → Type 0
  IsWritable e = IsPlain (codes e.at) × IsPlain (codes (get_or_else e.track_id ""))

  read-entry :
      (e : LogEntry) (t : List ℕ) (rows : List (List (List ℕ)))
      → IsWritable e
      → EndsRow t rows
      → read start (row text_of json_of e ++ t) ≡ fields text_of json_of e ∷ rows
  read-entry e t rows h ends =
      let message = codes (text_of e.message) in
      let track = codes (get_or_else e.track_id "") in
      let detail = detail_text text_of json_of e.detail in
      let level = codes (level_text e.level) in
      let source = codes (source_text e.source) in
      let rest : AllWrite (level ∷ source ∷ escape message ∷ track ∷ escape detail ∷ [])
          (level ∷ source ∷ message ∷ track ∷ detail ∷ []) =
        (
          plain-Writes level (level_text-IsPlain e.level),
          (
            plain-Writes source (source_text-IsPlain e.source),
            (escape-Writes message, (plain-Writes track h.1, (escape-Writes detail, tt))),
          ),
        ) in
      read-row (codes e.at) (codes e.at)
        (level ∷ source ∷ escape message ∷ track ∷ escape detail ∷ [])
        (level ∷ source ∷ message ∷ track ∷ detail ∷ []) t rows (plain-Writes (codes e.at) h.0) rest
        ends

  read-rows :
      (line : List ℕ) (values : List (List ℕ)) (es : List LogEntry)
      → ((t : List ℕ) (rows : List (List (List ℕ)))
          → EndsRow t rows
          → read start (line ++ t) ≡ values ∷ rows)
      → All IsWritable es
      → read start (join 10 (line ∷ map (row text_of json_of) es))
        ≡ values ∷ map (fields text_of json_of) es
  read-rows line values [] h hs =
      ap (read start) (sym (append-nil line)) ∙ h [] [] ((refl, refl), refl)
  read-rows line values (e ∷ es) h hs =
      let rest = join 10 (row text_of json_of e ∷ map (row text_of json_of) es) in
      h (10 ∷ rest) (read start rest) ((refl, refl), refl)
      ∙ ap (λ r. values ∷ r)
          (read-rows (row text_of json_of e) (fields text_of json_of e) es
            (λ t rows ends. read-entry e t rows hs.0 ends) hs.1)

  -- A reader of CSV gets back from the export the names of the columns and, row by row, the values of
  -- every entry, whatever commas, quotes and newlines its message and its detail have, where no
  -- timestamp or track id has any of these.
  pub csv_reads_back :
      (es : List LogEntry)
      → All IsWritable es
      → read start (to_csv text_of json_of es) ≡ columns ∷ map (fields text_of json_of) es
  unfolding to_csv
  csv_reads_back es h = read-rows (join 44 columns) columns es (λ t rows ends. rw ends.1) h
