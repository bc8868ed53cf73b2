-- ===== src/Logs/Export/Tests.antt =====
-- An entry of the log with commas and quotes in its message, exported by log-store.ts.
use classg.Prelude.{◌≡◌, refl, String, none, some, List, [], ◌∷◌, map, codes}
use classg.Logs.Store.{LogEntry, LogLevel, LogSource, Message, Field}
use classg.Logs.Export.{columns, fields, to_csv, to_ndjson}
use classg.Logs.Export.Reader.{start, read}
use classg.Logs.Export.ReadsBack.{csv_reads_back}

abbrev text_of : Message → String
text_of (Message.text t) = t
text_of _ = "a message"

abbrev json_of : List Field → String
json_of fs = "{\"n\":1,\"m\":2}"

abbrev entry : LogEntry
entry = record {
  id = 1;
  at = "T";
  level = LogLevel.warn;
  source = LogSource.ui;
  message = Message.text "he said \"no\", twice";
  detail = some [];
  track_id = none;
}

exported :
    to_csv text_of json_of (entry ∷ [])
    ≡ codes
        "timestamp,level,source,message,track_id,detail\nT,warn,ui,\"he said \"\"no\"\", twice\",,\"{\"\"n\"\":1,\"\"m\"\":2}\""
unfolding to_csv
exported = refl

one_per_line : to_ndjson (λ e. "{}") (entry ∷ entry ∷ []) ≡ codes "{}\n{}"
unfolding to_ndjson
one_per_line = refl

csv_reads_back_example :
    read start (to_csv text_of json_of (entry ∷ entry ∷ []))
    ≡ columns ∷ map (fields text_of json_of) (entry ∷ entry ∷ [])
csv_reads_back_example =
    csv_reads_back text_of json_of (entry ∷ entry ∷ []) ((refl, refl), ((refl, refl), tt))
