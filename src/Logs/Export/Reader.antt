-- ===== src/Logs/Export/Reader.antt =====
-- A reader of CSV as RFC 4180 describes it, with which the export of
-- services/ui/src/features/logs/log-store.ts is read back.
use classg.Prelude.{ℕ, List, [], ◌∷◌, if◌then◌else◌, ◌==◌}

pub data Mode : Type 0 where
  start bare quoted closing : Mode

-- Puts a character before the first field, and begins a field or a row before the first.
abbrev pub push : ℕ → List (List (List ℕ)) → List (List (List ℕ))
push c [] = []
push c ([] ∷ rows) = [] ∷ rows
push c ((f ∷ fs) ∷ rows) = ((c ∷ f) ∷ fs) ∷ rows

abbrev pub new_field : List (List (List ℕ)) → List (List (List ℕ))
new_field [] = []
new_field (fs ∷ rows) = ([] ∷ fs) ∷ rows

abbrev pub new_row : List (List (List ℕ)) → List (List (List ℕ))
new_row rows = ([] ∷ []) ∷ rows

-- The rows of a text. In quotes a pair of quotes stands for one, and a single quote ends the field.
abbrev pub read : Mode → List ℕ → List (List (List ℕ))
read _ [] = ([] ∷ []) ∷ []
read quoted (c ∷ s) = if c == 34 then read closing s else push c (read quoted s)
read closing (c ∷ s) =
    if c == 34
    then push c (read quoted s)
    else if c == 44
    then new_field (read start s)
    else if c == 10
    then new_row (read start s)
    else push c (read bare s)
read start (c ∷ s) =
    if c == 34
    then read quoted s
    else if c == 44
    then new_field (read start s)
    else if c == 10
    then new_row (read start s)
    else push c (read bare s)
read bare (c ∷ s) =
    if c == 44
    then new_field (read start s)
    else if c == 10
    then new_row (read start s)
    else push c (read bare s)
