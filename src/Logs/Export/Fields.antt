-- ===== src/Logs/Export/Fields.antt =====
-- The fields of a row of the export of services/ui/src/features/logs/log-store.ts, read back.
use classg.Prelude.{
  ℕ, ◌≡◌, refl, inl, inr, arith, ap, ◌∙◌, false, List, [], ◌∷◌, ◌++◌, any, Bool-cases, append_assoc,
}
use classg.Logs.Export.{is_special, double_quotes, escape, join}
use classg.Logs.Export.Reader.{start, bare, quoted, closing, push, new_field, read}

abbrev push_all : List ℕ → List (List (List ℕ)) → List (List (List ℕ))
push_all [] rows = rows
push_all (c ∷ s) rows = push c (push_all s rows)

-- What may follow a field: it is read alike in every mode in which a field can end.
abbrev pub EndsField : List ℕ → Type 0
EndsField t = (read start t ≡ read bare t) × (read closing t ≡ read bare t)

bare_field :
    (s t : List ℕ) → any is_special s ≡ false → read bare (s ++ t) ≡ push_all s (read bare t)
bare_field [] t h = refl
bare_field (c ∷ s) t h = ground (arith, bare_field s t)

pub plain_field :
    (s t : List ℕ)
    → any is_special s ≡ false
    → EndsField t
    → read start (s ++ t) ≡ push_all s (read bare t)
plain_field [] t h ends = ends.0
plain_field (c ∷ s) t h ends = ground (arith, bare_field s t)

quoted_field :
    (s t : List ℕ) → read quoted (double_quotes s ++ 34 ∷ t) ≡ push_all s (read closing t)
quoted_field [] t = refl
quoted_field (c ∷ s) t = ground (arith, quoted_field s t)

pub escaped_field :
    (s t : List ℕ) → EndsField t → read start (escape s ++ t) ≡ push_all s (read bare t)
escaped_field s t ends = elim (Bool-cases (any is_special s)) [
  | inl special ↦ rw (special, append_assoc (double_quotes s) (34 ∷ []) t, quoted_field s t, ends.1)
  | inr plain ↦ rw plain (plain_field s t plain ends)
]

-- A field as it is written: read at the start of a field, it gives its value.
abbrev pub Writes : List ℕ → List ℕ → Type 0
Writes w f = (t : List ℕ) → EndsField t → read start (w ++ t) ≡ push_all f (read bare t)

-- Fields beside their values, in order.
abbrev pub AllWrite : List (List ℕ) → List (List ℕ) → Type 0
AllWrite [] [] = Unit
AllWrite [] (f ∷ fs) = ⊥
AllWrite (w ∷ ws) [] = ⊥
AllWrite (w ∷ ws) (f ∷ fs) = Writes w f × AllWrite ws fs

push_all_new :
    (f : List ℕ) (fs : List (List ℕ)) (rows : List (List (List ℕ)))
    → push_all f (([] ∷ fs) ∷ rows) ≡ (f ∷ fs) ∷ rows
push_all_new [] fs rows = refl
push_all_new (c ∷ f) fs rows = ap (push c) (push_all_new f fs rows)

-- What ends a row, with the rows that follow.
abbrev pub EndsRow : List ℕ → List (List (List ℕ)) → Type 0
EndsRow t rows = EndsField t × (read bare t ≡ ([] ∷ []) ∷ rows)

pub read-row :
    (w f : List ℕ) (ws fs : List (List ℕ)) (t : List ℕ) (rows : List (List (List ℕ)))
    → Writes w f
    → AllWrite ws fs
    → EndsRow t rows
    → read start (join 44 (w ∷ ws) ++ t) ≡ (f ∷ fs) ∷ rows
read-row w f [] [] t rows h hs ends = h t ends.0 ∙ ap (push_all f) ends.1 ∙ push_all_new f [] rows
read-row w f [] (g ∷ fs) t rows h hs ends = elim hs [ ]
read-row w f (v ∷ ws) [] t rows h hs ends = elim hs [ ]
read-row w f (v ∷ ws) (g ∷ fs) t rows h hs ends =
    ap (read start) (append_assoc w (44 ∷ join 44 (v ∷ ws)) t)
    ∙ h (44 ∷ (join 44 (v ∷ ws) ++ t)) (refl, refl)
    ∙ ap (λ r. push_all f (new_field r)) (read-row v g ws fs t rows hs.0 hs.1 ends)
    ∙ push_all_new f (g ∷ fs) rows
