-- ===== src/Layout/Search/Entries.antt =====
-- services/ui/src/components/layout/search-resolver.ts: the aircraft in the index.
use classg.Prelude.{
  ◌≡◌, refl, subst, sym, ap, ◌∙◌, inl, inr, arith, String, Bool, true, Option, none, some, List, [],
  ◌∷◌, ◌&&◌, map, str_eq, eq_iff, str_eq_refl, opt_eq, truthy, get_or_else, is_some, lookup, put,
  KeysOnce, put-KeysOnce, lookup-put_same, lookup-put_other, All-of_lookup, All, has_entry, is_at,
  Bool-cases, count_if,
}
use classg.Api.{Track, AircraftLabel, SensorHealth}
use classg.Live.Frames.{serial_of, vendor_of}
use classg.Layout.Search.{SerialEntry}
use classg.Layout.Search.Index.{label_map, new_serial, serial_map, with_labels, build_search_index}

put_there :
    {A : Type 0} (m : List (String × A)) (j k : String) (v : A)
    → is_some (lookup str_eq m k) ≡ true
    → is_some (lookup str_eq (put str_eq m j v) k) ≡ true
put_there m j k v h = elim (Bool-cases (str_eq j k)) [
  | inl e ↦
      let same = (eq_iff j k).0 e in
      subst (λ l. is_some (lookup str_eq (put str_eq m j v) l) ≡ true) same
        (rw (lookup-put_same str_eq eq_iff m j v))
  | inr e ↦ rw (lookup-put_other str_eq eq_iff m j k v e) h
]

module _ (labels : List (String × String)) where
  -- Every entry stands under its serial and has the label of that serial, if there is one.
  Labelled : List (String × SerialEntry) → Type 0
  Labelled m =
      KeysOnce str_eq m
      × ((k : String) (e : SerialEntry)
          → lookup str_eq m k ≡ some e
          → (e.value ≡ k) × (e.label ≡ lookup str_eq labels k))

  put-Labelled :
      (m : List (String × SerialEntry)) (e : SerialEntry)
      → e.label ≡ lookup str_eq labels e.value
      → Labelled m
      → Labelled (put str_eq m e.value e)
  unfolding Labelled
  put-Labelled m e l (once, good) = (
    put-KeysOnce str_eq eq_iff m e.value e once,
    λ k f h. elim (Bool-cases (str_eq e.value k)) [
      | inl q ↦
          let same = (eq_iff e.value k).0 q in
          let here : some e ≡ some f =
            sym (lookup-put_same str_eq eq_iff m e.value e)
            ∙ ap (lookup str_eq (put str_eq m e.value e)) same
            ∙ h in
          let q : e ≡ f = ground (arith, here) in
          subst (λ g. (g.value ≡ k) × (g.label ≡ lookup str_eq labels k)) q
            (same, l ∙ ap (lookup str_eq labels) same)
      | inr q ↦ good k f (sym (lookup-put_other str_eq eq_iff m e.value k e q) ∙ h)
    ],
  )

  serial_map-Labelled :
      (m : List (String × SerialEntry)) (ts : List Track)
      → Labelled m
      → Labelled (serial_map labels m ts)
  serial_map-Labelled m [] h = h
  serial_map-Labelled m (t ∷ ts) h =
      let serial = get_or_else (serial_of t.identity) "" in
      elim (Bool-cases (truthy (serial_of t.identity))) [
        | inr e ↦ rw e (serial_map-Labelled m ts h)
        | inl e ↦ elim (Bool-cases (is_some (lookup str_eq m serial))) [
          | inl there ↦ rw (e, there) (serial_map-Labelled m ts h)
          | inr new ↦
              rw (e, new)
                (serial_map-Labelled
                  (put str_eq m serial (new_serial labels serial (vendor_of t.identity))) ts
                  (put-Labelled m (new_serial labels serial (vendor_of t.identity)) refl h))
        ]
      ]

  AllCurrent : List (String × String) → Type 0
  AllCurrent ls = All (λ e. lookup str_eq labels e.0 ≡ some e.1) ls

  with_labels-Labelled :
      (m : List (String × SerialEntry)) (ls : List (String × String))
      → AllCurrent ls
      → Labelled m
      → Labelled (with_labels labels m ls)
  unfolding AllCurrent
  with_labels-Labelled m [] c h = h
  with_labels-Labelled m ((serial, label) ∷ ls) c h =
      elim (Bool-cases (is_some (lookup str_eq m serial))) [
        | inl there ↦ rw there (with_labels-Labelled m ls c.1 h)
        | inr new ↦
            let e : SerialEntry = record { value = serial; vendor = none; label = some label } in
            rw new
              (with_labels-Labelled (put str_eq m serial e) ls c.1 (put-Labelled m e (sym c.0) h))
      ]

  with_labels_keeps :
      (m : List (String × SerialEntry)) (ls : List (String × String)) (k : String)
      → is_some (lookup str_eq m k) ≡ true
      → is_some (lookup str_eq (with_labels labels m ls) k) ≡ true
  with_labels_keeps m [] k h = h
  with_labels_keeps m ((serial, label) ∷ ls) k h =
      elim (Bool-cases (is_some (lookup str_eq m serial))) [
        | inl there ↦ rw there (with_labels_keeps m ls k h)
        | inr new ↦
            let e : SerialEntry = record { value = serial; vendor = none; label = some label } in
            rw new (with_labels_keeps (put str_eq m serial e) ls k (put_there m serial k e h))
      ]

  put_now :
      (m : List (String × SerialEntry)) (j k : String) (e : SerialEntry)
      → str_eq j k ≡ true
      → is_some (lookup str_eq (put str_eq m j e) k) ≡ true
  put_now m j k e h =
      subst (λ l. is_some (lookup str_eq (put str_eq m j e) l) ≡ true) ((eq_iff j k).0 h)
        (rw (lookup-put_same str_eq eq_iff m j e))

  with_labels_adds :
      (m : List (String × SerialEntry)) (ls : List (String × String)) (k : String)
      → is_some (lookup str_eq ls k) ≡ true
      → is_some (lookup str_eq (with_labels labels m ls) k) ≡ true
  with_labels_adds m [] k h = cc
  with_labels_adds m ((serial, label) ∷ ls) k h =
      let e : SerialEntry = record { value = serial; vendor = none; label = some label } in
      elim (Bool-cases (str_eq serial k)) [
        | inl same ↦ elim (Bool-cases (is_some (lookup str_eq m serial))) [
          | inl there ↦ rw there (
              with_labels_keeps m ls k
                (subst (λ l. is_some (lookup str_eq m l) ≡ true) ((eq_iff serial k).0 same) there))
          | inr new ↦
              rw new (with_labels_keeps (put str_eq m serial e) ls k (put_now m serial k e same))
        ]
        | inr other ↦ elim (Bool-cases (is_some (lookup str_eq m serial))) [
          | inl there ↦ rw there (with_labels_adds m ls k (rw other at h))
          | inr new ↦ rw new (with_labels_adds (put str_eq m serial e) ls k (rw other at h))
        ]
      ]

label_map-KeysOnce :
    (m : List (String × String)) (ls : List AircraftLabel)
    → KeysOnce str_eq m
    → KeysOnce str_eq (label_map m ls)
label_map-KeysOnce m [] h = h
label_map-KeysOnce m (l ∷ ls) h = elim (Bool-cases (str_eq l.label "")) [
  | inl e ↦ rw e (label_map-KeysOnce m ls h)
  | inr e ↦ rw e (
      label_map-KeysOnce (put str_eq m l.serial l.label) ls
        (put-KeysOnce str_eq eq_iff m l.serial l.label h))
]

one_entry : (o : Option SerialEntry) → is_some o ≡ true → has_entry str_eq o ≡ 1
one_entry none h = cc
one_entry (some e) h = refl

abbrev pub is_labelled : String → String → SerialEntry → Bool
is_labelled s l e = str_eq e.value s && opt_eq e.label l

same_test :
    (labels : List (String × String)) (s l k : String) (x : SerialEntry)
    → lookup str_eq labels s ≡ some l
    → (x.value ≡ k) × (x.label ≡ lookup str_eq labels k)
    → is_labelled s l x ≡ str_eq k s
same_test labels s l k x e h = elim (Bool-cases (str_eq k s)) [
  | inl q ↦
      let label : x.label ≡ some l = h.1 ∙ ap (lookup str_eq labels) ((eq_iff k s).0 q) ∙ e in
      rw (h.0, label, q, str_eq_refl l)
  | inr q ↦ rw (h.0, q)
]

count_labelled :
    (labels : List (String × String)) (s l : String) (m : List (String × SerialEntry))
    → lookup str_eq labels s ≡ some l
    → All (λ e. (e.1.value ≡ e.0) × (e.1.label ≡ lookup str_eq labels e.0)) m
    → count_if (is_labelled s l) (map (λ e. e.1) m) ≡ count_if (is_at str_eq s) m
count_labelled labels s l [] e h = refl
count_labelled labels s l ((k, x) ∷ m) e h =
    let rest = count_labelled labels s l m e h.1 in rw (same_test labels s l k x e h.0, rest)

-- An aircraft that has a label is in the search index, once under its serial and with the label that
-- was given last, whether it has flown or not.
pub labelled_aircraft_once :
    (tracks : List Track) (labels : List AircraftLabel) (sensors : List SensorHealth) (s l : String)
    → lookup str_eq (label_map [] labels) s ≡ some l
    → count_if (is_labelled s l) (build_search_index tracks labels sensors).serials ≡ 1
unfolding build_search_index Labelled AllCurrent
labelled_aircraft_once tracks labels sensors s l e =
    let ls = label_map [] labels in
    let m = with_labels ls (serial_map ls [] tracks) ls in
    let current =
      All-of_lookup str_eq eq_iff (λ p. lookup str_eq ls p.0 ≡ some p.1) ls
        (label_map-KeysOnce [] labels (λ k. refl)) (λ k a h. h) in
    let (once, good) =
      with_labels-Labelled ls (serial_map ls [] tracks) ls current
        (serial_map-Labelled ls [] tracks ((λ k. refl), (λ k f h. cc))) in
    let there = with_labels_adds ls (serial_map ls [] tracks) ls s (rw e) in
    count_labelled ls s l m e (
      All-of_lookup str_eq eq_iff (λ p. (p.1.value ≡ p.0) × (p.1.label ≡ lookup str_eq ls p.0)) m
        once good)
    ∙ once s
    ∙ one_entry (lookup str_eq m s) there
