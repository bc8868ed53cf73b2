-- ===== src/Tracks/Groups/Folding.antt =====
-- The groups of services/ui/src/features/tracks/flight-groups.ts as they are collected: each group
-- depends on the flights of its own airframe only.
use classg.Prelude.{
  ℕ, ◌≡◌, refl, ◌↔◌, inl, inr, arith, String, Bool, true, Option, some, List, [], ◌∷◌, Bool-cases,
  filter, lookup, put, KeysOnce, put-KeysOnce, lookup-put_same, lookup-put_other, eq_iff, subst, ap,
  ◌∙◌,
}
use classg.Api.{Track}
use classg.Tracks.Flights.{AircraftKey, serial_key, mac_key, track_key, aircraft_key}
use classg.Tracks.Groups.{AircraftGroup, key_eq, joined, collect}

pub key_eq_iff : (j k : AircraftKey) → (key_eq j k ≡ true) ↔ (j ≡ k)
key_eq_iff (serial_key a) (serial_key b) = ground (arith, eq_iff a b)
key_eq_iff (mac_key a) (mac_key b) = ground (arith, eq_iff a b)
key_eq_iff (track_key a) (track_key b) = ground (arith, eq_iff a b)
key_eq_iff (serial_key a) (mac_key b) = ground arith
key_eq_iff (serial_key a) (track_key b) = ground arith
key_eq_iff (mac_key a) (serial_key b) = ground arith
key_eq_iff (mac_key a) (track_key b) = ground arith
key_eq_iff (track_key a) (serial_key b) = ground arith
key_eq_iff (track_key a) (mac_key b) = ground arith

-- The flight is one of this airframe.
abbrev pub flown_by : AircraftKey → Track → Bool
flown_by k t = key_eq (aircraft_key t) k

module _ (parse : String → Option ℕ) where
  -- The group after more flights of its airframe.
  abbrev pub grown : Option AircraftGroup → List Track → Option AircraftGroup
  grown g [] = g
  grown g (t ∷ ts) = grown (some (joined parse g t)) ts

  pub lookup-collect :
      (m : List (AircraftKey × AircraftGroup)) (ts : List Track) (k : AircraftKey)
      → lookup key_eq (collect parse m ts) k ≡ grown (lookup key_eq m k) (filter (flown_by k) ts)
  lookup-collect m [] k = refl
  lookup-collect m (t ∷ ts) k =
      let j = aircraft_key t in
      let g = joined parse (lookup key_eq m j) t in
      elim (Bool-cases (key_eq j k)) [
        | inl e ↦
            let same = (key_eq_iff j k).0 e in
            let here : lookup key_eq (put key_eq m j g) k ≡ some g =
              subst (λ l. lookup key_eq (put key_eq m j g) l ≡ some g) same
                (lookup-put_same key_eq key_eq_iff m j g) in
            rw e (
              lookup-collect (put key_eq m j g) ts k
              ∙ ap (λ o. grown o (filter (flown_by k) ts)) here
              ∙ ap (λ o. grown (some (joined parse o t)) (filter (flown_by k) ts))
                  (ap (lookup key_eq m) same))
        | inr e ↦ rw (
          e,
          lookup-collect (put key_eq m j g) ts k,
          lookup-put_other key_eq key_eq_iff m j k g e,
        )
      ]

  pub collect-KeysOnce :
      (m : List (AircraftKey × AircraftGroup)) (ts : List Track)
      → KeysOnce key_eq m
      → KeysOnce key_eq (collect parse m ts)
  collect-KeysOnce m [] h = h
  collect-KeysOnce m (t ∷ ts) h =
      let j = aircraft_key t in
      let g = joined parse (lookup key_eq m j) t in
      collect-KeysOnce (put key_eq m j g) ts (put-KeysOnce key_eq key_eq_iff m j g h)
