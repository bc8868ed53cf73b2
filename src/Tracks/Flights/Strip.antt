-- ===== src/Tracks/Flights/Strip.antt =====
-- The neighbours of a flight, and the strip around it.
use classg.Prelude.{
  ℕ, zero, suc, ◌+◌, ◌-◌, ◌/◌, ◌≤◌, ◌<◌, ◌≡◌, refl, sym, ◌∙◌, arith, String, Bool, true, false,
  some, List, [], ◌∷◌, min, leb, leb→le, leb-false, ap, if_true, if_false, any, find_index,
  find_index-some, get_elem?, take, drop, length, length-drop, DistinctBy, All, str_eq, str_eq_refl,
  str_eq_symm, Bool-cases, inl, inr,
}
use classg.Api.{Track}
use classg.Live.Frames.{has_id}
use classg.Tracks.Flights.{flight_neighbours, strip_from, flights_around}

abbrev pub id_of : Track → String
id_of t = t.track_id

get_elem?-apart :
    (x : Track) (xs : List Track) (j : ℕ) (y : Track)
    → All (λ z. str_eq z.track_id x.track_id ≡ false) xs
    → get_elem? xs j ≡ some y
    → str_eq y.track_id x.track_id ≡ false
get_elem?-apart x [] j y d h = cc
get_elem?-apart x (z ∷ xs) zero y d h = ground (arith, d.0)
get_elem?-apart x (z ∷ xs) (suc j) y d h = get_elem?-apart x xs j y d.1 h

-- With distinct ids, a track is found where it stands.
found_at :
    (xs : List Track) (j : ℕ) (y : Track)
    → DistinctBy id_of xs
    → get_elem? xs j ≡ some y
    → find_index (has_id y.track_id) xs ≡ some j
found_at [] j y d h = cc
found_at (x ∷ xs) zero y d h = ground (arith, str_eq_refl y.track_id, str_eq_refl x.track_id)
found_at (x ∷ xs) (suc j) y d h =
    let apart = str_eq_symm y.track_id x.track_id (get_elem?-apart x xs j y d.0 h) in
    let rest = found_at xs j y d.1 h in rw (apart, rest) refl

-- In flights with distinct ids, the flight before the next one is the flight itself, and the numbers of
-- the two are one apart.
pub next_then_previous :
    (ordered : List Track) (t next : Track) (i : ℕ)
    → DistinctBy id_of ordered
    → get_elem? ordered i ≡ some t
    → (flight_neighbours ordered t.track_id).next ≡ some next
    → ((flight_neighbours ordered next.track_id).previous ≡ some t)
      × ((flight_neighbours ordered t.track_id).number ≡ some (suc i))
      × ((flight_neighbours ordered next.track_id).number ≡ some (suc (suc i)))
unfolding flight_neighbours
next_then_previous ordered t next i d at h =
    let here = found_at ordered i t d at in
    let at_next : get_elem? ordered (suc i) ≡ some next = rw (here, flight_neighbours) at h in
    let there = found_at ordered (suc i) next d at_next in
    (
      rw (there, flight_neighbours) at,
      rw (here, flight_neighbours) refl,
      rw (there, flight_neighbours) refl,
    )

get_elem?-drop : (k i : ℕ) (xs : List Track) → get_elem? (drop k xs) i ≡ get_elem? xs (k + i)
get_elem?-drop zero i xs = ap (get_elem? xs) (omega arith)
get_elem?-drop (suc k) i [] = refl
get_elem?-drop (suc k) i (x ∷ xs) =
    get_elem?-drop k i xs ∙ sym (ap (get_elem? (x ∷ xs)) (suc_add k i))
  where
    suc_add : (a b : ℕ) → suc a + b ≡ suc (a + b)
    suc_add a b = omega arith

get_elem?-take : (n i : ℕ) (xs : List Track) → i < n → get_elem? (take n xs) i ≡ get_elem? xs i
get_elem?-take zero i xs h = absurd (omega arith)
get_elem?-take (suc n) i [] h = refl
get_elem?-take (suc n) zero (x ∷ xs) h = refl
get_elem?-take (suc n) (suc i) (x ∷ xs) h = get_elem?-take n i xs (omega arith)

any_at :
    (p : Track → Bool) (xs : List Track) (i : ℕ) (x : Track)
    → get_elem? xs i ≡ some x
    → p x ≡ true
    → any p xs ≡ true
any_at p [] i x at h = cc
any_at p (y ∷ xs) zero x at h = ground arith
any_at p (y ∷ xs) (suc i) x at h = ground (arith, any_at p xs i x at h)

get_elem?-bound : (xs : List Track) (i : ℕ) (x : Track) → get_elem? xs i ≡ some x → i < length xs
get_elem?-bound [] i x h = cc
get_elem?-bound (y ∷ xs) zero x h = omega arith
get_elem?-bound (y ∷ xs) (suc i) x h = omega (arith, get_elem?-bound xs i x h)

length-take : (n : ℕ) (xs : List Track) → length (take n xs) ≡ min n (length xs)
length-take zero xs = omega arith
length-take (suc n) [] = omega arith
length-take (suc n) (x ∷ xs) = omega (arith, length-take n xs)

half_below : (max : ℕ) → 0 < max → max / 2 < max
half_below max h = omega arith

-- If the strip holds at least one flight and the flight is in the list, the strip has it, has as many
-- flights as it can hold or else the whole list, and ends within the list.
pub strip_has_flight :
    (ordered : List Track) (id : String) (max i : ℕ)
    → 0 < max
    → find_index (has_id id) ordered ≡ some i
    → (any (has_id id) (flights_around ordered id max).0 ≡ true)
      × (length (flights_around ordered id max).0 ≡ min max (length ordered))
      × ((flights_around ordered id max).1 + length (flights_around ordered id max).0
          ≤ length ordered)
unfolding flights_around
strip_has_flight ordered id max i pos found =
    let (x, at, same) = find_index-some (has_id id) ordered i found in
    let bound = get_elem?-bound ordered i x at in
    elim (Bool-cases (leb (length ordered) max)) [
      | inl whole ↦
          let le = leb→le (length ordered) max whole in
          if_true Shown (leb (length ordered) max) _ _ whole
            (any_at (has_id id) ordered i x at same, omega arith, omega arith)
      | inr cut ↦
          let from : ℕ = strip_from (length ordered) max (some i) in
          let over = leb-false (length ordered) max cut in
          let size = length-take max (drop from ordered) in
          let rest = length-drop from ordered in
          let here : from + (i - from) ≡ i = omega (arith, half_below max pos) in
          if_false Shown (leb (length ordered) max) _ _ cut (
            rw found (
              any_at (has_id id) (take max (drop from ordered)) (i - from) x
                  (get_elem?-take max (i - from) (drop from ordered)
                      (omega (arith, half_below max pos))
                    ∙ get_elem?-drop from (i - from) ordered
                    ∙ ap (get_elem? ordered) here
                    ∙ at)
                  same,
              omega (arith, size, rest),
              omega (arith, size, rest),
            ))
    ]
  where
    Shown : List Track × ℕ → Type 0
    Shown r =
        (any (has_id id) r.0 ≡ true)
        × (length r.0 ≡ min max (length ordered))
        × (r.1 + length r.0 ≤ length ordered)
