-- ===== src/Tracks/Speed/Filling.antt =====
-- services/ui/src/features/tracks/flight-speed.ts: which entries a fill writes.
use classg.Prelude.{
  ℕ, zero, suc, ◌+◌, ◌-◌, ◌≤◌, ◌<◌, ◌≡◌, ◌≢◌, refl, ◌∙◌, ◌⊎◌, inl, inr, arith, String, false,
  Option, some, List, [], ◌∷◌, get_elem?, set,
}
use classg.Api.{Position}
use classg.Tracks.Speed.{weight_of, ms_at, Speed, reported, blend, Weight, gap_in, fill}

get_elem?-set_other :
    {A : Type 0} (xs : List A) (i j : ℕ) (v : A) → i ≢ j → get_elem? (set xs i v) j ≡ get_elem? xs j
get_elem?-set_other [] i j v n = refl
get_elem?-set_other (x ∷ xs) zero zero v n = absurd (n refl)
get_elem?-set_other (x ∷ xs) zero (suc j) v n = refl
get_elem?-set_other (x ∷ xs) (suc i) zero v n = refl
get_elem?-set_other (x ∷ xs) (suc i) (suc j) v n =
    get_elem?-set_other xs i j v (λ e. n (omega arith))

get_elem?-set_cases :
    {A : Type 0} (xs : List A) (i j : ℕ) (v y : A)
    → get_elem? (set xs i v) j ≡ some y
    → ((i ≡ j) × (v ≡ y)) ⊎ (get_elem? xs j ≡ some y)
get_elem?-set_cases [] i j v y e = inr e
get_elem?-set_cases (x ∷ xs) zero zero v y e = inl (refl, ground arith)
get_elem?-set_cases (x ∷ xs) zero (suc j) v y e = inr e
get_elem?-set_cases (x ∷ xs) (suc i) zero v y e = inr e
get_elem?-set_cases (x ∷ xs) (suc i) (suc j) v y e = elim (get_elem?-set_cases xs i j v y e) [
  | inl p ↦ inl (omega (arith, p.0), p.1)
  | inr p ↦ inr p
]

-- The point at the index reports this speed.
abbrev pub Reports : List Position → ℕ → Speed → Type 0
Reports path j x =
    (p : Position) × (v : ℕ) × (get_elem? path j ≡ some p)
    × (p.speed_mps ≡ some v)
    × (x ≡ reported v)

module _ (parse : String → Option ℕ) (path : List Position) where
  abbrev pub weight : ℕ → ℕ → ℕ → Weight
  weight start end i =
      weight_of (i - start) (end - start) (ms_at parse (get_elem? path start))
        (ms_at parse (get_elem? path end)) (ms_at parse (get_elem? path i))

  -- A blend for the index, which lies inside the range.
  abbrev pub Blended : Speed → Speed → ℕ → ℕ → ℕ → ℕ → ℕ → Speed → Type 0
  Blended a b start end from to j x = (from ≤ j) × (j < to) × (x ≡ blend a b (weight start end j))

  outside_apart : (i n j : ℕ) → (j < i) ⊎ (i + suc n ≤ j) → i ≢ j
  outside_apart i n j (inl p) e = omega arith
  outside_apart i n j (inr p) e = omega arith

  pub fill_outside :
      (a b : Speed) (start end i n j : ℕ) (out : List (Option Speed))
      → (j < i) ⊎ (i + n ≤ j)
      → get_elem? (fill parse path a b start end i n out) j ≡ get_elem? out j
  fill_outside a b start end i zero j out h = refl
  fill_outside a b start end i (suc n) j out h =
      let written =
        get_elem?-set_other out i j (some (blend a b (weight start end i)))
          (λ e. outside_apart i n j h e) in
      elim h [
        | inl p ↦
            fill_outside a b start end (suc i) n j
              (set out i (some (blend a b (weight start end i)))) (inl (omega arith))
            ∙ written
        | inr p ↦
            fill_outside a b start end (suc i) n j
              (set out i (some (blend a b (weight start end i)))) (inr (omega arith))
            ∙ written
      ]

  pub fill_inside :
      (a b : Speed) (start end i n j : ℕ) (out : List (Option Speed)) (x : Speed)
      → get_elem? (fill parse path a b start end i n out) j ≡ some (some x)
      → Blended a b start end i (i + n) j x ⊎ (get_elem? out j ≡ some (some x))
  fill_inside a b start end i zero j out x e = inr e
  fill_inside a b start end i (suc n) j out x e =
      let v = some (blend a b (weight start end i)) in
      elim (fill_inside a b start end (suc i) n j (set out i v) x e) [
        | inl (p, q, r) ↦ inl (omega arith, omega arith, r)
        | inr p ↦ elim (get_elem?-set_cases out i j v (some x) p) [
          | inl (q, r) ↦ inl (omega arith, omega arith, cc)
          | inr q ↦ inr q
        ]
      ]

  -- What a speed of a point may be: what the point reports, or a blend of what two points around it
  -- report, by the share of the way between them, with no gap in reception between those two.
  abbrev pub IsHonest : ℕ → Speed → Type 0
  IsHonest j x =
      (Reports path j x)
      ⊎ ((start : ℕ) × (end : ℕ) × (a : Speed) × (b : Speed) × (start < j)
          × (j < end)
          × Reports path start a
          × Reports path end b
          × (gap_in parse path start (end - start) ≡ false)
          × (x ≡ blend a b (weight start end j)))
