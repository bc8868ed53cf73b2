-- ===== src/Tracks/Playback/Search.antt =====
-- The binary search of services/ui/src/features/tracks/flight-playback.ts: as many rounds as there
-- are points suffice, and it ends at the two points between which the instant lies.
use classg.Prelude.{
  ℕ, zero, suc, ◌+◌, ◌-◌, ◌/◌, ◌≤◌, ◌<◌, ◌≡◌, refl, inl, inr, Option, none, some, List, [], ◌∷◌,
  leb, arith, length, get_elem?, Bool-cases, leb→le, leb-false,
}
use classg.Tracks.Playback.{Dated, search}

-- The entry at the index has come by the instant.
abbrev pub ReachedAt : List Dated → ℕ → ℕ → Type 0
ReachedAt ds at i = (d : Dated) × (get_elem? ds i ≡ some d) × (d.ms ≤ at)

-- The entry at the index is still to come.
abbrev pub AheadAt : List Dated → ℕ → ℕ → Type 0
AheadAt ds at i = (d : Dated) × (get_elem? ds i ≡ some d) × (at < d.ms)

pub get_elem?-total :
    {A : Type 0} (xs : List A) (i : ℕ) → i < length xs → (x : A) × (get_elem? xs i ≡ some x)
get_elem?-total [] i h = absurd (omega arith)
get_elem?-total (x ∷ xs) zero h = (x, refl)
get_elem?-total (x ∷ xs) (suc i) h = get_elem?-total xs i (omega arith)

-- What the search ends with: two neighbours, the one reached and the other ahead.
abbrev pub Found : List Dated → ℕ → Option (ℕ × ℕ) → Type 0
Found ds at none = ⊥
Found ds at (some (lo, hi)) = (hi ≡ suc lo) × ReachedAt ds at lo × AheadAt ds at hi

module _ (ds : List Dated) (at : ℕ) where
  pub search-Found :
      (rounds lo hi : ℕ)
      → hi - lo ≤ suc rounds
      → lo < hi
      → hi < length ds
      → ReachedAt ds at lo
      → AheadAt ds at hi
      → Found ds at (search ds at rounds lo hi)
  unfolding search
  search-Found zero lo hi few less inside reached ahead = ground arith
  search-Found (suc rounds) lo hi few less inside reached ahead =
      elim (Bool-cases (leb (hi - lo) 1)) [
        | inl near ↦ ground (arith, leb→le (hi - lo) 1)
        | inr far ↦
            let wide = leb-false (hi - lo) 1 far in
            let (d, e) = get_elem?-total ds ((lo + hi) / 2) (omega arith) in
            elim (Bool-cases (leb d.ms at)) [
              | inl on ↦
                  rw (far, e, on)
                    (search-Found rounds ((lo + hi) / 2) hi (omega arith) (omega arith) inside
                      (d, e, leb→le d.ms at on) ahead)
              | inr off ↦
                  rw (far, e, off)
                    (search-Found rounds lo ((lo + hi) / 2) (omega arith) (omega arith)
                      (omega arith) reached (d, e, leb-false d.ms at off))
            ]
      ]
