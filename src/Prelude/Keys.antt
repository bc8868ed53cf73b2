-- ===== src/Prelude/Keys.antt =====
-- Lists in which no two elements have the same key.
use mathlib.Core.Path.{◌≡◌, subst}
use mathlib.Core.Logic.{inl, inr}
use mathlib.Core.Bool.{Bool, false}
use mathlib.Core.Option.{Option, some}
use mathlib.Core.List.{List, [], ◌∷◌, ◌++◌}
use Prim.Native.Nat.{ℕ, zero, suc}
use Prim.Native.String.{String}
use native.Mathlib.Omega.{arith}
use text.Mathlib.Text.{◌==◌ as str_eq}
use text.Mathlib.TextEquality.{eq_iff}
use classg.Prelude.Text.{str_eq_refl}
use classg.Prelude.Tests.{if◌then◌else◌, Bool-cases}
use classg.Prelude.Lists.{
  find_index, set, filter, All, All-append, All-filter, All-set, next_index-eq-some,
}

pub str_eq_symm : (a b : String) → str_eq a b ≡ false → str_eq b a ≡ false
str_eq_symm a b h = ground (arith, eq_iff a b, eq_iff b a)

module _ {ℓ} {A : Type ℓ} (key : A → String) where
  abbrev pub DistinctBy : List A → Type 0
  DistinctBy [] = Unit
  DistinctBy (x ∷ xs) = All (λ y. str_eq (key y) (key x) ≡ false) xs × DistinctBy xs

  abbrev pub has_key : String → A → Bool
  has_key k x = str_eq (key x) k

  pub DistinctBy-append :
      (xs : List A) (x : A)
      → All (λ y. has_key (key x) y ≡ false) xs
      → DistinctBy xs
      → DistinctBy (xs ++ x ∷ [])
  DistinctBy-append [] x h d = (tt, tt)
  DistinctBy-append (y ∷ xs) x h d = (
    All-append (λ z. str_eq (key z) (key y) ≡ false) xs (x ∷ []) d.0
        (str_eq_symm (key y) (key x) h.0, tt),
    DistinctBy-append xs x h.1 d.1,
  )

  pub DistinctBy-filter : (p : A → Bool) (xs : List A) → DistinctBy xs → DistinctBy (filter p xs)
  DistinctBy-filter p [] d = tt
  DistinctBy-filter p (x ∷ xs) d =
      ground (
        arith,
        All-filter (λ y. str_eq (key y) (key x) ≡ false) p xs d.0,
        DistinctBy-filter p xs d.1,
      )

  -- Writing over the first element of a key with another of that key.
  pub DistinctBy-set :
      (xs : List A) (i : ℕ) (x : A)
      → find_index (has_key (key x)) xs ≡ some i
      → DistinctBy xs
      → DistinctBy (set xs i x)
  DistinctBy-set [] i x h d = tt
  DistinctBy-set (y ∷ xs) zero x h d = elim (Bool-cases (has_key (key x) y)) [
    | inl e ↦ (subst (λ k. All (λ z. str_eq (key z) k ≡ false) xs) ((eq_iff _ _).0 e) d.0, d.1)
    | inr e ↦ ground (arith, next_index-eq-some (find_index (has_key (key x)) xs) zero)
  ]
  DistinctBy-set (y ∷ xs) (suc i) x h d = elim (Bool-cases (has_key (key x) y)) [
    | inl e ↦ ground arith
    | inr e ↦
        let (j, q, r) = next_index-eq-some (find_index (has_key (key x)) xs) (suc i) (rw e at h) in
        (
          All-set (λ z. str_eq (key z) (key y) ≡ false) xs i x d.0 (str_eq_symm (key y) (key x) e),
          DistinctBy-set xs i x (ground arith) d.1,
        )
  ]

-- A write to a map that is a function of its key.
abbrev pub write {ℓ} : {A : Type ℓ} → (String → Option A) → String → Option A → String → Option A
write f k v j = if str_eq k j then v else f j

pub write_same {ℓ} :
    {A : Type ℓ} (f : String → Option A) (k : String) (v : Option A) → write f k v k ≡ v
write_same f k v = rw (str_eq_refl k)

pub write_other {ℓ} :
    {A : Type ℓ} (f : String → Option A) (k : String) (v : Option A) (j : String)
    → str_eq k j ≡ false
    → write f k v j ≡ f j
write_other f k v j h = rw h
