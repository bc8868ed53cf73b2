-- ===== src/Prelude/Sort.antt =====
-- `Array.prototype.sort`, which is stable, as insertion sort over a Boolean "comes first or ties".
use Prim.Native.Nat.{ℕ, zero, suc}
use mathlib.Core.Path.{◌≡◌, refl, ap, ◌∙◌}
use mathlib.Core.Logic.{inl, inr}
use mathlib.Core.Bool.{Bool, true, false}
use mathlib.Core.List.{List, [], ◌∷◌, Perm}
use mathlib.Core.List.Perm
use native.Mathlib.Omega.{arith}
use classg.Prelude.Tests.{if◌then◌else◌, Bool-cases}
use classg.Prelude.Lists.{
  All-take, All-const, All-zip, All-drop, take, drop, length, All, count_if, filter,
}

module _ {ℓ} {A : Type ℓ} (before : A → A → Bool) where
  unfoldable pub insert : A → List A → List A
  insert x [] = x ∷ []
  insert x (y ∷ ys) = if before x y then x ∷ y ∷ ys else y ∷ insert x ys

  unfoldable pub sort_by : List A → List A
  unfolding insert
  sort_by [] = []
  sort_by (x ∷ xs) = insert x (sort_by xs)

  -- Each element comes before, or ties with, all that follow it.
  abbrev pub IsSorted : List A → Type 0
  IsSorted [] = Unit
  IsSorted (x ∷ xs) = All (λ y. before x y ≡ true) xs × IsSorted xs

module _ {ℓ} {A : Type ℓ} (before : A → A → Bool) where
  length-insert : (x : A) (xs : List A) → length (insert before x xs) ≡ suc (length xs)
  unfolding insert
  length-insert x [] = refl
  length-insert x (y ∷ ys) = ground (arith, length-insert x ys)

  pub length-sort_by : (xs : List A) → length (sort_by before xs) ≡ length xs
  unfolding sort_by
  length-sort_by [] = refl
  length-sort_by (x ∷ xs) = omega (arith, length-insert x (sort_by before xs), length-sort_by xs)

  count_if-insert :
      (p : A → Bool) (x : A) (xs : List A) → count_if p (insert before x xs) ≡ count_if p (x ∷ xs)
  unfolding insert
  count_if-insert p x [] = refl
  count_if-insert p x (y ∷ ys) = ground (arith, count_if-insert p x ys)

  pub count_if-sort_by :
      (p : A → Bool) (xs : List A) → count_if p (sort_by before xs) ≡ count_if p xs
  unfolding sort_by
  count_if-sort_by p [] = refl
  count_if-sort_by p (x ∷ xs) =
      ground (arith, count_if-insert p x (sort_by before xs), count_if-sort_by p xs)

  module _ {κ} (P : A → Type κ) where
    pub All-insert : (x : A) (xs : List A) → P x → All P xs → All P (insert before x xs)
    unfolding insert
    All-insert x [] p h = (p, tt)
    All-insert x (y ∷ ys) p h = ground (arith, All-insert x ys p h.1)

    pub All-sort_by : (xs : List A) → All P xs → All P (sort_by before xs)
    unfolding sort_by
    All-sort_by [] h = tt
    All-sort_by (x ∷ xs) h = All-insert x (sort_by before xs) h.0 (All-sort_by xs h.1)

    All-insert_inv : (x : A) (xs : List A) → All P (insert before x xs) → P x × All P xs
    unfolding insert
    All-insert_inv x [] h = h
    All-insert_inv x (y ∷ ys) h = ground (arith, All-insert_inv x ys)

    pub All-of_sort_by : (xs : List A) → All P (sort_by before xs) → All P xs
    unfolding sort_by
    All-of_sort_by [] h = tt
    All-of_sort_by (x ∷ xs) h =
        let (p, hs) = All-insert_inv x (sort_by before xs) h in (p, All-of_sort_by xs hs)

  insert-perm : (x : A) (xs : List A) → Perm (insert before x xs) (x ∷ xs)
  unfolding insert
  insert-perm x [] = Perm.refl (x ∷ [])
  insert-perm x (y ∷ ys) = elim (Bool-cases (before x y)) [
    | inl e ↦ rw e (Perm.refl (x ∷ y ∷ ys))
    | inr e ↦ rw e (Perm.trans (Perm.cons y (insert-perm x ys)) (Perm.swap x y ys))
  ]

  -- Sorting keeps every element, as often.
  pub sort_by-perm : (xs : List A) → Perm (sort_by before xs) xs
  unfolding sort_by
  sort_by-perm [] = Perm.refl []
  sort_by-perm (x ∷ xs) =
      Perm.trans (insert-perm x (sort_by before xs)) (Perm.cons x (sort_by-perm xs))

module _ {ℓ} {A : Type ℓ} (before : A → A → Bool)
    (total : (x y : A) → before x y ≡ false → before y x ≡ true)
    (trans : (x y z : A) → before x y ≡ true → before y z ≡ true → before x z ≡ true) where
  All-before :
      (x y : A) (zs : List A)
      → before x y ≡ true
      → All (λ z. before y z ≡ true) zs
      → All (λ z. before x z ≡ true) zs
  All-before x y [] h k = tt
  All-before x y (z ∷ zs) h k = (trans x y z h k.0, All-before x y zs h k.1)

  insert-IsSorted :
      (x : A) (xs : List A) → IsSorted before xs → IsSorted before (insert before x xs)
  unfolding insert
  insert-IsSorted x [] h = (tt, tt)
  insert-IsSorted x (y ∷ ys) h = elim (Bool-cases (before x y)) [
    | inl e ↦ rw e ((e, All-before x y ys e h.0), h)
    | inr e ↦ rw e (
      All-insert before (λ z. before y z ≡ true) x ys (total x y e) h.0,
      insert-IsSorted x ys h.1,
    )
  ]

  -- Under a total and transitive order the result is in order.
  pub sort_by-IsSorted : (xs : List A) → IsSorted before (sort_by before xs)
  unfolding sort_by
  sort_by-IsSorted [] = tt
  sort_by-IsSorted (x ∷ xs) = insert-IsSorted x (sort_by before xs) (sort_by-IsSorted xs)

  -- Cut anywhere, what is cut off in front comes before what stays.
  pub IsSorted-take-drop :
      (n : ℕ) (xs : List A)
      → IsSorted before xs
      → All (λ y. All (λ x. before x y ≡ true) (take n xs)) (drop n xs)
  IsSorted-take-drop zero xs h = All-const xs
  IsSorted-take-drop (suc n) [] h = tt
  IsSorted-take-drop (suc n) (x ∷ xs) h =
      All-zip _ _ (drop n xs) (All-drop (λ y. before x y ≡ true) n xs h.0)
        (IsSorted-take-drop n xs h.1)

module _ {ℓ} {A : Type ℓ} (before : A → A → Bool) where
  pub IsSorted-take : (n : ℕ) (xs : List A) → IsSorted before xs → IsSorted before (take n xs)
  IsSorted-take zero xs h = tt
  IsSorted-take (suc n) [] h = tt
  IsSorted-take (suc n) (x ∷ xs) h =
      (All-take (λ y. before x y ≡ true) n xs h.0, IsSorted-take n xs h.1)

module _ {ℓ} {A : Type ℓ} (before : A → A → Bool) where
  insert_first :
      (x : A) (ys : List A) → All (λ y. before x y ≡ true) ys → insert before x ys ≡ x ∷ ys
  unfolding insert
  insert_first x [] h = refl
  insert_first x (y ∷ ys) h = rw h.0

  -- An element that comes before all that follow it stays the first.
  pub sort_by-first :
      (x : A) (xs : List A)
      → All (λ y. before x y ≡ true) xs
      → sort_by before (x ∷ xs) ≡ x ∷ sort_by before xs
  unfolding sort_by
  sort_by-first x xs h =
      insert_first x (sort_by before xs) (All-sort_by before (λ y. before x y ≡ true) xs h)

-- The sort is stable: elements that tie with one another keep their order.
module _ {ℓ} {A : Type ℓ} (before : A → A → Bool) (p : A → Bool)
    (tied : (x y : A) → p x ≡ true → p y ≡ true → before x y ≡ true) where
  filter-insert : (x : A) (ys : List A) → filter p (insert before x ys) ≡ filter p (x ∷ ys)
  unfolding insert
  filter-insert x [] = refl
  filter-insert x (y ∷ ys) = ground (arith, filter-insert x ys, tied x y)

  pub filter-sort_by : (xs : List A) → filter p (sort_by before xs) ≡ filter p xs
  unfolding sort_by
  filter-sort_by [] = refl
  filter-sort_by (x ∷ xs) = ground (arith, filter-insert x (sort_by before xs), filter-sort_by xs)

-- Comparators that agree on the elements of a list sort it alike.
module _ {ℓ} {A : Type ℓ} (before other : A → A → Bool) (P : A → Type 0)
    (agree : (x y : A) → P x → P y → before x y ≡ other x y) where
  insert_agree : (x : A) (ys : List A) → P x → All P ys → insert before x ys ≡ insert other x ys
  unfolding insert
  insert_agree x [] h hs = refl
  insert_agree x (y ∷ ys) h hs = rw (agree x y h hs.0, insert_agree x ys h hs.1) refl

  pub sort_by_agree : (xs : List A) → All P xs → sort_by before xs ≡ sort_by other xs
  unfolding sort_by
  sort_by_agree [] hs = refl
  sort_by_agree (x ∷ xs) hs =
      insert_agree x (sort_by before xs) hs.0 (All-sort_by before P xs hs.1)
      ∙ ap (insert other x) (sort_by_agree xs hs.1)
