-- ===== src/Prelude/Lists.antt =====
-- Lists measured by native numbers and searched by Boolean tests, under the library's names.
use Prim.Native.Nat.{ℕ, zero, suc, ◌+◌, ◌-◌, ◌≤◌}
use mathlib.Core.Path.{◌≡◌, refl, ap}
use mathlib.Core.Bool.{Bool, true, false, ◌&&◌, ◌||◌}
use mathlib.Core.Option.{Option, none, some}
use mathlib.Core.List.{List, [], ◌∷◌, ◌++◌, map}
use native.Mathlib.Omega.{arith}
use mathlib.Core.Logic.{inl, inr}
use classg.Prelude.Tests.{if◌then◌else◌, Bool-cases}

-- The index one place further on.
abbrev pub next_index : Option ℕ → Option ℕ
next_index none = none
next_index (some i) = some (suc i)

module _ {ℓ} {A : Type ℓ} where
  abbrev pub length : List A → ℕ
  length [] = 0
  length (x ∷ xs) = suc (length xs)

  abbrev pub take : ℕ → List A → List A
  take zero xs = []
  take (suc n) [] = []
  take (suc n) (x ∷ xs) = x ∷ take n xs

  abbrev pub drop : ℕ → List A → List A
  drop zero xs = xs
  drop (suc n) [] = []
  drop (suc n) (x ∷ xs) = drop n xs

  abbrev pub get_elem? : List A → ℕ → Option A
  get_elem? [] i = none
  get_elem? (x ∷ xs) zero = some x
  get_elem? (x ∷ xs) (suc i) = get_elem? xs i

  -- A write out of bounds changes nothing.
  abbrev pub set : List A → ℕ → A → List A
  set [] i v = []
  set (x ∷ xs) zero v = v ∷ xs
  set (x ∷ xs) (suc i) v = x ∷ set xs i v

  -- `xs.filter(p)`, `xs.some(p)`, `xs.every(p)`, `xs.find(p)`; `find_index` answers `none` for -1.
  abbrev pub filter : (A → Bool) → List A → List A
  filter p [] = []
  filter p (x ∷ xs) = if p x then x ∷ filter p xs else filter p xs

  abbrev pub any : (A → Bool) → List A → Bool
  any p [] = false
  any p (x ∷ xs) = p x || any p xs

  abbrev pub all : (A → Bool) → List A → Bool
  all p [] = true
  all p (x ∷ xs) = p x && all p xs

  abbrev pub find : (A → Bool) → List A → Option A
  find p [] = none
  find p (x ∷ xs) = if p x then some x else find p xs

  abbrev pub find_index : (A → Bool) → List A → Option ℕ
  find_index p [] = none
  find_index p (x ∷ xs) = if p x then some 0 else next_index (find_index p xs)

  abbrev pub count_if : (A → Bool) → List A → ℕ
  count_if p [] = 0
  count_if p (x ∷ xs) = if p x then suc (count_if p xs) else count_if p xs

-- A predicate by recursion computes to tuples, which the tactics read and build.
abbrev pub All {ℓ κ} : {A : Type ℓ} → (A → Type κ) → List A → Type κ
All P [] = Unit
All P (x ∷ xs) = P x × All P xs

module _ {ℓ} {A : Type ℓ} where
  pub length-append : (xs ys : List A) → length (xs ++ ys) ≡ length xs + length ys
  length-append [] ys = omega arith
  length-append (x ∷ xs) ys = omega (arith, length-append xs ys)

  pub length-take-le : (n : ℕ) (xs : List A) → length (take n xs) ≤ n
  length-take-le zero xs = omega arith
  length-take-le (suc n) [] = omega arith
  length-take-le (suc n) (x ∷ xs) = omega (arith, length-take-le n xs)

  pub length-drop : (n : ℕ) (xs : List A) → length (drop n xs) ≡ length xs - n
  length-drop zero xs = omega arith
  length-drop (suc n) [] = omega arith
  length-drop (suc n) (x ∷ xs) = omega (arith, length-drop n xs)

  pub take-append-drop : (n : ℕ) (xs : List A) → take n xs ++ drop n xs ≡ xs
  take-append-drop zero xs = refl
  take-append-drop (suc n) [] = refl
  take-append-drop (suc n) (x ∷ xs) = rw (take-append-drop n xs)

  pub length-filter-le : (p : A → Bool) (xs : List A) → length (filter p xs) ≤ length xs
  length-filter-le p [] = omega arith
  length-filter-le p (x ∷ xs) = ground (arith, length-filter-le p xs)

  pub length-filter : (p : A → Bool) (xs : List A) → length (filter p xs) ≡ count_if p xs
  length-filter p [] = refl
  length-filter p (x ∷ xs) = ground (arith, length-filter p xs)

module _ {ℓ κ} {A : Type ℓ} (P : A → Type κ) where
  pub All-append : (xs ys : List A) → All P xs → All P ys → All P (xs ++ ys)
  All-append [] ys hx hy = hy
  All-append (x ∷ xs) ys hx hy = (hx.0, All-append xs ys hx.1 hy)

  pub All-filter : (p : A → Bool) (xs : List A) → All P xs → All P (filter p xs)
  All-filter p [] h = tt
  All-filter p (x ∷ xs) h = ground (arith, All-filter p xs h.1)

  pub All-take : (n : ℕ) (xs : List A) → All P xs → All P (take n xs)
  All-take zero xs h = tt
  All-take (suc n) [] h = tt
  All-take (suc n) (x ∷ xs) h = (h.0, All-take n xs h.1)

  pub All-drop : (n : ℕ) (xs : List A) → All P xs → All P (drop n xs)
  All-drop zero xs h = h
  All-drop (suc n) [] h = tt
  All-drop (suc n) (x ∷ xs) h = All-drop n xs h.1

  pub All-set : (xs : List A) (i : ℕ) (v : A) → All P xs → P v → All P (set xs i v)
  All-set [] i v h p = tt
  All-set (x ∷ xs) zero v h p = (p, h.1)
  All-set (x ∷ xs) (suc i) v h p = (h.0, All-set xs i v h.1 p)

pub next_index-eq-some :
    (o : Option ℕ) (i : ℕ) → next_index o ≡ some i → (j : ℕ) × (o ≡ some j) × (i ≡ suc j)
next_index-eq-some none i h = cc
next_index-eq-some (some j) i h = (j, refl, ground arith)

module _ {ℓ} {A : Type ℓ} (p : A → Bool) where
  pub find_index-none : (xs : List A) → find_index p xs ≡ none → All (λ x. p x ≡ false) xs
  find_index-none [] h = tt
  find_index-none (x ∷ xs) h = elim (Bool-cases (p x)) [
    | inl e ↦ ground arith
    | inr e ↦ (e, find_index-none xs (ground arith))
  ]

  pub find_index-some :
      (xs : List A) (i : ℕ)
      → find_index p xs ≡ some i
      → (x : A) × (get_elem? xs i ≡ some x) × (p x ≡ true)
  find_index-some [] i h = cc
  find_index-some (x ∷ xs) zero h = elim (Bool-cases (p x)) [
    | inl e ↦ (x, refl, e)
    | inr e ↦ ground (arith, next_index-eq-some (find_index p xs) zero)
  ]
  find_index-some (x ∷ xs) (suc i) h = elim (Bool-cases (p x)) [
    | inl e ↦ ground arith
    | inr e ↦
        let (j, q, r) = next_index-eq-some (find_index p xs) (suc i) (rw e at h) in
        find_index-some xs i (ground arith)
  ]

module _ {ℓ κ} {A : Type ℓ} {B : Type κ} where
  -- What holds of each element that a map keeps it of, holds of the mapped list.
  pub All-map :
      (P : A → Type 0) (Q : B → Type 0) (f : A → B)
      → ((a : A) → P a → Q (f a))
      → (xs : List A) → All P xs
      → All Q (map f xs)
  All-map P Q f keep [] h = tt
  All-map P Q f keep (x ∷ xs) h = (keep x h.0, All-map P Q f keep xs h.1)

module _ {ℓ} {A : Type ℓ} where
  pub All-const : (xs : List A) → All (λ _. Unit {0}) xs
  All-const [] = tt
  All-const (x ∷ xs) = (tt, All-const xs)

  module _ {κ μ} (P : A → Type κ) (Q : A → Type μ) where
    pub All-imp : ((a : A) → P a → Q a) → (xs : List A) → All P xs → All Q xs
    All-imp f [] h = tt
    All-imp f (x ∷ xs) h = (f x h.0, All-imp f xs h.1)

    pub All-zip : (xs : List A) → All P xs → All Q xs → All (λ x. P x × Q x) xs
    All-zip [] h k = tt
    All-zip (x ∷ xs) h k = ((h.0, k.0), All-zip xs h.1 k.1)

  pub All-append_right : (P : A → Type 0) (xs ys : List A) → All P (xs ++ ys) → All P ys
  All-append_right P [] ys h = h
  All-append_right P (x ∷ xs) ys h = All-append_right P xs ys h.1

  pub any-append : (p : A → Bool) (xs ys : List A) → any p (xs ++ ys) ≡ (any p xs || any p ys)
  any-append p [] ys = refl
  any-append p (x ∷ xs) ys = ground (arith, any-append p xs ys)

  pub count_if-append :
      (p : A → Bool) (xs ys : List A) → count_if p (xs ++ ys) ≡ count_if p xs + count_if p ys
  count_if-append p [] ys = omega arith
  count_if-append p (x ∷ xs) ys = ground (arith, count_if-append p xs ys)

  pub count_if_none : (p : A → Bool) (xs : List A) → All (λ x. p x ≡ false) xs → count_if p xs ≡ 0
  count_if_none p [] h = refl
  count_if_none p (x ∷ xs) h = ground (arith, count_if_none p xs h.1)

  pub count_if-All :
      (p : A → Bool) (xs : List A) → All (λ x. p x ≡ true) xs → count_if p xs ≡ length xs
  count_if-All p [] h = refl
  count_if-All p (x ∷ xs) h = ground (arith, count_if-All p xs h.1)

  pub count_if-filter_comm :
      (p q : A → Bool) (xs : List A) → count_if p (filter q xs) ≡ count_if q (filter p xs)
  count_if-filter_comm p q [] = refl
  count_if-filter_comm p q (x ∷ xs) = ground (arith, count_if-filter_comm p q xs)

  pub filter_comm : (p q : A → Bool) (xs : List A) → filter p (filter q xs) ≡ filter q (filter p xs)
  filter_comm p q [] = refl
  filter_comm p q (x ∷ xs) = ground (arith, filter_comm p q xs)

  pub filter-All : (p : A → Bool) (xs : List A) → All (λ x. p x ≡ true) xs → filter p xs ≡ xs
  filter-All p [] h = refl
  filter-All p (x ∷ xs) h = ground (arith, filter-All p xs h.1)

  -- What holds of each element that passes the test holds of the filtered list.
  pub All-filter_of :
      (P : A → Type 0) (p : A → Bool) (xs : List A)
      → All (λ x. p x ≡ true → P x) xs
      → All P (filter p xs)
  All-filter_of P p [] h = tt
  All-filter_of P p (x ∷ xs) h = ground (arith, All-filter_of P p xs h.1)

module _ {ℓ} {A : Type ℓ} where
  pub append_assoc : (xs ys zs : List A) → (xs ++ ys) ++ zs ≡ xs ++ (ys ++ zs)
  append_assoc [] ys zs = refl
  append_assoc (x ∷ xs) ys zs = ap (λ l. x ∷ l) (append_assoc xs ys zs)
