-- ===== src/Prelude/Maps.antt =====
-- `Map` of JavaScript: its entries in the order in which their keys were first set.
use Prim.Native.Nat.{ℕ}
use mathlib.Core.Path.{◌≡◌, refl, sym, ap, ◌∙◌}
use mathlib.Core.Logic.{◌↔◌, inl, inr}
use mathlib.Core.Bool.{Bool, true, false}
use mathlib.Core.Option.{Option, none, some}
use mathlib.Core.List.{List, [], ◌∷◌}
use native.Mathlib.Omega.{arith}
use classg.Prelude.Tests.{◌==◌, ==_iff, if◌then◌else◌, Bool-cases}
use classg.Prelude.Lists.{All, count_if}

module _ {ℓ κ} {K : Type ℓ} {A : Type κ} (eq : K → K → Bool) where
  -- `m.get(k)`, and `m.set(k, v)`, which keeps the place of a key that is there.
  abbrev pub lookup : List (K × A) → K → Option A
  lookup [] k = none
  lookup ((j, a) ∷ m) k = if eq j k then some a else lookup m k

  abbrev pub put : List (K × A) → K → A → List (K × A)
  put [] k v = (k, v) ∷ []
  put ((j, a) ∷ m) k v = if eq j k then (j, v) ∷ m else (j, a) ∷ put m k v

  abbrev pub is_at : K → K × A → Bool
  is_at k (j, a) = eq j k

  abbrev pub has_entry : Option A → ℕ
  has_entry none = 0
  has_entry (some a) = 1

  -- Each key stands in one entry at most.
  abbrev pub KeysOnce : List (K × A) → Type ℓ
  KeysOnce m = (k : K) → count_if (is_at k) m ≡ has_entry (lookup m k)

module _ {ℓ} {K : Type ℓ} (eq : K → K → Bool)
    (eq_iff_same : (j k : K) → (eq j k ≡ true) ↔ (j ≡ k)) where
  pub key_refl : (k : K) → eq k k ≡ true
  key_refl k = (eq_iff_same k k).1 refl

  key_other : (j k l : K) → eq j k ≡ true → eq k l ≡ false → eq j l ≡ false
  key_other j k l p q = rw ((eq_iff_same j k).0 p) q

module _ {ℓ κ} {K : Type ℓ} {A : Type κ} (eq : K → K → Bool)
    (eq_iff_same : (j k : K) → (eq j k ≡ true) ↔ (j ≡ k)) where
  pub lookup-put_same : (m : List (K × A)) (k : K) (v : A) → lookup eq (put eq m k v) k ≡ some v
  lookup-put_same [] k v = rw (key_refl eq eq_iff_same k)
  lookup-put_same ((j, a) ∷ m) k v = elim (Bool-cases (eq j k)) [
    | inl e ↦ rw (e, e)
    | inr e ↦ rw (e, e) (lookup-put_same m k v)
  ]

  pub lookup-put_other :
      (m : List (K × A)) (k l : K) (v : A)
      → eq k l ≡ false
      → lookup eq (put eq m k v) l ≡ lookup eq m l
  lookup-put_other [] k l v n = rw n
  lookup-put_other ((j, a) ∷ m) k l v n = elim (Bool-cases (eq j k)) [
    | inl e ↦ rw (e, key_other eq eq_iff_same j k l e n)
    | inr e ↦ ground (arith, lookup-put_other m k l v n)
  ]

  count_at-put_same :
      (m : List (K × A)) (k : K) (v : A)
      → count_if (is_at eq k) m ≡ has_entry eq (lookup eq m k)
      → count_if (is_at eq k) (put eq m k v) ≡ 1
  count_at-put_same [] k v h = rw (key_refl eq eq_iff_same k)
  count_at-put_same ((j, a) ∷ m) k v h = ground (arith, count_at-put_same m k v)

  count_at-put_other :
      (m : List (K × A)) (k l : K) (v : A)
      → eq k l ≡ false
      → count_if (is_at eq l) (put eq m k v) ≡ count_if (is_at eq l) m
  count_at-put_other [] k l v n = rw n
  count_at-put_other ((j, a) ∷ m) k l v n = elim (Bool-cases (eq j k)) [
    | inl e ↦ rw (e, key_other eq eq_iff_same j k l e n)
    | inr e ↦ ground (arith, count_at-put_other m k l v n)
  ]

  pub put-KeysOnce : (m : List (K × A)) (k : K) (v : A) → KeysOnce eq m → KeysOnce eq (put eq m k v)
  put-KeysOnce m k v once l = elim (Bool-cases (eq k l)) [
    | inl e ↦
        let same = (eq_iff_same k l).0 e in
        rw (← same, lookup-put_same m k v) (count_at-put_same m k v (once k))
    | inr e ↦ rw (lookup-put_other m k l v e, count_at-put_other m k l v e) (once l)
  ]

  lookup_absent : (m : List (K × A)) (k : K) → count_if (is_at eq k) m ≡ 0 → lookup eq m k ≡ none
  lookup_absent [] k h = refl
  lookup_absent ((j, a) ∷ m) k h = ground (arith, lookup_absent m k)

  lookup_first : (j : K) (a : A) (m : List (K × A)) → lookup eq ((j, a) ∷ m) j ≡ some a
  lookup_first j a m = rw (key_refl eq eq_iff_same j)

  tail-KeysOnce : (j : K) (a : A) (m : List (K × A)) → KeysOnce eq ((j, a) ∷ m) → KeysOnce eq m
  tail-KeysOnce j a m once k = elim (Bool-cases (eq j k)) [
    | inl e ↦ ground (arith, once k, lookup_absent m k)
    | inr e ↦ rw e at (once k)
  ]

  tail_lookup :
      (j : K) (a : A) (m : List (K × A)) (k : K) (b : A)
      → KeysOnce eq ((j, a) ∷ m)
      → lookup eq m k ≡ some b
      → lookup eq ((j, a) ∷ m) k ≡ some b
  tail_lookup j a m k b once h = elim (Bool-cases (eq j k)) [
    | inl e ↦ ground (arith, once k, lookup_absent m k)
    | inr e ↦ rw e h
  ]

  -- What every value that a key reads has, every entry has.
  pub All-of_lookup :
      (P : K × A → Type 0) (m : List (K × A))
      → KeysOnce eq m
      → ((k : K) (a : A) → lookup eq m k ≡ some a → P (k, a))
      → All P m
  All-of_lookup P [] once h = tt
  All-of_lookup P ((j, a) ∷ m) once h = (
    h j a (lookup_first j a m),
    All-of_lookup P m (tail-KeysOnce j a m once) (λ k b e. h k b (tail_lookup j a m k b once e)),
  )

-- Equality of the ranks of a type whose values can be read back from their ranks.
pub rank_eq_iff {ℓ} :
    {A : Type ℓ} (rank : A → ℕ) (back : ℕ → A)
    → ((a : A) → back (rank a) ≡ a)
    → (a b : A) → ((rank a == rank b) ≡ true) ↔ (a ≡ b)
rank_eq_iff rank back h a b = (
  (λ e. sym (h a) ∙ ap back ((==_iff (rank a) (rank b)).0 e) ∙ h b),
  (λ e. (==_iff (rank a) (rank b)).1 (ap rank e)),
)
