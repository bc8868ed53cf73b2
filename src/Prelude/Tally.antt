-- ===== src/Prelude/Tally.antt =====
-- A `Map` that counts how often each key occurs.
use Prim.Native.Nat.{ℕ, zero, suc, ◌+◌}
use mathlib.Core.Path.{◌≡◌, refl, ap, ◌∙◌, subst}
use mathlib.Core.Logic.{◌↔◌, inl, inr}
use mathlib.Core.Bool.{Bool, true}
use mathlib.Core.Option.{Option, some}
use mathlib.Core.List.{List, [], ◌∷◌}
use native.Mathlib.Omega.{arith}
use classg.Prelude.Tests.{Bool-cases, get_or_else}
use classg.Prelude.Lists.{count_if}
use classg.Prelude.Maps.{lookup, put, KeysOnce, put-KeysOnce, lookup-put_same, lookup-put_other}

module _ {ℓ} {K : Type ℓ} (eq : K → K → Bool) where
  -- `counts.set(k, (counts.get(k) ?? 0) + 1)` for each key.
  abbrev pub tally : List (K × ℕ) → List K → List (K × ℕ)
  tally m [] = m
  tally m (k ∷ ks) = tally (put eq m k (suc (get_or_else (lookup eq m k) 0))) ks

  -- The counts that the keys add to a count.
  abbrev pub counted : Option ℕ → ℕ → Option ℕ
  counted before zero = before
  counted before (suc n) = some (get_or_else before 0 + suc n)

module _ {ℓ} {K : Type ℓ} (eq : K → K → Bool)
    (eq_iff_same : (j k : K) → (eq j k ≡ true) ↔ (j ≡ k)) where
  counted_step :
      (o : Option ℕ) (n : ℕ) → counted eq (some (suc (get_or_else o 0))) n ≡ counted eq o (suc n)
  counted_step o zero = ground arith
  counted_step o (suc n) = ground arith

  -- A key is in the map where it occurs, with its count.
  pub lookup-tally :
      (m : List (K × ℕ)) (ks : List K) (k : K)
      → lookup eq (tally eq m ks) k ≡ counted eq (lookup eq m k) (count_if (λ j. eq j k) ks)
  lookup-tally m [] k = refl
  lookup-tally m (j ∷ ks) k =
      let n = suc (get_or_else (lookup eq m j) 0) in
      elim (Bool-cases (eq j k)) [
        | inl e ↦
            let same = (eq_iff_same j k).0 e in
            let here : lookup eq (put eq m j n) k ≡ some (suc (get_or_else (lookup eq m k) 0)) =
              subst (λ l. lookup eq (put eq m j n) l ≡ some (suc (get_or_else (lookup eq m l) 0)))
                same (lookup-put_same eq eq_iff_same m j n) in
            rw e (
              lookup-tally (put eq m j n) ks k
              ∙ ap (λ o. counted eq o (count_if (λ i. eq i k) ks)) here
              ∙ counted_step (lookup eq m k) (count_if (λ i. eq i k) ks))
        | inr e ↦
            rw (e, lookup-tally (put eq m j n) ks k, lookup-put_other eq eq_iff_same m j k n e)
      ]

  pub tally-KeysOnce :
      (m : List (K × ℕ)) (ks : List K) → KeysOnce eq m → KeysOnce eq (tally eq m ks)
  tally-KeysOnce m [] h = h
  tally-KeysOnce m (k ∷ ks) h =
      let n = suc (get_or_else (lookup eq m k) 0) in
      tally-KeysOnce (put eq m k n) ks (put-KeysOnce eq eq_iff_same m k n h)
