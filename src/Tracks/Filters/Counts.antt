-- ===== src/Tracks/Filters/Counts.antt =====
-- services/ui/src/features/tracks/flight-filters.ts: the maps that count vendors and classes, and
-- the rows of a pick.
use classg.Prelude.{
  ℕ, zero, suc, ◌<◌, ◌≡◌, refl, subst, ◌↔◌, ◌⊎◌, inl, inr, arith, ap, sym, ◌∙◌, String, Bool, true,
  false, Option, none, some, List, [], ◌∷◌, ◌&&◌, if◌then◌else◌, filter, count_if, length,
  Bool-cases, opt_eq, truthy, str_eq, get_or_else, lookup, put, KeysOnce, put-KeysOnce, tally,
  counted, tally-KeysOnce, lookup-tally, lookup-put_same, lookup-put_other, is_some, eq_iff,
}
use classg.Api.{Track}
use classg.Live.Frames.{vendor_of}
use classg.Tracks.Filters.Facets.{vendor_keys, keep_selected}

-- The rows of a test that is one test and another.
pub filter-and :
    {A : Type 0} (p q test : A → Bool)
    → ((x : A) → q x ≡ (p x && test x))
    → (xs : List A) → filter q xs ≡ filter test (filter p xs)
filter-and p q test h [] = refl
filter-and p q test h (x ∷ xs) = ground (arith, h x, filter-and p q test h xs)

module _ {K : Type 0} (eq : K → K → Bool) (eq_iff_same : (j k : K) → (eq j k ≡ true) ↔ (j ≡ k))
    (ks : List K) where
  -- What a count that is kept says of its key.
  abbrev pub Counts : Option K → K → ℕ → Type 0
  Counts selected k n = (n ≡ count_if (λ j. eq j k) ks) × ((0 < n) ⊎ (selected ≡ some k))

  tally-Counts :
      (selected : Option K) (k : K) (n : ℕ)
      → lookup eq (tally eq [] ks) k ≡ some n
      → Counts selected k n
  tally-Counts selected k n e =
      counts (count_if (λ j. eq j k) ks) refl (sym (lookup-tally eq eq_iff_same [] ks k) ∙ e)
    where
      counts :
          (c : ℕ) → c ≡ count_if (λ j. eq j k) ks → counted eq none c ≡ some n → Counts selected k n
      counts zero c h = cc
      counts (suc c) q h = (ground arith, inl (ground arith))

  absent_counts :
      (k : K) → is_some (lookup eq (tally eq [] ks) k) ≡ false → count_if (λ j. eq j k) ks ≡ 0
  absent_counts k e =
      counts (count_if (λ j. eq j k) ks)
        (subst (λ o. is_some o ≡ false) (lookup-tally eq eq_iff_same [] ks k) e)
    where
      counts : (c : ℕ) → is_some (counted eq none c) ≡ false → c ≡ 0
      counts zero h = refl
      counts (suc c) h = cc

  put_zero :
      (s k : K) (n : ℕ)
      → is_some (lookup eq (tally eq [] ks) s) ≡ false
      → lookup eq (put eq (tally eq [] ks) s 0) k ≡ some n
      → Counts (some s) k n
  put_zero s k n new e = elim (Bool-cases (eq s k)) [
    | inl h ↦
        let same = (eq_iff_same s k).0 h in
        let zeroed : some 0 ≡ some n =
          sym (lookup-put_same eq eq_iff_same (tally eq [] ks) s 0)
          ∙ ap (lookup eq (put eq (tally eq [] ks) s 0)) same
          ∙ e in
        let count : count_if (λ j. eq j k) ks ≡ 0 =
          subst (λ l. count_if (λ j. eq j l) ks ≡ 0) same (absent_counts s new) in
        (ground arith, inr (ap some same))
    | inr h ↦
        tally-Counts (some s) k n
          (sym (lookup-put_other eq eq_iff_same (tally eq [] ks) s k 0 h) ∙ e)
  ]

  pub kept-Counts :
      (selected : Option K) (k : K) (n : ℕ)
      → lookup eq (keep_selected eq selected (tally eq [] ks)) k ≡ some n
      → Counts selected k n
  kept-Counts none k n e = tally-Counts none k n e
  kept-Counts (some s) k n e = elim (Bool-cases (is_some (lookup eq (tally eq [] ks) s))) [
    | inl there ↦ tally-Counts (some s) k n (rw there at e)
    | inr new ↦ put_zero s k n new (rw new at e)
  ]

  pub kept-KeysOnce :
      (selected : Option K) → KeysOnce eq (keep_selected eq selected (tally eq [] ks))
  kept-KeysOnce none = tally-KeysOnce eq eq_iff_same [] ks (λ k. refl)
  kept-KeysOnce (some s) = elim (Bool-cases (is_some (lookup eq (tally eq [] ks) s))) [
    | inl e ↦ rw e (tally-KeysOnce eq eq_iff_same [] ks (λ k. refl))
    | inr e ↦ rw e (
        put-KeysOnce eq eq_iff_same (tally eq [] ks) s 0
          (tally-KeysOnce eq eq_iff_same [] ks (λ k. refl)))
  ]

vendor_test :
    (v : String) (o : Option String) (ks : List String)
    → truthy (some v) ≡ true
    → count_if (λ j. str_eq j v) (if truthy o then get_or_else o "" ∷ ks else ks)
      ≡ (if opt_eq o v then suc (count_if (λ j. str_eq j v) ks) else count_if (λ j. str_eq j v) ks)
vendor_test v none ks t = refl
vendor_test v (some w) ks t = ground (arith, eq_iff w v, eq_iff w "", eq_iff v "")

pub count-vendor_keys :
    (v : String) (ts : List Track)
    → truthy (some v) ≡ true
    → count_if (λ j. str_eq j v) (vendor_keys ts)
      ≡ length (filter (λ t. opt_eq (vendor_of t.identity) v) ts)
count-vendor_keys v [] e = refl
count-vendor_keys v (t ∷ ts) e =
    ground (arith, vendor_test v (vendor_of t.identity) (vendor_keys ts), count-vendor_keys v ts)

empty_key :
    (o : Option String) (ks : List String)
    → count_if (λ j. str_eq j "") ks ≡ 0
    → count_if (λ j. str_eq j "") (if truthy o then get_or_else o "" ∷ ks else ks) ≡ 0
empty_key none ks h = h
empty_key (some w) ks h = ground arith

-- No key is the empty text.
pub no_empty_key : (ts : List Track) → count_if (λ j. str_eq j "") (vendor_keys ts) ≡ 0
no_empty_key [] = refl
no_empty_key (t ∷ ts) = empty_key (vendor_of t.identity) (vendor_keys ts) (no_empty_key ts)
