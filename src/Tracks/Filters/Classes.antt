-- ===== src/Tracks/Filters/Classes.antt =====
-- services/ui/src/features/tracks/flight-filters.ts: the classes of the evidence of a flight, each
-- once.
use classg.Prelude.{
  ℕ, ◌≤◌, ◌<◌, ◌≡◌, refl, subst, ◌↔◌, arith, sym, Bool, true, false, List, [], ◌∷◌, ◌==◌, any,
  if◌then◌else◌, filter, count_if, length, get_or_else, Bool-cases, inl, inr, count_if-append,
  rank_eq_iff,
}
use classg.Api.{Track, DetectionClass, Evidence}
use classg.Tracks.Filters.{class_rank, class_eq, has_class}
use classg.Tracks.Filters.Facets.{add_class, class_set, class_keys}

class_of : ℕ → DetectionClass
class_of n =
    if n == 0
    then DetectionClass.class_a
    else if n == 1
    then DetectionClass.class_b
    else if n == 2
    then DetectionClass.class_c
    else if n == 3
    then DetectionClass.class_d
    else if n == 4
    then DetectionClass.class_e
    else if n == 5
    then DetectionClass.class_f
    else if n == 6
    then DetectionClass.class_g
    else DetectionClass.class_h

class_of-rank : (c : DetectionClass) → class_of (class_rank c) ≡ c
unfolding class_of
class_of-rank DetectionClass.class_a = refl
class_of-rank DetectionClass.class_b = refl
class_of-rank DetectionClass.class_c = refl
class_of-rank DetectionClass.class_d = refl
class_of-rank DetectionClass.class_e = refl
class_of-rank DetectionClass.class_f = refl
class_of-rank DetectionClass.class_g = refl
class_of-rank DetectionClass.class_h = refl

pub class_eq_iff : (a b : DetectionClass) → (class_eq a b ≡ true) ↔ (a ≡ b)
class_eq_iff a b = rank_eq_iff class_rank class_of class_of-rank a b

module _ (c : DetectionClass) where
  abbrev pub is_c : DetectionClass → Bool
  is_c d = class_eq d c

  none_of : (cs : List DetectionClass) → any (class_eq c) cs ≡ false → count_if is_c cs ≡ 0
  none_of [] h = refl
  none_of (d ∷ cs) h = ground (arith, none_of cs)

  some_of : (cs : List DetectionClass) → any (class_eq c) cs ≡ true → 0 < count_if is_c cs
  some_of [] h = cc
  some_of (d ∷ cs) h = ground (arith, some_of cs)

  add_other :
      (cs : List DetectionClass) (d : DetectionClass)
      → is_c d ≡ false
      → count_if is_c (add_class cs d) ≡ count_if is_c cs
  add_other cs d h = ground (arith, count_if-append is_c cs (d ∷ []))

  add_same : (cs : List DetectionClass) → count_if is_c cs ≤ 1 → count_if is_c (add_class cs c) ≡ 1
  add_same cs h = ground (arith, none_of cs, some_of cs, count_if-append is_c cs (c ∷ []))

  count-class_set :
      (cs : List DetectionClass) (es : List Evidence)
      → count_if is_c cs ≤ 1
      → count_if is_c (class_set cs es)
        ≡ (if any (λ e. class_eq e.detection_class c) es then 1 else count_if is_c cs)
  count-class_set cs [] h = refl
  count-class_set cs (e ∷ es) h = elim (Bool-cases (is_c e.detection_class)) [
    | inl same ↦
        let d = e.detection_class in
        let one : count_if is_c (add_class cs d) ≡ 1 =
          subst (λ k. count_if is_c (add_class cs k) ≡ 1) (sym ((class_eq_iff d c).0 same))
            (add_same cs h) in
        ground (arith, one, count-class_set (add_class cs d) es)
    | inr other ↦ ground (
      arith,
      add_other cs e.detection_class other,
      count-class_set (add_class cs e.detection_class) es,
    )
  ]

  pub count-class_keys :
      (ts : List Track) → count_if is_c (class_keys ts) ≡ length (filter (has_class c) ts)
  count-class_keys [] = refl
  count-class_keys (t ∷ ts) =
      let es = get_or_else t.evidence [] in
      ground (
        arith,
        count_if-append is_c (class_set [] es) (class_keys ts),
        count-class_set [] es,
        count-class_keys ts,
      )
