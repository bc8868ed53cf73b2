-- ===== src/Charts/Downsample/Ends.antt =====
-- downsampleSegment of telemetry-series.ts: what one bucket keeps of its points.
use classg.Prelude.{
  ℕ, suc, ◌≤◌, ◌<◌, ◌≡◌, refl, subst, inl, inr, arith, Bool, true, false, List, [], ◌∷◌, ◌&&◌,
  if◌then◌else◌, leb, length, All, Bool-cases,
}
use classg.Charts.Segments.{TelemetryPoint}
use classg.Charts.Downsample.{Extremes, no_later, extend, extremes_from, in_time, of_bucket}

either {ℓ} : {A : Type ℓ} (P : A → Type 0) (b : Bool) (x y : A) → P x → P y → P (if b then x else y)
either P true x y p q = p
either P false x y p q = q

module _ {V : Type 0} (less : V → V → Bool) where
  length-in_time-le : (e : Extremes less) → length (in_time less e) ≤ 2
  length-in_time-le e = ground arith

  pub length-of_bucket-le :
      (i : ℕ) (ps : List (TelemetryPoint V)) → length (of_bucket less i ps) ≤ 2
  length-of_bucket-le i [] = omega arith
  length-of_bucket-le i (p ∷ ps) =
      length-in_time-le
        (extremes_from less (record { lo_at = i; lo = p; hi_at = i; hi = p }) (suc i) ps)

  module _ (P : TelemetryPoint V → Type 0) where
    in_time-All : (e : Extremes less) → P e.lo → P e.hi → All P (in_time less e)
    in_time-All e a b = elim (Bool-cases (leb e.lo_at e.hi_at && leb e.hi_at e.lo_at)) [
      | inl same ↦ rw same (a, tt)
      | inr other ↦ elim (Bool-cases (no_later e.lo.t e.hi.t)) [
        | inl first ↦ rw (other, first) (a, (b, tt))
        | inr second ↦ rw (other, second) (b, (a, tt))
      ]
    ]

    extremes_from-All :
        (e : Extremes less) (i : ℕ) (ps : List (TelemetryPoint V))
        → P e.lo
        → P e.hi
        → All P ps
        → P (extremes_from less e i ps).lo × P (extremes_from less e i ps).hi
    extremes_from-All e i [] a b h = (a, b)
    extremes_from-All e i (p ∷ ps) a b (c, h) =
        extremes_from-All (extend less e i p) (suc i) ps (either P (less p.v e.lo.v) p e.lo c a)
          (either P (less e.hi.v p.v) p e.hi c b) h

    pub of_bucket-All :
        (i : ℕ) (ps : List (TelemetryPoint V)) → All P ps → All P (of_bucket less i ps)
    of_bucket-All i [] h = tt
    of_bucket-All i (p ∷ ps) (a, h) =
        let one : Extremes less = record { lo_at = i; lo = p; hi_at = i; hi = p } in
        let (lo, hi) = extremes_from-All one (suc i) ps a a h in
        in_time-All (extremes_from less one (suc i) ps) lo hi

    -- An index known for both ends is one point.
    SamePoint : Extremes less → ℕ → Type 0
    SamePoint e i = (e.lo_at < i) × (e.hi_at < i) × (e.lo_at ≡ e.hi_at → e.lo ≡ e.hi)

    extend-SamePoint :
        (e : Extremes less) (i : ℕ) (p : TelemetryPoint V)
        → SamePoint e i
        → SamePoint (extend less e i p) (suc i)
    unfolding SamePoint
    extend-SamePoint e i p (a, b, same) = elim (Bool-cases (less p.v e.lo.v)) [
      | inl x ↦ elim (Bool-cases (less e.hi.v p.v)) [
        | inl y ↦ rw (x, y) (omega arith, omega arith, λ _. refl)
        | inr y ↦ rw (x, y) (omega arith, omega arith, λ q. absurd (omega arith))
      ]
      | inr x ↦ elim (Bool-cases (less e.hi.v p.v)) [
        | inl y ↦ rw (x, y) (omega arith, omega arith, λ q. absurd (omega arith))
        | inr y ↦ rw (x, y) (omega arith, omega arith, same)
      ]
    ]

    extremes_from-SamePoint :
        (e : Extremes less) (i : ℕ) (ps : List (TelemetryPoint V))
        → SamePoint e i
        → (extremes_from less e i ps).lo_at ≡ (extremes_from less e i ps).hi_at
        → (extremes_from less e i ps).lo ≡ (extremes_from less e i ps).hi
    unfolding SamePoint
    extremes_from-SamePoint e i [] (a, b, same) h = same h
    extremes_from-SamePoint e i (p ∷ ps) h q =
        extremes_from-SamePoint (extend less e i p) (suc i) ps (extend-SamePoint e i p h) q

    from_in_time :
        (e : Extremes less)
        → (e.lo_at ≡ e.hi_at → e.lo ≡ e.hi)
        → All P (in_time less e)
        → P e.lo × P e.hi
    from_in_time e one h = elim (Bool-cases (leb e.lo_at e.hi_at && leb e.hi_at e.lo_at)) [
      | inl same ↦
          let (a, _) = rw same at h in
          let equal : e.lo_at ≡ e.hi_at = ground arith in (a, subst P (one equal) a)
      | inr other ↦ elim (Bool-cases (no_later e.lo.t e.hi.t)) [
        | inl first ↦ let (a, (b, _)) = rw (other, first) at h in (a, b)
        | inr second ↦ let (b, (a, _)) = rw (other, second) at h in (a, b)
      ]
    ]

    module _ (asym : (a b : V) → less a b ≡ true → less b a ≡ false) where
      module _ (closed : (p q : TelemetryPoint V) → less q.v p.v ≡ false → P q → P p) where
        highest :
            (e : Extremes less) (i : ℕ) (ps : List (TelemetryPoint V))
            → P (extremes_from less e i ps).hi
            → P e.hi × All P ps
        highest e i [] h = (h, tt)
        highest e i (p ∷ ps) h =
            let (top, rest) = highest (extend less e i p) (suc i) ps h in
            elim (Bool-cases (less e.hi.v p.v)) [
              | inl above ↦
                  let here : P p = subst (λ b. P (if b then p else e.hi)) above top in
                  (closed e.hi p (asym e.hi.v p.v above) here, (here, rest))
              | inr below ↦
                  let here : P e.hi = subst (λ b. P (if b then p else e.hi)) below top in
                  (here, (closed p e.hi below here, rest))
            ]

        pub of_bucket-highest :
            (i : ℕ) (ps : List (TelemetryPoint V)) → All P (of_bucket less i ps) → All P ps
        unfolding SamePoint
        of_bucket-highest i [] h = tt
        of_bucket-highest i (p ∷ ps) h =
            let one : Extremes less = record { lo_at = i; lo = p; hi_at = i; hi = p } in
            let (_, hi) =
              from_in_time (extremes_from less one (suc i) ps)
                (extremes_from-SamePoint one (suc i) ps (omega arith, omega arith, λ _. refl)) h in
            highest one (suc i) ps hi

      module _ (closed : (p q : TelemetryPoint V) → less p.v q.v ≡ false → P q → P p) where
        lowest :
            (e : Extremes less) (i : ℕ) (ps : List (TelemetryPoint V))
            → P (extremes_from less e i ps).lo
            → P e.lo × All P ps
        lowest e i [] h = (h, tt)
        lowest e i (p ∷ ps) h =
            let (bottom, rest) = lowest (extend less e i p) (suc i) ps h in
            elim (Bool-cases (less p.v e.lo.v)) [
              | inl below ↦
                  let here : P p = subst (λ b. P (if b then p else e.lo)) below bottom in
                  (closed e.lo p (asym p.v e.lo.v below) here, (here, rest))
              | inr above ↦
                  let here : P e.lo = subst (λ b. P (if b then p else e.lo)) above bottom in
                  (here, (closed p e.lo above here, rest))
            ]

        pub of_bucket-lowest :
            (i : ℕ) (ps : List (TelemetryPoint V)) → All P (of_bucket less i ps) → All P ps
        unfolding SamePoint
        of_bucket-lowest i [] h = tt
        of_bucket-lowest i (p ∷ ps) h =
            let one : Extremes less = record { lo_at = i; lo = p; hi_at = i; hi = p } in
            let (lo, _) =
              from_in_time (extremes_from less one (suc i) ps)
                (extremes_from-SamePoint one (suc i) ps (omega arith, omega arith, λ _. refl)) h in
            lowest one (suc i) ps lo
