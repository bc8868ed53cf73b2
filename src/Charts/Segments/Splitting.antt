-- ===== src/Charts/Segments/Splitting.antt =====
-- What the split of readings into segments is, as a relation, and that the loop is in it.
use classg.Prelude.{
  ℕ, String, ◌≡◌, refl, sym, ap, subst, ◌∙◌, inl, inr, Bool, true, false, Option, none, some, List,
  [], ◌∷◌, ◌++◌, Bool-cases, append_assoc,
}
use mathlib.Core.List.{append-nil}
use classg.Api.{TelemetrySample, SpectrumTrace}
use classg.Charts.Segments.{
  last, pushed, breaks, split_from, split, jumps_by, sample_cadence_ms, readings, split_segments,
  cells, trace_segments,
}

module _ {A : Type 0} (jumps : A → A → Bool) where
  -- A reading and the next are in one segment exactly if no null stands between them and the second
  -- does not jump from the first.
  pub data IsSplit : List (Option A) → List (List A) → Type 0 where
    nothing : IsSplit [] []
    gap : {rs : List (Option A)} {ss : List (List A)} → IsSplit rs ss → IsSplit (none ∷ rs) ss
    final : (x : A) → IsSplit (some x ∷ []) ((x ∷ []) ∷ [])
    ended :
        {rs : List (Option A)} {ss : List (List A)} (x : A)
        → IsSplit rs ss
        → IsSplit (some x ∷ none ∷ rs) ((x ∷ []) ∷ ss)
    cut :
        {rs : List (Option A)} {ss : List (List A)} (x y : A)
        → jumps x y ≡ true
        → IsSplit (some y ∷ rs) ss
        → IsSplit (some x ∷ some y ∷ rs) ((x ∷ []) ∷ ss)
    grown :
        {rs : List (Option A)} {s : List A} {ss : List (List A)} (x y : A)
        → jumps x y ≡ false
        → IsSplit (some y ∷ rs) ((y ∷ s) ∷ ss)
        → IsSplit (some x ∷ some y ∷ rs) ((x ∷ y ∷ s) ∷ ss)

  last-append : (xs : List A) (x : A) → last (xs ++ x ∷ []) ≡ some x
  last-append [] x = refl
  last-append (y ∷ []) x = refl
  last-append (y ∷ z ∷ xs) x = last-append (z ∷ xs) x

  pushed-append :
      (pre : List A) (x : A) (segments : List (List A))
      → pushed segments (pre ++ x ∷ []) ≡ segments ++ (pre ++ x ∷ []) ∷ []
  pushed-append [] x segments = refl
  pushed-append (y ∷ pre) x segments = refl

  -- The segments done stay in front.
  split_from-front :
      (segments : List (List A)) (current : List A) (rs : List (Option A))
      → split_from jumps segments current rs ≡ segments ++ split_from jumps [] current rs
  split_from-front segments [] [] = sym (append-nil segments)
  split_from-front segments (c ∷ cs) [] = refl
  split_from-front segments [] (none ∷ rs) = split_from-front segments [] rs
  split_from-front segments (c ∷ cs) (none ∷ rs) =
      split_from-front (segments ++ (c ∷ cs) ∷ []) [] rs
      ∙ append_assoc segments ((c ∷ cs) ∷ []) (split_from jumps [] [] rs)
      ∙ ap (λ ts. segments ++ ts) (sym (split_from-front ((c ∷ cs) ∷ []) [] rs))
  split_from-front segments current (some x ∷ rs) =
      elim (Bool-cases (breaks jumps (last current) x)) [
        | inl e ↦ rw e (
            split_from-front (segments ++ current ∷ []) (x ∷ []) rs
            ∙ append_assoc segments (current ∷ []) (split_from jumps [] (x ∷ []) rs)
            ∙ ap (λ ts. segments ++ ts) (sym (split_from-front (current ∷ []) (x ∷ []) rs)))
        | inr e ↦ rw e (split_from-front segments (current ++ x ∷ []) rs)
      ]

  -- What stands before the last point of the segment that grows.
  in_front : List A → List (List A) → List (List A)
  in_front pre [] = []
  in_front pre (s ∷ ss) = (pre ++ s) ∷ ss

  in_front-twice :
      (pre : List A) (x : A) (ss : List (List A))
      → in_front (pre ++ x ∷ []) ss ≡ in_front pre (in_front (x ∷ []) ss)
  unfolding in_front
  in_front-twice pre x [] = refl
  in_front-twice pre x (s ∷ ss) = ap (λ t. t ∷ ss) (append_assoc pre (x ∷ []) s)

  split_from-grown :
      (pre : List A) (x : A) (rs : List (Option A))
      → split_from jumps [] (pre ++ x ∷ []) rs ≡ in_front pre (split_from jumps [] (x ∷ []) rs)
  unfolding in_front
  split_from-grown pre x [] = pushed-append pre x []
  split_from-grown pre x (none ∷ rs) =
      rw
        (
          pushed-append pre x [],
          split_from-front ((pre ++ x ∷ []) ∷ []) [] rs,
          split_from-front ((x ∷ []) ∷ []) [] rs,
        )
        refl
  split_from-grown pre x (some y ∷ rs) = elim (Bool-cases (jumps x y)) [
    | inl e ↦
        rw
          (
            last-append pre x,
            e,
            split_from-front ((pre ++ x ∷ []) ∷ []) (y ∷ []) rs,
            split_from-front ((x ∷ []) ∷ []) (y ∷ []) rs,
          )
          refl
    | inr e ↦
        rw (last-append pre x, e)
          (split_from-grown (pre ++ x ∷ []) y rs
            ∙ in_front-twice pre x (split_from jumps [] (y ∷ []) rs)
            ∙ ap (in_front pre) (sym (split_from-grown (x ∷ []) y rs)))
  ]

  Starts : (x : A) (rs : List (Option A)) → List (List A) → Type 0
  Starts x rs ss = (s : List A) × (t : List (List A)) × (ss ≡ (x ∷ s) ∷ t)

  split_from-Starts : (x : A) (rs : List (Option A)) → Starts x rs (split_from jumps [] (x ∷ []) rs)
  unfolding Starts in_front
  split_from-Starts x [] = ([], [], refl)
  split_from-Starts x (none ∷ rs) =
      ([], split_from jumps [] [] rs, split_from-front ((x ∷ []) ∷ []) [] rs)
  split_from-Starts x (some y ∷ rs) = elim (Bool-cases (jumps x y)) [
    | inl e ↦
        rw e ([], split_from jumps [] (y ∷ []) rs, split_from-front ((x ∷ []) ∷ []) (y ∷ []) rs)
    | inr e ↦
        let (s, t, same) = split_from-Starts y rs in
        rw e (y ∷ s, t, split_from-grown (x ∷ []) y rs ∙ ap (in_front (x ∷ [])) same)
  ]

  -- What the loop does to the rest, with no segment that grows and with one of one point.
  BothSplit : List (Option A) → Type 0
  BothSplit rs =
      IsSplit rs (split_from jumps [] [] rs)
      × ((x : A) → IsSplit (some x ∷ rs) (split_from jumps [] (x ∷ []) rs))

  after_some :
      (x y : A) (rs : List (Option A))
      → BothSplit rs
      → IsSplit (some x ∷ some y ∷ rs) (split_from jumps [] (x ∷ []) (some y ∷ rs))
  unfolding BothSplit in_front Starts
  after_some x y rs (whole, started) = elim (Bool-cases (jumps x y)) [
    | inl e ↦ rw (e, split_from-front ((x ∷ []) ∷ []) (y ∷ []) rs) (cut x y e (started y))
    | inr e ↦
        let (s, t, same) = split_from-Starts y rs in
        rw (e, split_from-grown (x ∷ []) y rs, same)
          (grown x y e (subst (IsSplit (some y ∷ rs)) same (started y)))
  ]

  split_from-BothSplit : (rs : List (Option A)) → BothSplit rs
  unfolding BothSplit
  split_from-BothSplit [] = (nothing, λ x. final x)
  split_from-BothSplit (none ∷ rs) =
      let (whole, started) = split_from-BothSplit rs in
      (gap whole, λ x. rw (split_from-front ((x ∷ []) ∷ []) [] rs) (ended x whole))
  split_from-BothSplit (some y ∷ rs) =
      let both = split_from-BothSplit rs in (both.1 y, λ x. after_some x y rs both)

  pub split-IsSplit : (rs : List (Option A)) → IsSplit rs (split jumps rs)
  unfolding split BothSplit
  split-IsSplit rs = (split_from-BothSplit rs).0

-- The segments of a figure are its readings cut at each null and at each jump of the time past two
-- and a half times the cadence, and nowhere else; no reading is lost, moved or made up.
pub split_segments-IsSplit :
    {V : Type 0} (parse : String → Option ℕ) (pick : TelemetrySample → Option V)
    (samples : List TelemetrySample)
    → IsSplit
        (jumps_by (sample_cadence_ms parse samples))
        (readings parse pick samples)
        (split_segments parse pick samples)
unfolding split_segments
split_segments-IsSplit parse pick samples =
    split-IsSplit (jumps_by (sample_cadence_ms parse samples)) (readings parse pick samples)

-- The segments of a trace are its cells cut at each null and nowhere else.
pub trace_segments-IsSplit :
    (trace : SpectrumTrace)
    → IsSplit (λ _ _. false) (cells trace 0 trace.dbfs) (trace_segments (some trace))
unfolding trace_segments
trace_segments-IsSplit trace = split-IsSplit (λ _ _. false) (cells trace 0 trace.dbfs)
