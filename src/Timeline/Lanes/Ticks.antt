-- ===== src/Timeline/Lanes/Ticks.antt =====
-- The ticks of lanes.ts.
use classg.Prelude.{
  ℕ, zero, suc, ◌+◌, ◌-◌, ◌*◌, ◌/◌, ◌≤◌, ◌<◌, ◌≡◌, refl, arith, Bool, true, false, ◌||◌, ◌&&◌, List,
  [], ◌∷◌, ◌⊎◌, ltb, leb, ◌==◌, any, All, Bool-cases, inl, inr, sym, subst, ap, if_true, if_false,
  ltb→lt, lt→ltb, All-imp, ==_iff,
}
use native.Mathlib.Nat.{div-mul-le_self, lt-div-mul-add}
use classg.Timeline.Lanes.{TimelineWindow, tick_step, ticks_from, round_up, ticks}

next_multiple : (q step : ℕ) → q * step + step ≡ suc q * step
next_multiple q step = grind arith

abbrev IsTick : ℕ → ℕ → ℕ → ℕ → Type 0
IsTick q step end t = (k : ℕ) × (q ≤ k) × (t ≡ k * step) × (t < end)

weaker : (q step end t : ℕ) → IsTick (suc q) step end t → IsTick q step end t
weaker q step end t (k, le, eq, lt) = (k, omega arith, eq, lt)

ticks_from_sound :
    (fuel q step end : ℕ) → All (IsTick q step end) (ticks_from fuel (q * step) step end)
unfolding ticks_from
ticks_from_sound zero q step end = tt
ticks_from_sound (suc fuel) q step end = elim (Bool-cases (ltb (q * step) end)) [
  | inl e ↦ if_true (All (IsTick q step end)) (ltb (q * step) end) _ _ e (
    (q, omega arith, refl, ltb→lt (q * step) end e),
    subst (λ t. All (IsTick q step end) (ticks_from fuel t step end)) (sym (next_multiple q step))
        (All-imp (IsTick (suc q) step end) (IsTick q step end) (weaker q step end) _
          (ticks_from_sound fuel (suc q) step end)),
  )
  | inr e ↦ if_false (All (IsTick q step end)) (ltb (q * step) end) _ _ e tt
]

smaller_multiple : (q k step : ℕ) → q ≤ k → q * step ≤ k * step
smaller_multiple q k step le = grind arith

ticks_from_complete :
    (fuel q k step end : ℕ)
    → q ≤ k
    → k < q + fuel
    → k * step < end
    → any (λ t. t == k * step) (ticks_from fuel (q * step) step end) ≡ true
unfolding ticks_from
ticks_from_complete zero q k step end le enough lt = absurd (omega arith)
ticks_from_complete (suc fuel) q k step end le enough lt =
    let on : ltb (q * step) end ≡ true =
      lt→ltb (q * step) end (omega (arith, smaller_multiple q k step le)) in
    if_true (λ l. any (λ t. t == k * step) l ≡ true) (ltb (q * step) end) _ _ on
      (elim (Bool-cases (q == k)) [
        | inl same ↦
            let eq : (q * step == k * step) ≡ true =
              (==_iff _ _).1 (ap (λ j. j * step) ((==_iff q k).0 same)) in
            rw eq refl
        | inr other ↦
            let later : suc q ≤ k = ground (arith, ==_iff q k) in
            let rest =
              subst (λ t. any (λ u. u == k * step) (ticks_from fuel t step end) ≡ true)
                (sym (next_multiple q step))
                (ticks_from_complete fuel (suc q) k step end later (omega arith) lt) in
            or_right (q * step == k * step) _ rest
      ])
  where
    or_right : (a b : Bool) → b ≡ true → (a || b) ≡ true
    or_right true b h = refl
    or_right false b h = h

tick_step-ge : (span target : ℕ) → 60000 ≤ tick_step span target
unfolding tick_step
tick_step-ge span target = ground arith

le_or_gt : (a b : ℕ) → (a ≤ b) ⊎ (suc b ≤ a)
le_or_gt a b = ground arith

-- The first multiple of the step that is not before `start` is the one the ticks begin with.
first_multiple : (start k step : ℕ) → 0 < step → start ≤ k * step → (start + step - 1) / step ≤ k
first_multiple start k step pos le =
    let below = div-mul-le_self (start + step - 1) step in
    let next = next_multiple k step in
    elim (le_or_gt ((start + step - 1) / step) k) [
      | inl fits ↦ fits
      | inr over ↦
          absurd (omega (arith, smaller_multiple (suc k) ((start + step - 1) / step) step over))
    ]

starts_inside : (start step : ℕ) → 0 < step → start ≤ round_up start step
starts_inside start step pos = omega (arith, lt-div-mul-add {a = start + step - 1} pos)

enough_fuel :
    (q k step span end : ℕ) → 0 < step → end ≤ q * step + span → k * step < end → k < q + suc span
enough_fuel q k step span end pos le lt = elim (le_or_gt (q + suc span) k) [
  | inl far ↦ absurd (
      omega (
        arith,
        smaller_multiple (q + suc span) k step far,
        split q (suc span) step,
        grows (suc span) step pos,
      ))
  | inr near ↦ near
]
  where
    split : (a b c : ℕ) → (a + b) * c ≡ a * c + b * c
    split a b c = grind arith

    grows : (a c : ℕ) → 0 < c → a ≤ a * c
    grows a c h = grind arith

-- What lies in a window from `start` to before `end`.
abbrev pub IsInside : TimelineWindow → ℕ → ℕ → Type 0
IsInside w step t = (w.start_ms ≤ t) × (t < w.end_ms) × ((j : ℕ) × (t ≡ j * step))

any_outside :
    (w : TimelineWindow) (step x : ℕ) (ts : List ℕ)
    → All (IsInside w step) ts
    → (leb w.start_ms x && ltb x w.end_ms) ≡ false
    → any (λ t. t == x) ts ≡ false
any_outside w step x [] h out = refl
any_outside w step x (t ∷ ts) h out =
    let (after, before, multiple) = h.0 in
    elim (Bool-cases (t == x)) [
      | inl same ↦ absurd (inside t x after before ((==_iff t x).0 same) out)
      | inr other ↦ rw other (any_outside w step x ts h.1 out)
    ]
  where
    inside :
        (t x : ℕ)
        → w.start_ms ≤ t
        → t < w.end_ms
        → t ≡ x
        → (leb w.start_ms x && ltb x w.end_ms) ≡ false
        → ⊥
    inside t x after before same out = ground arith

open_ticks :
    (w : TimelineWindow) (target k : ℕ)
    → leb w.end_ms w.start_ms ≡ false
    → All (IsInside w (tick_step (w.end_ms - w.start_ms) target)) (ticks w target)
      × (w.start_ms ≤ k * tick_step (w.end_ms - w.start_ms) target
          → k * tick_step (w.end_ms - w.start_ms) target < w.end_ms
          → any (λ t. t == k * tick_step (w.end_ms - w.start_ms) target) (ticks w target) ≡ true)
unfolding ticks
open_ticks w target k ordered =
    let span = w.end_ms - w.start_ms in
    let step = tick_step span target in
    let pos : 0 < step = omega (arith, tick_step-ge span target) in
    let q = (w.start_ms + step - 1) / step in
    let inside = starts_inside w.start_ms step pos in
    (
      if_false (All (IsInside w step)) (leb w.end_ms w.start_ms) _ _ ordered (
          All-imp (IsTick q step w.end_ms) (IsInside w step)
            (λ t (j, le, eq, before).
              (omega (arith, inside, smaller_multiple q j step le), before, (j, eq)))
            _ (ticks_from_sound (suc span) q step w.end_ms)),
      λ ge lt.
          if_false (λ l. any (λ t. t == k * step) l ≡ true) (leb w.end_ms w.start_ms) _ _ ordered
            (ticks_from_complete (suc span) q k step w.end_ms
              (first_multiple w.start_ms k step pos ge)
              (enough_fuel q k step span w.end_ms pos (omega (arith, inside)) lt) lt),
    )

-- Every tick is a multiple of one step, of at least a minute, and lies in the window, which is
-- inclusive at its start and exclusive at its end. And a multiple of that step is a tick exactly if it
-- lies in the window; a window that does not start before it ends has no tick.
pub ticks_are_multiples :
    (w : TimelineWindow) (target k : ℕ)
    → All (IsInside w (tick_step (w.end_ms - w.start_ms) target)) (ticks w target)
      × (any (λ t. t == k * tick_step (w.end_ms - w.start_ms) target) (ticks w target) ≡ (
          leb w.start_ms (k * tick_step (w.end_ms - w.start_ms) target)
          && ltb (k * tick_step (w.end_ms - w.start_ms) target) w.end_ms))
      × (60000 ≤ tick_step (w.end_ms - w.start_ms) target)
unfolding ticks
ticks_are_multiples w target k =
    let step = tick_step (w.end_ms - w.start_ms) target in
    elim (Bool-cases (leb w.end_ms w.start_ms)) [
      | inl shut ↦
          rw shut (tt, nowhere (k * step) shut, tick_step-ge (w.end_ms - w.start_ms) target)
      | inr ordered ↦
          let (sound, complete) = open_ticks w target k ordered in
          (sound, found step sound complete, tick_step-ge (w.end_ms - w.start_ms) target)
    ]
  where
    nowhere :
        (x : ℕ) → leb w.end_ms w.start_ms ≡ true → false ≡ (leb w.start_ms x && ltb x w.end_ms)
    nowhere x shut = ground arith

    found :
        (step : ℕ)
        → All (IsInside w step) (ticks w target)
        → (w.start_ms ≤ k * step
            → k * step < w.end_ms
            → any (λ t. t == k * step) (ticks w target) ≡ true)
        → any (λ t. t == k * step) (ticks w target)
          ≡ (leb w.start_ms (k * step) && ltb (k * step) w.end_ms)
    found step sound complete =
        elim (Bool-cases (leb w.start_ms (k * step) && ltb (k * step) w.end_ms)) [
          | inl e ↦ rw e (complete (ground arith) (ground arith))
          | inr e ↦ rw e (any_outside w step (k * step) (ticks w target) sound e)
        ]
