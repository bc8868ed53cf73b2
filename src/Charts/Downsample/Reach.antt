-- ===== src/Charts/Downsample/Reach.antt =====
-- downsampleSegment of telemetry-series.ts: how far the buckets reach with the rounding of doubles.
use classg.Prelude.{
  ℕ, zero, suc, ◌+◌, ◌-◌, ◌*◌, ◌/◌, ◌^◌, ◌≤◌, ◌<◌, ◌≡◌, refl, sym, subst, inl, inr, arith, ltb, leb,
  Bool-cases,
}
use native.Mathlib.Nat.{
  div-le_self, pow-le-pow_right, one-le-pow, two-pow-succ, lt-div-mul-add, div-mul-le_self,
  le-div_iff_mul-le,
}
use classg.Charts.Downsample.{rounded, floor_log2, bucket_size, floor_times}

-- What a rounded quotient is off by, at most.
rounded_low : (x d : ℕ) → 0 < d → x ≤ rounded x d * d + d
rounded_low x d pos =
    let below = lt-div-mul-add {a = x} {b = d} pos in
    let more : (x / d) * d + d ≡ suc (x / d) * d = grind arith in ground (arith, below, more)

rounded_high : (x d : ℕ) → 0 < d → rounded x d * d ≤ x + d
rounded_high x d pos =
    let below = div-mul-le_self x d in
    let more : (x / d) * d + d ≡ suc (x / d) * d = grind arith in ground (arith, below, more)

floor_log2_le : (fuel n : ℕ) → 1 ≤ n → 2 ^ floor_log2 fuel n ≤ n
floor_log2_le zero n h = omega arith
floor_log2_le (suc fuel) n h = elim (Bool-cases (ltb n 2)) [
  | inl e ↦ rw e (omega arith)
  | inr e ↦
      let half = floor_log2_le fuel (n / 2) (ground arith) in
      rw e (omega (arith, half, two-pow-succ (floor_log2 fuel (n / 2))))
]

scaled : (a b c : ℕ) → a ≤ b → c * a ≤ c * b
scaled a b c h = grind arith

-- The count is far below the scale.
count_small :
    (k c e n : ℕ)
    → k * c ≤ n
    → n < 4_294_967_296
    → k * e ≡ 4_503_599_627_370_496
    → 1 ≤ k
    → c * 1_048_576 ≤ e
count_small k c e n a b s one = elim (Bool-cases (leb (c * 1_048_576) e)) [
  | inl fits ↦ ground arith
  | inr over ↦
      let more : e + 1 ≤ c * 1_048_576 = ground arith in
      let wide = scaled (e + 1) (c * 1_048_576) k more in
      let left : k * (e + 1) ≡ k * e + k = grind arith in
      let right : k * (c * 1_048_576) ≡ (k * c) * 1_048_576 = grind arith in
      absurd (omega (arith, wide, left, right))
]

core : (n c e u m r : ℕ) → n * e ≤ m * c + c → m * c ≤ r * u + u → c + u ≤ e → (n - 1) * e ≤ r * u
core zero c e u m r a b s = let nothing : 0 * e ≡ 0 = omega arith in rw nothing (omega arith)
core (suc n) c e u m r a b s =
    let split : suc n * e ≡ n * e + e = grind arith in
    let same : (suc n - 1) ≡ n = omega arith in rw same (omega (arith, split))

pow_split : (a b : ℕ) → 2 ^ (a + b) ≡ 2 ^ a * 2 ^ b
pow_split a zero = let same : a + 0 ≡ a = omega arith in rw same (omega arith)
pow_split a (suc b) =
    let same : a + suc b ≡ suc (a + b) = omega arith in
    let left = two-pow-succ (a + b) in
    let right = two-pow-succ b in
    let ih = pow_split a b in
    let spread : 2 ^ a * (2 ^ b + 2 ^ b) ≡ 2 ^ a * 2 ^ b + 2 ^ a * 2 ^ b = grind arith in
    rw (same, left, right) (omega (arith, ih, spread))

-- A power of a number of which 2 to it is no more than 2^32 leaves places up to 52.
log_fits : (l q : ℕ) → 2 ^ l ≤ q → q < 4_294_967_296 → l ≤ 52
log_fits l q a b = elim (Bool-cases (leb l 52)) [
  | inl fits ↦ ground arith
  | inr over ↦
      let big : 53 ≤ l = ground arith in
      absurd (omega (arith, pow-le-pow_right {n = 2} (omega arith) big))
]

-- The unit of the last place of the product is below the scale too.
unit_small :
    (l c e n p : ℕ)
    → 2 ^ l ≤ p
    → p ≤ n * e + c
    → n < 4_294_967_296
    → 1 ≤ c
    → c * 1_048_576 ≤ e
    → c + 2 ^ (l - 52) ≤ e
unit_small l c e n p a b s one small = elim (Bool-cases (leb l 52)) [
  | inl short ↦ let flat : l - 52 ≡ 0 = ground arith in rw flat (omega arith)
  | inr long ↦
      let back : 52 + (l - 52) ≡ l = ground arith in
      let spread = pow_split 52 (l - 52) in
      let whole : 2 ^ (52 + (l - 52)) ≡ 2 ^ l = rw back refl in
      let bound = scaled n 4_294_967_296 e (omega arith) in
      let turn : e * n ≡ n * e = grind arith in omega (arith, spread, whole, bound, turn)
]

-- The product with the rounded quotient, with what is known of its parts.
product_reaches :
    (n c l places : ℕ)
    → 1 ≤ c
    → n < 4_294_967_296
    → 1 ≤ n
    → 2 ^ l * c ≤ n
    → l + places ≡ 52
    → n ≤ suc (floor_times c (record { bits = rounded (n * 2 ^ places) c; places = places }))
unfolding floor_times
product_reaches n c l places one bound some_points below sum =
    let e = 2 ^ places in
    let m = rounded (n * e) c in
    let p = c * m in
    let u = 2 ^ (floor_log2 106 p - 52) in
    let scale : 2 ^ l * e ≡ 4_503_599_627_370_496 =
      (let spread = pow_split l places in sym (subst (λ s. 2 ^ s ≡ 2 ^ l * e) sum spread)) in
    let small = count_small (2 ^ l) c e n below bound scale (one-le-pow l 2 (omega arith)) in
    let turn : p ≡ m * c = grind arith in
    let low = rounded_low (n * e) c one in
    let high = rounded_high (n * e) c one in
    let much = scaled 1 n e some_points in
    let swap : e * n ≡ n * e = grind arith in
    let there : 1 ≤ p = omega (arith, turn, low, much, swap, small) in
    let unit =
      unit_small (floor_log2 106 p) c e n p (floor_log2_le 106 p there) (omega (arith, turn, high))
        bound one small in
    let upos = one-le-pow (floor_log2 106 p - 52) 2 (omega arith) in
    let lost = rounded_low p u upos in
    let whole = core n c e u m (rounded p u) low (omega (arith, turn, lost)) unit in
    let epos = one-le-pow places 2 (omega arith) in
    let inside = (le-div_iff_mul-le {k = e} {x = n - 1} {y = rounded p u * u} epos).1 whole in
    omega (arith, inside)

-- For an array of a length that JavaScript allows, the buckets reach all points but the last at least.
pub buckets_reach :
    (n c : ℕ) → 1 ≤ c → c ≤ n → n < 4_294_967_296 → n ≤ suc (floor_times c (bucket_size n c))
unfolding bucket_size
buckets_reach n c one fits bound =
    let q = n / c in
    let l = floor_log2 53 q in
    let some_each = (le-div_iff_mul-le {k = c} {x = 1} {y = n} one).1 (omega arith) in
    let low = floor_log2_le 53 q some_each in
    let share = div-mul-le_self n c in
    let turn : c * q ≡ q * c = grind arith in
    let swap : c * 2 ^ l ≡ 2 ^ l * c = grind arith in
    let below = scaled (2 ^ l) q c low in
    let whole : q ≤ n = div-le_self n c in
    let places = log_fits l q low (omega arith) in
    product_reaches n c l (52 - l) one bound (omega arith) (omega (arith, share, turn, swap, below))
      (omega arith)
