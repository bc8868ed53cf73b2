-- ===== src/Live/Stream/Backoff.antt =====
-- The retry delays of live.ts.
use classg.Prelude.{ℕ, zero, suc, ◌-◌, ◌*◌, ◌^◌, ◌≤◌, ◌<◌, ◌≡◌, min, arith, false, some}
use native.Mathlib.Nat.{pow-suc}
use classg.Live.Stream.{LiveStream, ceiling, delay_for, schedule_reconnect, set_state}

scaled-le : (j c : ℕ) → j < 2 ^ 53 → j * c ≤ 2 ^ 53 * c
scaled-le j c h = grind arith

pub delay_for-le :
    (s : LiveStream) (jitter attempt : ℕ)
    → jitter < 2 ^ 53
    → delay_for s jitter attempt ≤ ceiling s attempt
unfolding delay_for
delay_for-le s jitter attempt h = omega (arith, scaled-le jitter (ceiling s attempt) h)

-- From the first failed attempt on, the bound of the next delay is twice the bound of this one, or the
-- maximum if that is less.
pub ceiling_doubles :
    (s : LiveStream) (attempt : ℕ)
    → 0 < attempt
    → ceiling s (suc attempt) ≡ min (2 * ceiling s attempt) s.max_delay_ms
unfolding ceiling
ceiling_doubles s zero h = absurd (omega arith)
ceiling_doubles s (suc n) h =
    let later : suc (suc n) - 1 ≡ suc n = omega arith in
    let now : suc n - 1 ≡ n = omega arith in rw (later, now, pow-suc 2 n) (omega arith)

pub first_delay-le :
    (s : LiveStream) (jitter : ℕ) → jitter < 2 ^ 53 → delay_for s jitter 1 ≤ s.base_delay_ms
unfolding ceiling
first_delay-le s jitter h = omega (arith, delay_for-le s jitter 1 h)

-- If the stream was not stopped and the jitter is below 1, a lost connection counts one more attempt and
-- sets the timer, to a delay of at most the bound for that attempt, which is at most the maximum.
pub schedule_reconnect_delay :
    (s : LiveStream) (jitter : ℕ)
    → s.stopped ≡ false
    → jitter < 2 ^ 53
    → (delay : ℕ) × ((schedule_reconnect jitter s).timer ≡ some delay)
      × ((schedule_reconnect jitter s).attempt ≡ suc s.attempt)
      × (delay ≤ ceiling s (suc s.attempt))
      × (ceiling s (suc s.attempt) ≤ s.max_delay_ms)
unfolding schedule_reconnect set_state ceiling
schedule_reconnect_delay s jitter running h = (
  delay_for s jitter (suc s.attempt),
  ground arith,
  ground arith,
  delay_for-le s jitter (suc s.attempt) h,
  omega arith,
)
