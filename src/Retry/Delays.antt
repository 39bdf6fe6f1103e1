-- ===== src/Retry/Delays.antt =====
-- The backoff delays.
use llm_service.Prelude.{ℕ, suc, ◌*◌, ◌/◌, ◌≤◌, ◌<◌, max, arith}
use native.Mathlib.Nat.{mul-le-mul_left, pow-le-pow_right}
use llm_service.Retry.{RetryPolicy, base_delay, delay}

-- A delay is at least ten milliseconds, and exceeds neither that nor `max_delay_ms` by more than a
-- tenth, if the jitter is drawn from its interval.
delay_bounds :
    (p : RetryPolicy) (k draw : ℕ)
    → draw ≤ 2 * (base_delay p k / 10)
    → (10_000 ≤ delay p k draw) × (delay p k draw ≤ max 10_000 (p.max_delay_ms * 1100))
unfolding delay base_delay
delay_bounds p k draw h = ground arith

-- With a factor of at least 1 the delay before jitter never falls from one attempt to the next.
pub base_delay_grows :
    (p : RetryPolicy) (k : ℕ) → 0 < p.backoff_factor → base_delay p k ≤ base_delay p (suc k)
unfolding base_delay
base_delay_grows p k h = omega (
  arith,
  mul-le-mul_left (p.initial_delay_ms * 1000)
      (pow-le-pow_right h {i = k} {j = suc k} (omega arith)),
)
