-- ===== src/Delivery/Backoff.antt =====
-- The delay before the next attempt.
use ecm_management.Base.{ℕ, zero, suc, ◌+◌, ◌-◌, ◌^◌, ◌≤◌, ◌≡◌, arith}
use ecm_management.Delivery.{backoff_ms, base_retry_delay_ms, max_retry_delay_ms}

pow_pos : (n : ℕ) → 1 ≤ 2 ^ n
pow_pos zero = omega arith
pow_pos (suc n) = omega (arith, pow_pos n)

pow_grows : (m n : ℕ) → m ≤ n → 2 ^ m ≤ 2 ^ n
pow_grows zero n h = pow_pos n
pow_grows (suc m) zero h = absurd (omega arith)
pow_grows (suc m) (suc n) h = omega (arith, pow_grows m n)

-- The delay after any number of attempts lies between half a minute and a quarter of an hour, does
-- not get shorter with more attempts, and from the sixth attempt on it is a quarter of an hour.
pub backoff_ms_bounds :
    (m n : ℕ)
    → m ≤ n
    → (base_retry_delay_ms ≤ backoff_ms m)
      × (backoff_ms n ≤ max_retry_delay_ms)
      × (backoff_ms m ≤ backoff_ms n)
      × (backoff_ms (n + 6) ≡ max_retry_delay_ms)
unfolding backoff_ms
backoff_ms_bounds m n h = (
  omega (arith, pow_pos (m - 1)),
  omega arith,
  omega (arith, pow_grows (m - 1) (n - 1)),
  omega (arith, pow_grows 5 (n + 6 - 1)),
)
