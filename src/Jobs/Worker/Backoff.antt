-- ===== src/Jobs/Worker/Backoff.antt =====
-- The delay before a retry grows exponentially up to a cap.
use onshape_export.Base.{ℕ, zero, suc, ◌*◌, ◌^◌, ◌≤◌, arith}
use onshape_export.Jobs.Worker.{max_delay, retry_backoff_seconds}
use native.Mathlib.Nat.{pow-suc}

one-le-pow : (n : ℕ) → 1 ≤ 2 ^ n
one-le-pow zero = omega arith
one-le-pow (suc n) = let ih = one-le-pow n in rw pow-suc (omega arith)

max_delay-le-cap : (attempt : ℕ) → max_delay attempt ≤ 300
unfolding max_delay
max_delay-le-cap attempt = omega arith

max_delay-le : (n : ℕ) → max_delay (suc n) ≤ 30 * 2 ^ n
unfolding max_delay
max_delay-le zero = omega arith
max_delay-le (suc zero) = omega arith
max_delay-le (suc (suc zero)) = omega arith
max_delay-le (suc (suc (suc zero))) = omega arith
max_delay-le (suc (suc (suc (suc n)))) = let p = one-le-pow n in simp pow-suc (omega arith)

-- With a source of random numbers that keeps to its range, the delay after the n-th attempt is at
-- most 30 * 2^(n - 1) seconds and at most five minutes.
pub retry_backoff_seconds_le :
    (random : ℕ → ℕ) (n : ℕ)
    → ((m : ℕ) → random m ≤ m)
    → (retry_backoff_seconds random (suc n) ≤ 30 * 2 ^ n)
      × (retry_backoff_seconds random (suc n) ≤ 300)
unfolding retry_backoff_seconds
retry_backoff_seconds_le random n bounded = (
  omega (arith, bounded (max_delay (suc n)), max_delay-le n),
  omega (arith, bounded (max_delay (suc n)), max_delay-le-cap (suc n)),
)
