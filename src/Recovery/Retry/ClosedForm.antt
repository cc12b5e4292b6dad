-- ===== src/Recovery/Retry/ClosedForm.antt =====
-- recoveryRetryDelay against the exponential backoff that it stands for.
use native.Mathlib.Nat.{pow-suc}
use cpa_codex_quota_schedule.Common.{
  ℕ, zero, suc, ◌-◌, ◌*◌, ◌^◌, ◌≤◌, min, ◌≡◌, ap, arith, Duration,
}
use cpa_codex_quota_schedule.Recovery.Retry.{
  retry_loop, retry_base, retry_max, recovery_retry_delay,
}

pow_pos : (n : ℕ) → 1 ≤ 2 ^ n
pow_pos zero = omega arith
pow_pos (suc n) = omega (arith, pow-suc 2 n, pow_pos n)

saturates : (d m p : ℕ) → 1 ≤ p → m ≤ d * 2 → min m (d * (p * 2)) ≡ m
saturates d m p h k = grind arith

full_delay : (m p : ℕ) → 1 ≤ p → min m (m * (p * 2)) ≡ m
full_delay m p h = grind arith

retry_loop_lem : (n d m : ℕ) → d ≤ m → retry_loop n d m ≡ min m (d * 2 ^ n)
unfolding retry_loop
retry_loop_lem zero d m h = omega arith
retry_loop_lem (suc n) d m h = ground (
  arith,
  pow-suc 2 n,
  pow_pos n,
  retry_loop_lem n (d * 2) m,
  ap (λ (t : ℕ). d * t) (pow-suc 2 n),
  saturates d m (2 ^ n),
  full_delay m (2 ^ n),
)

-- The delay after n failures is the base, doubled n - 1 times and cut off at the maximum, where a
-- base or a maximum that is not positive stands for 2 minutes or 24 hours and a base past the
-- maximum for the maximum.
pub recovery_retry_delay-eq-min_pow :
    (failures : ℕ) (base max : Duration)
    → recovery_retry_delay failures base max
      ≡ min (retry_max max) (retry_base base max * 2 ^ (failures - 1))
unfolding recovery_retry_delay
recovery_retry_delay-eq-min_pow failures base max =
    retry_loop_lem (failures - 1) (retry_base base max) (retry_max max) (ground arith)
