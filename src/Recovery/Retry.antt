-- ===== src/Recovery/Retry.antt =====
-- recovery_guard.go: recoveryRetryDelay, the backoff after failed probes. Its loop runs at most
-- failures - 1 rounds, which is the fuel.
pub mod ClosedForm
use cpa_codex_quota_schedule.Common.{
  ℕ, zero, suc, ◌-◌, ◌*◌, ◌/◌, ltb, ◌==◌, if◌then◌else◌, Duration, minute, hour,
}

-- `for i := 1; i < failures && delay < max; i++` with failures - 1 rounds left.
unfoldable pub retry_loop : ℕ → Duration → Duration → Duration
retry_loop zero delay max = delay
retry_loop (suc n) delay max =
    let rest = retry_loop n (delay * 2) max in
    if ltb delay max then (if ltb (max / 2) delay then max else rest) else delay

abbrev pub retry_max : Duration → Duration
retry_max max = if max == 0 then 24 * hour else max

abbrev pub retry_base : Duration → Duration → Duration
retry_base base max =
    let b = if base == 0 then 2 * minute else base in
    if ltb (retry_max max) b then retry_max max else b

unfoldable pub recovery_retry_delay : ℕ → Duration → Duration → Duration
unfolding retry_loop
recovery_retry_delay failures base max =
    retry_loop (failures - 1) (retry_base base max) (retry_max max)
