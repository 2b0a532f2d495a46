-- ===== src/Watchsaga/Backoff.antt =====
-- The delays between retries.
use software_engineering_sch.Base.{ℕ, ◌≤◌, arith, minute, hour}
use software_engineering_sch.Watchsaga.Rules.{retry_delay}

-- A later attempt waits no shorter, and every delay lies between a minute and an hour.
pub retry_delay_mono :
    (m n : ℕ)
    → m ≤ n
    → (minute ≤ retry_delay m) × (retry_delay m ≤ retry_delay n) × (retry_delay n ≤ hour)
unfolding retry_delay
retry_delay_mono m n h = ground arith
