-- ===== src/Base/Time.antt =====
-- Durations, in nanoseconds as Go counts them.
use Prim.Native.Nat.{ℕ}

abbrev pub second : ℕ
second = 1_000_000_000

abbrev pub minute : ℕ
minute = 60_000_000_000

abbrev pub hour : ℕ
hour = 3_600_000_000_000
