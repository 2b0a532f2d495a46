-- ===== src/Base/Texts.antt =====
-- Texts that are not empty.
use Prim.Native.Nat.{◌<◌}
use Prim.Native.String.{String, len, ◌++◌}
use mathlib.Core.Path.{◌≡◌, ap}
use mathlib.Core.Logic.{◌≢◌}
use mathlib.Core.Bool.{false}
use native.Mathlib.Omega.{arith}
use text.Mathlib.TextPositions.{len-append}
use text.Mathlib.TextEquality.{eq_iff}
use software_engineering_sch.Base.Tests.{◌==◌}

pub filled : (s : String) → s ≢ "" → (s == "") ≡ false
filled s h = ground (arith, h, eq_iff s "")

-- A text that begins with a text that is not empty.
pub append_filled : (s t : String) → 0 < len s → 0 < len (s ++ t)
append_filled s t h = omega (arith, len-append s t, h)

pub filled_by_length : (s : String) → 0 < len s → (s == "") ≡ false
filled_by_length s h = filled s (λ e. omega (arith, h, ap len e))
