-- ===== src/Common/Bytes.antt =====
-- Bytes: masks and tests as the drivers write them, and the check of a fact at every byte.
use Prim.Native.Nat.{ℕ, zero, suc, ◌+◌, ◌-◌, ◌≤◌, ◌<◌, bit_and}
use mathlib.Core.Path.{◌≡◌}
use mathlib.Core.Bool.{Bool, true, false, not}
use native.Mathlib.Omega.{arith}
use apple_ps2smart_touch_pad.Common.Tests.{◌==◌, if◌then◌else◌}

-- `x & mask` as a condition.
unfoldable pub has : ℕ → ℕ → Bool
has x mask = not (bit_and x mask == 0)

-- `x & ~mask` on a byte.
unfoldable pub clear_bits : ℕ → ℕ → ℕ
clear_bits x mask = bit_and x (255 - mask)

-- A test passed by `left` values from `first` on, upwards.
unfoldable pub passes : (ℕ → Bool) → ℕ → ℕ → Bool
passes test first zero = true
passes test first (suc left) =
    let others = passes test (first + 1) left in if test first then others else false

-- A test that all bytes pass, found so by evaluation, holds of a byte.
passes_lem :
    (test : ℕ → Bool) (first left b : ℕ)
    → passes test first left ≡ true
    → first ≤ b
    → b < first + left
    → test b ≡ true
unfolding passes
passes_lem test first zero b run lo hi = absurd (omega arith)
passes_lem test first (suc left) b run lo hi = ground (arith, passes_lem test (first + 1) left b)

pub byte_passes : (test : ℕ → Bool) (b : ℕ) → b < 256 → passes test 0 256 ≡ true → test b ≡ true
byte_passes test b hi run = passes_lem test 0 256 b run (omega arith) (omega arith)
