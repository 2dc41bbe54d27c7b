-- ===== src/Common/Int.antt =====
-- Signed integers, under the library's names: `negsuc n` is -(n + 1).
use Prim.Native.Nat.{ℕ, ◌-◌}
use apple_ps2smart_touch_pad.Common.Tests.{leb, if◌then◌else◌}

pub data ℤ : Type 0 where
  pos : ℕ → ℤ
  negsuc : ℕ → ℤ

-- The difference of two numbers.
abbrev pub sub_ℕ : ℕ → ℕ → ℤ
sub_ℕ a b = if leb b a then pos (a - b) else negsuc (b - a - 1)
