-- ===== src/Touchpad/Elan/Parity.antt =====
-- The parity table that `start` fills for versions 1 and 2.
use apple_ps2smart_touch_pad.Common.{
  ℕ, zero, suc, ◌+◌, ◌/◌, ◌%◌, ◌<◌, Bool, true, ◌≡◌, refl, arith, ◌==◌, get_or, passes, byte_passes,
}
use apple_ps2smart_touch_pad.Touchpad.Elan.{parity_loop, parity_bit}

-- The number of bits set among the lowest `n`.
unfoldable pub ones : ℕ → ℕ → ℕ
ones zero x = 0
ones (suc n) x = x % 2 + ones n (x / 2)

abbrev is_odd_parity : ℕ → Bool
is_odd_parity i = get_or parity_bit i 0 == (ones 8 i + 1) % 2

parity_table : passes is_odd_parity 0 256 ≡ true
unfolding passes parity_bit parity_loop ones
parity_table = refl

-- The entry of a byte is its odd parity bit: 1 exactly if the number of bits set in the byte is
-- even.
pub parity_bit_lem : (i : ℕ) → i < 256 → get_or parity_bit i 0 ≡ (ones 8 i + 1) % 2
parity_bit_lem i h = ground (arith, byte_passes is_odd_parity i h parity_table)
