-- ===== src/Keyboard/Vector.antt =====
-- The bit list of ApplePS2Keyboard.h that says which keys are down: 8 words of 32 bits.
pub mod Laws
use apple_ps2smart_touch_pad.Common.{
  ℕ, ◌-◌, ◌/◌, ◌%◌, ◌^◌, Bool, List, bit_and, bit_or, has, get_or, set,
}

abbrev pub kbv_bits_per_unit : ℕ
kbv_bits_per_unit = 32

-- `1 << ((n) & KBV_BITS_MASK)`, and its complement as a `UInt32`.
abbrev pub kbv_bit : ℕ → ℕ
kbv_bit n = 2 ^ (n % kbv_bits_per_unit)

abbrev pub kbv_unit : ℕ → List ℕ → ℕ
kbv_unit n bits = get_or bits (n / kbv_bits_per_unit) 0

-- `KBV_KEYDOWN`, `KBV_KEYUP` and `KBV_IS_KEYDOWN`.
unfoldable pub kbv_keydown : ℕ → List ℕ → List ℕ
kbv_keydown n bits = set bits (n / kbv_bits_per_unit) (bit_or (kbv_unit n bits) (kbv_bit n))

unfoldable pub kbv_keyup : ℕ → List ℕ → List ℕ
kbv_keyup n bits =
    set bits (n / kbv_bits_per_unit) (bit_and (kbv_unit n bits) (2 ^ 32 - 1 - kbv_bit n))

unfoldable pub kbv_is_keydown : ℕ → List ℕ → Bool
kbv_is_keydown n bits = has (kbv_unit n bits) (kbv_bit n)
