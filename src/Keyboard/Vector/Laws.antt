-- ===== src/Keyboard/Vector/Laws.antt =====
-- The bit list as a set of keys.
use apple_ps2smart_touch_pad.Common.{
  ℕ, zero, suc, ◌-◌, ◌/◌, ◌%◌, ◌^◌, ◌<◌, true, false, List, [], ◌∷◌, ◌≡◌, refl, arith, ◌==◌,
  if◌then◌else◌, bit_and, bit_or, has, get_or, set, length, digit-bit_and, digit-bit_or, digit-pow,
  digit-hole, digit_le, has_pow,
}
use apple_ps2smart_touch_pad.Keyboard.Vector.{
  kbv_keydown, kbv_keyup, kbv_is_keydown, kbv_unit, kbv_bit,
}

get_or-set :
    (xs : List ℕ) (i j v d : ℕ)
    → i < length xs
    → get_or (set xs i v) j d ≡ (if j == i then v else get_or xs j d)
get_or-set [] i j v d h = absurd (omega arith)
get_or-set (x ∷ xs) zero zero v d h = refl
get_or-set (x ∷ xs) zero (suc j) v d h = ground arith
get_or-set (x ∷ xs) (suc i) zero v d h = ground arith
get_or-set (x ∷ xs) (suc i) (suc j) v d h = ground (arith, get_or-set xs i j v d (omega arith))

has-bit_or : (j k w : ℕ) → has (bit_or w (2 ^ k)) (2 ^ j) ≡ (if j == k then true else has w (2 ^ j))
has-bit_or j k w = ground (
  arith,
  has_pow j w,
  has_pow j (bit_or w (2 ^ k)),
  digit-bit_or j w (2 ^ k),
  digit-pow j k,
  digit_le j w,
)

has-bit_and :
    (j k w : ℕ)
    → j < 32
    → k < 32
    → has (bit_and w (2 ^ 32 - 1 - 2 ^ k)) (2 ^ j) ≡ (if j == k then false else has w (2 ^ j))
has-bit_and j k w hj hk = ground (
  arith,
  has_pow j w,
  has_pow j (bit_and w (2 ^ 32 - 1 - 2 ^ k)),
  digit-bit_and j w (2 ^ 32 - 1 - 2 ^ k),
  digit-hole j k 32 hj hk,
  digit_le j w,
)

-- Marking a key as down changes what is read for that key alone.
pub kbv_is_keydown-kbv_keydown :
    (m n : ℕ) (bits : List ℕ)
    → length bits ≡ 8
    → n < 256
    → kbv_is_keydown m (kbv_keydown n bits) ≡ (if m == n then true else kbv_is_keydown m bits)
unfolding kbv_is_keydown kbv_keydown
kbv_is_keydown-kbv_keydown m n bits l h =
    let word = bit_or (kbv_unit n bits) (kbv_bit n) in
    ground (
      arith,
      get_or-set bits (n / 32) (m / 32) word 0 (omega arith),
      has-bit_or (m % 32) (n % 32) (kbv_unit n bits),
    )

-- Marking a key as up changes what is read for that key alone.
pub kbv_is_keydown-kbv_keyup :
    (m n : ℕ) (bits : List ℕ)
    → length bits ≡ 8
    → n < 256
    → kbv_is_keydown m (kbv_keyup n bits) ≡ (if m == n then false else kbv_is_keydown m bits)
unfolding kbv_is_keydown kbv_keyup
kbv_is_keydown-kbv_keyup m n bits l h =
    let word = bit_and (kbv_unit n bits) (2 ^ 32 - 1 - kbv_bit n) in
    ground (
      arith,
      get_or-set bits (n / 32) (m / 32) word 0 (omega arith),
      has-bit_and (m % 32) (n % 32) (kbv_unit n bits) (omega arith) (omega arith),
    )
