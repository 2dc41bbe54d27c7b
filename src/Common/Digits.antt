-- ===== src/Common/Digits.antt =====
-- How `&` and `|` go through the binary digits of their operands.
use Prim.Native.Nat.{
  ℕ, zero, suc, ◌+◌, ◌-◌, ◌*◌, ◌/◌, ◌%◌, ◌^◌, ◌≤◌, ◌<◌, min, max, digits, bit_and, bit_or,
  bit_and-bitwise, bit_or-bitwise,
}
use mathlib.Core.Path.{◌≡◌, refl, ap}
use native.Mathlib.Nat.{pow-suc, one-le-pow}
use native.Mathlib.Omega.{arith}
use apple_ps2smart_touch_pad.Common.Tests.{◌==◌, if◌then◌else◌}
use apple_ps2smart_touch_pad.Common.Bytes.{has}

-- More digits to go than the first number has change nothing.
module _ (rest : ℕ → ℕ) (op : ℕ → ℕ → ℕ) where
  enough_digits : (a b k l : ℕ) → a ≤ k → a ≤ l → digits rest op k a b ≡ digits rest op l a b
  enough_digits zero b zero zero hk hl = refl
  enough_digits zero b zero (suc l) hk hl = refl
  enough_digits zero b (suc k) zero hk hl = refl
  enough_digits zero b (suc k) (suc l) hk hl = refl
  enough_digits (suc a) b zero l hk hl = absurd (omega arith)
  enough_digits (suc a) b (suc k) zero hk hl = absurd (omega arith)
  enough_digits (suc a) b (suc k) (suc l) hk hl =
      let halves = enough_digits (suc a / 2) (b / 2) k l (omega arith) (omega arith) in
      omega (arith, halves)

and_halves : (a b : ℕ) → bit_and a b ≡ bit_and (a / 2) (b / 2) * 2 + min (a % 2) (b % 2)
and_halves zero b = omega (arith, bit_and-bitwise 0 b, bit_and-bitwise 0 (b / 2))
and_halves (suc a) b = omega (
  arith,
  bit_and-bitwise (suc a) b,
  bit_and-bitwise (suc a / 2) (b / 2),
  enough_digits (λ x. zero) min (suc a / 2) (b / 2) a (suc a / 2) (omega arith) (omega arith),
)

or_halves : (a b : ℕ) → bit_or a b ≡ bit_or (a / 2) (b / 2) * 2 + max (a % 2) (b % 2)
or_halves zero b = omega (arith, bit_or-bitwise 0 b, bit_or-bitwise 0 (b / 2))
or_halves (suc a) b = omega (
  arith,
  bit_or-bitwise (suc a) b,
  bit_or-bitwise (suc a / 2) (b / 2),
  enough_digits (λ x. x) max (suc a / 2) (b / 2) a (suc a / 2) (omega arith) (omega arith),
)

-- The binary digit at a place.
unfoldable pub digit : ℕ → ℕ → ℕ
digit zero w = w % 2
digit (suc j) w = digit j (w / 2)

pub digit-bit_and : (j a b : ℕ) → digit j (bit_and a b) ≡ min (digit j a) (digit j b)
unfolding digit
digit-bit_and zero a b = omega (arith, and_halves a b)
digit-bit_and (suc j) a b =
    let e : bit_and a b / 2 ≡ bit_and (a / 2) (b / 2) = omega (arith, and_halves a b) in
    rw e (digit-bit_and j (a / 2) (b / 2))

pub digit-bit_or : (j a b : ℕ) → digit j (bit_or a b) ≡ max (digit j a) (digit j b)
unfolding digit
digit-bit_or zero a b = omega (arith, or_halves a b)
digit-bit_or (suc j) a b =
    let e : bit_or a b / 2 ≡ bit_or (a / 2) (b / 2) = omega (arith, or_halves a b) in
    rw e (digit-bit_or j (a / 2) (b / 2))

pub digit-zero : (j : ℕ) → digit j 0 ≡ 0
unfolding digit
digit-zero zero = refl
digit-zero (suc j) = digit-zero j

pub digit_le : (j w : ℕ) → digit j w ≤ 1
unfolding digit
digit_le zero w = omega arith
digit_le (suc j) w = digit_le j (w / 2)

pub digit-pow : (j k : ℕ) → digit j (2 ^ k) ≡ (if j == k then 1 else 0)
unfolding digit
digit-pow zero zero = refl
digit-pow zero (suc k) = ground (arith, pow-suc 2 k)
digit-pow (suc j) zero = ground (arith, digit-zero j)
digit-pow (suc j) (suc k) =
    let e : 2 ^ suc k / 2 ≡ 2 ^ k = omega (arith, pow-suc 2 k) in
    rw e (ground (arith, digit-pow j k))

-- All digits below a place.
pub digit-ones : (j n : ℕ) → j < n → digit j (2 ^ n - 1) ≡ 1
unfolding digit
digit-ones zero zero h = absurd (omega arith)
digit-ones zero (suc n) h = omega (arith, pow-suc 2 n, one-le-pow n 2)
digit-ones (suc j) zero h = absurd (omega arith)
digit-ones (suc j) (suc n) h =
    let e : (2 ^ suc n - 1) / 2 ≡ 2 ^ n - 1 = omega (arith, pow-suc 2 n, one-le-pow n 2) in
    rw e (digit-ones j n (omega arith))

pow_lt : (k n : ℕ) → k < n → 2 ^ k < 2 ^ n
pow_lt zero zero h = absurd (omega arith)
pow_lt zero (suc n) h = omega (arith, pow-suc 2 n, one-le-pow n 2)
pow_lt (suc k) zero h = absurd (omega arith)
pow_lt (suc k) (suc n) h = omega (arith, pow-suc 2 n, pow-suc 2 k, pow_lt k n (omega arith))

-- All digits below a place but one.
pub digit-hole :
    (j k n : ℕ) → j < n → k < n → digit j (2 ^ n - 1 - 2 ^ k) ≡ (if j == k then 0 else 1)
unfolding digit
digit-hole j k zero h l = absurd (omega arith)
digit-hole zero zero (suc n) h l = omega (arith, pow-suc 2 n, one-le-pow n 2)
digit-hole zero (suc k) (suc n) h l =
    ground (arith, pow-suc 2 n, pow-suc 2 k, pow_lt k n (omega arith))
digit-hole (suc j) zero (suc n) h l =
    let e : (2 ^ suc n - 1 - 1) / 2 ≡ 2 ^ n - 1 = omega (arith, pow-suc 2 n, one-le-pow n 2) in
    rw e (ground (arith, digit-ones j n (omega arith)))
digit-hole (suc j) (suc k) (suc n) h l =
    let e : (2 ^ suc n - 1 - 2 ^ suc k) / 2 ≡ 2 ^ n - 1 - 2 ^ k =
      omega (arith, pow-suc 2 n, pow-suc 2 k, pow_lt k n (omega arith)) in
    rw e (ground (arith, digit-hole j k n (omega arith) (omega arith)))

no_digits : (n a : ℕ) → a ≤ n → bit_and a 0 ≡ 0
no_digits n zero h = refl
no_digits zero (suc a) h = absurd (omega arith)
no_digits (suc n) (suc a) h =
    omega (arith, and_halves (suc a) 0, no_digits n (suc a / 2) (omega arith))

and_pow : (j w : ℕ) → bit_and w (2 ^ j) ≡ digit j w * 2 ^ j
unfolding digit
and_pow zero w = omega (arith, and_halves w 1, no_digits (w / 2) (w / 2) (omega arith))
and_pow (suc j) w =
    let e : 2 ^ suc j / 2 ≡ 2 ^ j = omega (arith, pow-suc 2 j) in
    let halved : bit_and (w / 2) (2 ^ suc j / 2) ≡ digit j (w / 2) * 2 ^ j =
      rw e (and_pow j (w / 2)) in
    omega (
      arith,
      and_halves w (2 ^ suc j),
      halved,
      pow-suc 2 j,
      ap (λ (t : ℕ). digit j (w / 2) * t) (pow-suc 2 j),
    )

-- A test by a mask of one digit is a test of that digit.
pub has_pow : (j w : ℕ) → has w (2 ^ j) ≡ (digit j w == 1)
unfolding has
has_pow j w = ground (arith, and_pow j w, digit_le j w, one-le-pow j 2)

or_zero : (n a : ℕ) → a ≤ n → bit_or a 0 ≡ a
or_zero n zero h = refl
or_zero zero (suc a) h = absurd (omega arith)
or_zero (suc n) (suc a) h = omega (arith, or_halves (suc a) 0, or_zero n (suc a / 2) (omega arith))

-- A number whose low digits are clear and one of just these digits do not overlap.
pub bit_or-shifted : (k a r : ℕ) → r < 2 ^ k → bit_or (a * 2 ^ k) r ≡ a * 2 ^ k + r
bit_or-shifted zero a r h =
    let none_left : r ≡ 0 = omega arith in
    rw none_left (omega (arith, or_zero (a * 1) (a * 1) (omega arith)))
bit_or-shifted (suc k) a r h =
    let doubled : a * 2 ^ suc k ≡ a * 2 ^ k * 2 =
      omega (arith, ap (λ (t : ℕ). a * t) (pow-suc 2 k)) in
    let e : a * 2 ^ suc k / 2 ≡ a * 2 ^ k = omega (arith, doubled) in
    let halved : bit_or (a * 2 ^ suc k / 2) (r / 2) ≡ a * 2 ^ k + r / 2 =
      rw e (bit_or-shifted k a (r / 2) (omega (arith, pow-suc 2 k))) in
    omega (arith, or_halves (a * 2 ^ suc k) r, halved, doubled)

or_right_zero : (n a b : ℕ) → b ≤ n → bit_or a b ≡ 0 → b ≡ 0
or_right_zero zero a b h e = omega arith
or_right_zero (suc n) a b h e =
    let q : bit_or (a / 2) (b / 2) ≡ 0 = omega (arith, or_halves a b) in
    let r : b / 2 ≡ 0 = or_right_zero n (a / 2) (b / 2) (omega arith) q in
    omega (arith, or_halves a b)

pub bit_or-right_zero : (a b : ℕ) → bit_or a b ≡ 0 → b ≡ 0
bit_or-right_zero a b e = or_right_zero b a b (omega arith) e
