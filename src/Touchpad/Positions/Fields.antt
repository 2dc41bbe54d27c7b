-- ===== src/Touchpad/Positions/Fields.antt =====
-- The fields of a packet with one position.
use apple_ps2smart_touch_pad.Common.{
  ℕ, ◌+◌, ◌*◌, ◌/◌, ◌%◌, ◌<◌, List, [], ◌∷◌, ◌≡◌, arith, bit_or, bit_or-shifted,
}
use apple_ps2smart_touch_pad.Touchpad.Positions.{
  position, packet_pressure, packet_width, packet_fingers, byte,
}

-- A packet that tells the number of fingers, the width and the pressure of a touch, and where it is.
unfoldable pub packet_of : ℕ → ℕ → ℕ → ℕ → ℕ → List ℕ
packet_of n w p x y =
    (n * 64 + w / 4 * 16)
    ∷ (p / 16 * 16 + x / 256)
    ∷ (x % 256)
    ∷ (w % 4 * 16)
    ∷ (p % 16 * 16 + y / 256)
    ∷ (y % 256)
    ∷ []

position_lem : (high low v : ℕ) → high % 16 ≡ v / 256 → low ≡ v % 256 → position high low ≡ v
unfolding position
position_lem high low v e f =
    let value : bit_or (v / 256 * 256) (v % 256) ≡ v =
      omega (arith, bit_or-shifted 8 (v / 256) (v % 256) (omega arith)) in
    rw (e, f) value

nibbles_lem : (high low v : ℕ) → high ≡ v / 16 → low ≡ v % 16 → bit_or (high * 16) low ≡ v
nibbles_lem high low v e f =
    let value : bit_or (v / 16 * 16) (v % 16) ≡ v =
      omega (arith, bit_or-shifted 4 (v / 16) (v % 16) (omega arith)) in
    rw (e, f) value

pairs_lem : (high low v : ℕ) → high ≡ v / 4 → low ≡ v % 4 → bit_or (high * 4) low ≡ v
pairs_lem high low v e f =
    let value : bit_or (v / 4 * 4) (v % 4) ≡ v =
      omega (arith, bit_or-shifted 2 (v / 4) (v % 4) (omega arith)) in
    rw (e, f) value

-- What a packet of version 2 or 3 tells of one touch is read back from it: the number of fingers, the
-- width, the pressure, and both coordinates.
pub packet_of-fields :
    (n w p x y : ℕ)
    → n < 4
    → w < 16
    → p < 256
    → x < 4096
    → y < 4096
    → let packet = packet_of n w p x y in
      (packet_fingers packet ≡ n)
      × (packet_width packet ≡ w)
      × (packet_pressure packet ≡ p)
      × (position (byte packet 1) (byte packet 2) ≡ x)
      × (position (byte packet 4) (byte packet 5) ≡ y)
unfolding packet_of packet_fingers packet_width packet_pressure
packet_of-fields n w p x y hn hw hp hx hy = (
  omega arith,
  pairs_lem _ _ w (omega arith) (omega arith),
  nibbles_lem _ _ p (omega arith) (omega arith),
  position_lem _ _ x (omega arith) (omega arith),
  position_lem _ _ y (omega arith) (omega arith),
)
