-- ===== src/Touchpad/Positions/Synaptics/Fields.antt =====
-- The fields of the two kinds of packets of a Synaptics touchpad.
use apple_ps2smart_touch_pad.Common.{
  ℕ, ◌+◌, ◌*◌, ◌/◌, ◌%◌, ◌<◌, List, [], ◌∷◌, ◌≡◌, arith, bit_or, bit_or-shifted,
}
use apple_ps2smart_touch_pad.Touchpad.Positions.{byte}
use apple_ps2smart_touch_pad.Touchpad.Positions.Synaptics.{
  new_w, new_x, new_y, old_w, old_x, old_y, old_pressure,
}

-- A packet of the new kind with a touch: `w`, the pressure, and where it is.
unfoldable pub new_packet : ℕ → ℕ → ℕ → ℕ → List ℕ
new_packet w p x y =
    (128 + w / 4 * 16 + w / 2 % 2 * 4)
    ∷ (y / 256 % 16 * 16 + x / 256 % 16)
    ∷ p
    ∷ (192 + y / 4096 * 32 + x / 4096 * 16 + w % 2 * 4)
    ∷ (x % 256)
    ∷ (y % 256)
    ∷ []

-- A packet of the old kind, which has two of the digits of `w`.
unfoldable pub old_packet : ℕ → ℕ → ℕ → ℕ → ℕ → List ℕ
old_packet high low p x y =
    (192 + p / 64 * 16 + low * 4)
    ∷ (high * 128 + x / 256)
    ∷ (x % 256)
    ∷ (128 + p % 64)
    ∷ (y / 256)
    ∷ (y % 256)
    ∷ []

coordinate_lem :
    (a b c v : ℕ)
    → a ≡ v / 4096
    → b ≡ v / 256 % 16
    → c ≡ v % 256
    → bit_or (bit_or (a * 4096) (b * 256)) c ≡ v
coordinate_lem a b c v e f g =
    let inner : bit_or (v / 4096 * 4096) (v / 256 % 16 * 256) ≡ v / 256 * 256 =
      omega (arith, bit_or-shifted 12 (v / 4096) (v / 256 % 16 * 256) (omega arith)) in
    let value : bit_or (v / 256 * 256) (v % 256) ≡ v =
      omega (arith, bit_or-shifted 8 (v / 256) (v % 256) (omega arith)) in
    rw (e, f, g) (rw inner value)

w_lem :
    (a b c w : ℕ) → a ≡ w / 4 → b ≡ w / 2 % 2 → c ≡ w % 2 → bit_or (bit_or (a * 4) (b * 2)) c ≡ w
w_lem a b c w e f g =
    let inner : bit_or (w / 4 * 4) (w / 2 % 2 * 2) ≡ w / 2 * 2 =
      omega (arith, bit_or-shifted 2 (w / 4) (w / 2 % 2 * 2) (omega arith)) in
    let value : bit_or (w / 2 * 2) (w % 2) ≡ w =
      omega (arith, bit_or-shifted 1 (w / 2) (w % 2) (omega arith)) in
    rw (e, f, g) (rw inner value)

two_lem : (high low v : ℕ) → high ≡ v / 256 → low ≡ v % 256 → bit_or (high * 256) low ≡ v
two_lem high low v e f =
    let value : bit_or (v / 256 * 256) (v % 256) ≡ v =
      omega (arith, bit_or-shifted 8 (v / 256) (v % 256) (omega arith)) in
    rw (e, f) value

pressure_lem : (high low v : ℕ) → high ≡ v / 64 → low ≡ v % 64 → bit_or (high * 64) low ≡ v
pressure_lem high low v e f =
    let value : bit_or (v / 64 * 64) (v % 64) ≡ v =
      omega (arith, bit_or-shifted 6 (v / 64) (v % 64) (omega arith)) in
    rw (e, f) value

old_w_lem :
    (a b high low : ℕ) → a ≡ high → b ≡ low → low < 2 → bit_or (a * 8) (b * 2) ≡ high * 8 + low * 2
old_w_lem a b high low e f h =
    let value : bit_or (high * 8) (low * 2) ≡ high * 8 + low * 2 =
      omega (arith, bit_or-shifted 3 high (low * 2) (omega arith)) in
    rw (e, f) value

-- What a packet of the new kind tells is read back from it: a `w` below 16, the pressure, and both
-- coordinates, which are below 2^13.
pub new_packet-fields :
    (w p x y : ℕ)
    → w < 16
    → x < 8192
    → y < 8192
    → let packet = new_packet w p x y in
      (new_w packet ≡ w) × (byte packet 2 ≡ p) × (new_x packet ≡ x) × (new_y packet ≡ y)
unfolding new_packet new_w new_x new_y
new_packet-fields w p x y hw hx hy = (
  w_lem _ _ _ w (omega arith) (omega arith) (omega arith),
  omega arith,
  coordinate_lem _ _ _ x (omega arith) (omega arith) (omega arith),
  coordinate_lem _ _ _ y (omega arith) (omega arith) (omega arith),
)

-- What a packet of the old kind tells is read back from it: two digits of `w`, a pressure below 256,
-- and both coordinates, which are below 2^13.
pub old_packet-fields :
    (high low p x y : ℕ)
    → high < 2
    → low < 2
    → p < 256
    → x < 8192
    → y < 8192
    → let packet = old_packet high low p x y in
      (old_w packet ≡ high * 8 + low * 2)
      × (old_pressure packet ≡ p)
      × (old_x packet ≡ x)
      × (old_y packet ≡ y)
unfolding old_packet old_w old_x old_y old_pressure
old_packet-fields high low p x y hh hl hp hx hy = (
  old_w_lem _ _ high low (omega arith) (omega arith) hl,
  pressure_lem _ _ p (omega arith) (omega arith),
  two_lem _ _ x (omega arith) (omega arith),
  two_lem _ _ y (omega arith) (omega arith),
)
