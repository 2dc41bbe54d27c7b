-- ===== src/Touchpad/Synaptics/Fields.antt =====
-- The fields of the answers of a Synaptics touchpad: words, identity, coordinates, buttons.
use apple_ps2smart_touch_pad.Common.{
  ℕ, ◌+◌, ◌*◌, ◌/◌, ◌%◌, ◌≤◌, ◌<◌, ◌≡◌, arith, bit_or, bit_or-shifted,
}
use apple_ps2smart_touch_pad.Interface.Device.{Params}
use apple_ps2smart_touch_pad.Touchpad.Synaptics.{
  word, coordinate_x, coordinate_y, valid_ext_cap, cap_multi_button_no,
}

pub word_lem :
    (id : Params) → id.p1 < 256 → id.p2 < 256 → word id ≡ id.p0 * 65536 + id.p1 * 256 + id.p2
unfolding word
word_lem id h1 h2 =
    let high : bit_or (id.p0 * 65536) (id.p1 * 256) ≡ (id.p0 * 256 + id.p1) * 256 =
      omega (arith, bit_or-shifted 16 id.p0 (id.p1 * 256) (omega arith)) in
    rw high (omega (arith, bit_or-shifted 8 (id.p0 * 256 + id.p1) id.p2 (omega arith)))

-- The answer that tells a pair of coordinates, in steps of two.
unfoldable pub packed : ℕ → ℕ → Params
packed x y = record { p0 = x / 16; p1 = y % 16 * 16 + x % 16; p2 = y / 16 }

-- The driver's coordinates are twice those that an answer packs, whatever these are.
pub coordinates-packed :
    (x y : ℕ) → (coordinate_x (packed x y) ≡ x * 2) × (coordinate_y (packed x y) ≡ y * 2)
unfolding coordinate_x coordinate_y packed
coordinates-packed x y =
    let ex : (y % 16 * 16 + x % 16) % 16 * 2 ≡ x % 16 * 2 = omega arith in
    let ey : (y % 16 * 16 + x % 16) / 16 % 16 * 2 ≡ y % 16 * 2 = omega arith in
    (
      rw ex (omega (arith, bit_or-shifted 5 (x / 16) (x % 16 * 2) (omega arith))),
      rw ey (omega (arith, bit_or-shifted 5 (y / 16) (y % 16 * 2) (omega arith))),
    )

-- The number of buttons that is kept is eight at most, and the rest of the word is as it was.
pub valid_ext_cap_buttons : (ec : ℕ) → cap_multi_button_no (valid_ext_cap ec) ≤ 8
unfolding valid_ext_cap cap_multi_button_no
valid_ext_cap_buttons ec = ground arith
