-- ===== src/Touchpad/Positions/Synaptics/Bounds.antt =====
-- The numbers of fingers that a Synaptics touchpad tells by itself.
use apple_ps2smart_touch_pad.Common.{
  ℕ, ◌+◌, ◌/◌, ◌%◌, ◌<◌, true, false, List, some, ◌==◌, ◌≡◌, refl, arith, ltb, leb, ℤ, length,
  if◌then◌else◌, if_holds,
}
use apple_ps2smart_touch_pad.Touchpad.Positions.{Hand, Touch, byte}
use apple_ps2smart_touch_pad.Touchpad.Positions.ElanV4.Numbers.{update-memory_faults}
use apple_ps2smart_touch_pad.Touchpad.Positions.Synaptics.{
  SynapticsReport, stored, slot, on_hand, change_count, extended_packet,
}
use apple_ps2smart_touch_pad.Touchpad.Positions.Synaptics.Placing.{fingers, place, place_primary}

primary-memory_faults :
    (i : ℕ) (x y : ℤ) (pressure : ℕ) (h : Hand)
    → (place_primary x y pressure (record h { pid = some i })).memory_faults
      ≡ h.memory_faults + (if ltb i (length h.fing) then 0 else 1)
unfolding place_primary
primary-memory_faults i x y pressure h =
    let h1 = record h { pid = some i } in
    if_holds
      (λ (s : Hand). s.memory_faults ≡ h.memory_faults + (if ltb i (length h.fing) then 0 else 1))
      (ltb 0 pressure) _ _ (update-memory_faults i (place (stored x) (stored y) pressure h1) h1)
      (update-memory_faults i (λ f. record f { pressure = 0 }) h1)

state_packet :
    (gestures : Touch → SynapticsReport → SynapticsReport) (packet : List ℕ) (r : SynapticsReport)
    → byte packet 5 / 16 % 4 ≡ 2
    → fingers r ≡ byte packet 1
    → byte packet 2 < 128
    → (extended_packet gestures packet r).hand
      ≡ record r.hand { pid = some (byte packet 2); sid = slot (byte packet 4) }
unfolding extended_packet change_count on_hand slot
state_packet gestures packet r k n b =
    let second : (byte packet 5 / 16 % 4 == 1) ≡ false = ground arith in
    let state : (byte packet 5 / 16 % 4 == 2) ≡ true = ground arith in
    let same : (fingers r == byte packet 1) ≡ true = ground arith in
    let number : ltb (byte packet 2) 128 ≡ true = ground arith in
    rw (second, state, same, number) refl

-- There are six fingers. A packet of the fingers' state that keeps their count names the primary finger
-- by a byte, here one below 128, which is no negative number: the position that is stored for it next,
-- whatever it is, goes outside of the fingers exactly if the byte is six or more.
pub finger_state-memory_faults :
    (gestures : Touch → SynapticsReport → SynapticsReport) (packet : List ℕ) (x y : ℤ)
    (pressure : ℕ) (r : SynapticsReport)
    → length r.hand.fing ≡ 6
    → byte packet 5 / 16 % 4 ≡ 2
    → fingers r ≡ byte packet 1
    → byte packet 2 < 128
    → (place_primary x y pressure (extended_packet gestures packet r).hand).memory_faults
      ≡ r.hand.memory_faults + (if leb 6 (byte packet 2) then 1 else 0)
finger_state-memory_faults gestures packet x y pressure r six k n b =
    rw (state_packet gestures packet r k n b) (
      ground (
        arith,
        primary-memory_faults (byte packet 2) x y pressure
            (record r.hand { sid = slot (byte packet 4) }),
      ))
