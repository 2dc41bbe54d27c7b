-- ===== src/Touchpad/Positions/Synaptics.antt =====
-- `Synaptics_report_absolute` of ApplePS2SmartTouchPad.cpp, up to the position that a packet of a
-- Synaptics touchpad tells; what follows is in the children.
pub mod Scroll
pub mod Placing
pub mod Events
pub mod Fields
pub mod Hangs
pub mod Bounds
use apple_ps2smart_touch_pad.Common.{
  ℕ, zero, suc, ◌+◌, ◌-◌, ◌*◌, ◌/◌, ◌%◌, ◌^◌, Bool, true, false, not, ◌||◌, ◌&&◌, List, Option,
  none, some, ◌==◌, if◌then◌else◌, ltb, leb, bit_or, bit_xor, has, ℤ, pos, negsuc, sub_ℕ,
}
use apple_ps2smart_touch_pad.Touchpad.Positions.{
  Hand, TouchMode, mode_idle, Touch, fingers_change, touch_end, byte, set_fingers,
}
use apple_ps2smart_touch_pad.Touchpad.Synaptics.{cap_multi_button_no}

-- The fingers, and the members of `_synTPad` that a packet reads or changes, with what
-- `StopPointerEnhanceTimer` resets.
pub record SynapticsReport : Type 0 where
  pub hand : Hand
  pub model_id : ℕ
  pub ext_cap : ℕ
  pub ext_cap_10 : ℕ
  pub ext_buttons : ℕ
  pub w : ℕ
  pub secondary_x : ℕ
  pub secondary_y : ℕ
  pub secondary_pressure : ℕ
  pub secondary_wait : Bool
  pub m_scroll : ℕ
  pub touch_ended : Bool
  pub p_dx : ℤ
  pub p_dy : ℤ
  pub p_continuous_move : Bool
  pub pointer_timer_is_set : Bool

-- `SYN_CAP_ADV_GESTURE` or `SYN_CAP_IMAGE_SENSOR`.
unfoldable pub tells_fingers : SynapticsReport → Bool
tells_fingers r = has r.hand.pad.syn_ext_cap_0c 0x080000 || has r.hand.pad.syn_ext_cap_0c 0x000800

-- The fields of the packets, of the new and of the old kind.
unfoldable pub new_w : List ℕ → ℕ
new_w packet =
    bit_or (bit_or (byte packet 0 / 16 % 4 * 4) (byte packet 0 / 4 % 2 * 2)) (byte packet 3 / 4 % 2)

unfoldable pub new_x : List ℕ → ℕ
new_x packet =
    bit_or (bit_or (byte packet 3 / 16 % 2 * 4096) (byte packet 1 % 16 * 256)) (byte packet 4)

unfoldable pub new_y : List ℕ → ℕ
new_y packet =
    bit_or (bit_or (byte packet 3 / 32 % 2 * 4096) (byte packet 1 / 16 % 16 * 256)) (byte packet 5)

unfoldable pub old_w : List ℕ → ℕ
old_w packet = bit_or (byte packet 1 / 128 % 2 * 8) (byte packet 0 / 4 % 2 * 2)

unfoldable pub old_x : List ℕ → ℕ
old_x packet = bit_or (byte packet 1 % 32 * 256) (byte packet 2)

unfoldable pub old_y : List ℕ → ℕ
old_y packet = bit_or (byte packet 4 % 32 * 256) (byte packet 5)

unfoldable pub old_pressure : List ℕ → ℕ
old_pressure packet = bit_or (byte packet 0 / 16 % 4 * 64) (byte packet 3 % 64)

unfoldable pub second_x : List ℕ → ℕ
second_x packet = bit_or (byte packet 4 % 16 * 256) (byte packet 1) * 2

unfoldable pub second_y : List ℕ → ℕ
second_y packet = bit_or (byte packet 4 / 16 % 16 * 256) (byte packet 2) * 2

unfoldable pub second_pressure : List ℕ → ℕ
second_pressure packet = bit_or (byte packet 3 / 16 % 4 * 16) (byte packet 5 % 16) * 2

-- A byte as an `SInt8`: one below 0 is no number of a finger.
unfoldable pub slot : ℕ → Option ℕ
slot b = if ltb b 128 then some b else none

-- `(signed char)` of a byte, stored as an `UInt32`.
unfoldable pub signed_word : ℕ → ℕ
signed_word b = if ltb b 128 then b else b + 2 ^ 32 - 256

-- A position, or the packet was dealt with.
pub data Decoded : Type 0 where
  position_at : ℤ → ℤ → ℕ → SynapticsReport → Decoded
  dealt_with : SynapticsReport → Decoded

unfoldable pub on_hand : (Hand → Hand) → SynapticsReport → SynapticsReport
on_hand f r = record r { hand = f r.hand }

unfoldable pub stop_enhancing : SynapticsReport → SynapticsReport
stop_enhancing r =
    if r.p_continuous_move
    then record r {
      p_dx = pos 0;
      p_dy = pos 0;
      p_continuous_move = false;
      pointer_timer_is_set = false;
    }
    else r

-- What `_fing` is not told yet: how many fingers there are.
unfoldable pub count_fingers : ℕ → SynapticsReport → SynapticsReport
unfolding on_hand set_fingers
count_fingers n r =
    on_hand (λ h. set_fingers n (record h { last_fingers = h.pad.gesture.fingers })) r

-- The buttons of a keyboard beside the touchpad, two in each step.
unfoldable pub ext_bits : ℕ → List ℕ → ℕ → ℕ
ext_bits zero packet s = s
ext_bits (suc k) packet s =
    let s1 = bit_or s (if has (byte packet 5) (2 ^ k) then 2 ^ (2 * k + 1) else 0) in
    ext_bits k packet (bit_or s1 (if has (byte packet 4) (2 ^ k) then 2 ^ (2 * k) else 0))

unfoldable pub find_ext_buttons : List ℕ → SynapticsReport → SynapticsReport
unfolding ext_bits cap_multi_button_no
find_ext_buttons packet r =
    let n = cap_multi_button_no r.ext_cap in
    if not (n == 0) && has (bit_xor (byte packet 0) (byte packet 3)) 0x02 && ltb n 10
    then record r { ext_buttons = ext_bits (n / 2) packet r.ext_buttons }
    else r

unfoldable pub find_middle_scroll : List ℕ → SynapticsReport → SynapticsReport
unfolding signed_word
find_middle_scroll packet r =
    if not r.hand.pad.is_click_pad && has r.hand.pad.syn_capabilities 0x040000 && r.w == 2
    then record r { m_scroll = signed_word (byte packet 1) }
    else r

abbrev is_idle : TouchMode → Bool
is_idle mode_idle = true
is_idle _ = false

module _ (gestures : Touch → SynapticsReport → SynapticsReport) where
  unfoldable pub change_count : ℕ → SynapticsReport → SynapticsReport
  unfolding count_fingers
  change_count n r =
      if r.hand.pad.gesture.fingers == n then r else gestures fingers_change (count_fingers n r)

  -- A packet of the extended W mode.
  unfoldable pub extended_packet : List ℕ → SynapticsReport → SynapticsReport
  unfolding second_x second_y second_pressure slot on_hand stop_enhancing change_count
  extended_packet packet r =
      let kind = byte packet 5 / 16 % 4 in
      let none_yet = record r { secondary_x = 0; secondary_y = 0; secondary_pressure = 0 } in
      if kind == 1
      then (if ltb (second_x packet) 736 && ltb 0 (second_pressure packet)
          then stop_enhancing none_yet
          else record r {
            secondary_x = second_x packet;
            secondary_y = (r.hand.pad.ymax + r.hand.pad.ymin + 2 ^ 32 - second_y packet) % 2 ^ 32;
            secondary_pressure = second_pressure packet;
            secondary_wait = true;
          })
      else if kind == 2
      then change_count (byte packet 1) (
          on_hand (λ h. record h { pid = slot (byte packet 2); sid = slot (byte packet 4) })
            none_yet)
      else none_yet

  -- A packet with a wrong position at the end of a touch.
  unfoldable pub ignore_packet : SynapticsReport → SynapticsReport
  unfolding stop_enhancing
  ignore_packet r =
      let r1 = stop_enhancing r in
      record (if is_idle r1.hand.touch_mode then r1 else gestures touch_end r1) {
        touch_ended = true;
      }

  unfoldable pub decode_new : List ℕ → SynapticsReport → Decoded
  unfolding new_w new_x new_y tells_fingers extended_packet ignore_packet find_middle_scroll
      find_ext_buttons
  decode_new packet r =
      let r1 = record r { w = new_w packet } in
      if tells_fingers r1 && r1.w == 2
      then dealt_with (extended_packet packet r1)
      else if ltb (new_x packet) 736 && ltb 0 (byte packet 2)
      then dealt_with (ignore_packet r1)
      else position_at (pos (new_x packet))
          (sub_ℕ (r.hand.pad.ymax + r.hand.pad.ymin) (new_y packet)) (byte packet 2)
          (find_ext_buttons packet (find_middle_scroll packet r1))

  unfoldable pub decode_old : List ℕ → SynapticsReport → Decoded
  unfolding old_w old_x old_y old_pressure ignore_packet
  decode_old packet r =
      let r1 = record r { w = old_w packet } in
      if ltb (old_x packet) 1472 && ltb 0 (old_pressure packet)
      then dealt_with (ignore_packet r1)
      else position_at (pos (old_x packet))
          (sub_ℕ (r.hand.pad.ymax + r.hand.pad.ymin) (old_y packet)) (old_pressure packet) r1

  -- `SYN_MODEL_NEWABS` tells the kind of packets.
  unfoldable pub decode_packet : List ℕ → SynapticsReport → Decoded
  unfolding decode_new decode_old
  decode_packet packet r = if has r.model_id 0x80 then decode_new packet r else decode_old packet r

-- Positions that wrap around are negative; the largest one is the edge.
unfoldable pub unwrapped : ℤ → ℤ
unwrapped (pos n) = if ltb 8176 n then sub_ℕ n 8192 else if n == 8176 then pos 6143 else pos n
unwrapped (negsuc n) = negsuc n

-- A coordinate as it is stored, in an `UInt16`.
unfoldable pub stored : ℤ → ℕ
stored (pos n) = n % 2 ^ 16
stored (negsuc n) = (2 ^ 16 - 1 - n % 2 ^ 16) % 2 ^ 16
