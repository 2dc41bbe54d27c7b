-- ===== src/Touchpad/Positions/ElanV4.antt =====
-- `Process_absolute_events_ELANv4AndFocalTech` of ApplePS2SmartTouchPad.cpp.
pub mod Events
pub mod Numbers
use apple_ps2smart_touch_pad.Common.{
  ℕ, zero, suc, ◌+◌, ◌-◌, ◌*◌, ◌/◌, ◌%◌, ◌^◌, Bool, true, false, not, ◌||◌, ◌&&◌, List, [], ◌∷◌,
  ◌++◌, Option, none, some, ◌==◌, if◌then◌else◌, ltb, leb, has, ℤ, pos, negsuc, sub_ℕ,
}
use apple_ps2smart_touch_pad.Keyboard.Combinations.{case_of}
use apple_ps2smart_touch_pad.Touchpad.{Touchpad, Vendor, std_focal_tech}
use apple_ps2smart_touch_pad.Touchpad.Packets.Signatures.{
  packet_status, packet_absolute, packet_relative,
}
use apple_ps2smart_touch_pad.Touchpad.Positions.{
  Finger, Hand, Palm, TouchMode, mode_palm, mode_buttons, Touch, fingers_change, touch_end,
  two_finger_edge_swipe, physical_buttons, single_finger_touch, multi_fingers_touch,
  two_fingers_touch, click_pad_virtual_buttons, click_pad_2f, byte, position, from_top,
  packet_pressure, restarted, stopped, placed_at, update, finger, finger_of, set_fingers,
  set_touch_mode, ◌+ℤ◌, moved_by,
}
use apple_ps2smart_touch_pad.Touchpad.Positions.ElanV2v3.{
  set_pressure, typing_mode, start_or_follow, take_time, count_packet,
}

-- `ETD_WEIGHT_VALUE`.
abbrev etd_weight_value : ℕ
etd_weight_value = 5

abbrev is_focal_tech : Vendor → Bool
is_focal_tech std_focal_tech = true
is_focal_tech _ = false

abbrev pub focal_tech : Hand → Bool
focal_tech h = is_focal_tech h.pad.vendor

-- A number of a finger, from 1; 0 is none.
unfoldable pub finger_id : ℕ → Option ℕ
finger_id zero = none
finger_id (suc i) = some i

abbrev pub is_some : Option ℕ → Bool
is_some none = false
is_some (some i) = true

-- A byte as an `SInt8`, and an integer times a weight or with the other sign.
unfoldable pub signed : ℕ → ℤ
signed b = sub_ℕ b (if leb 128 b then 256 else 0)

unfoldable pub times : ℕ → ℤ → ℤ
times w (pos a) = pos (w * a)
times w (negsuc a) = sub_ℕ 0 (w * (a + 1))

unfoldable pub minus : ℤ → ℤ
minus (pos a) = sub_ℕ 0 a
minus (negsuc a) = pos (a + 1)

unfoldable pub is_palm_v4 : Hand → Bool
is_palm_v4 h =
    let f = finger 0 h in
    let n = h.pad.gesture.fingers in
    h.palm.detection_enabled
    && ((n == 2 && leb h.last_fingers 2 && ltb h.palm.min_width f.width)
        || (n == 1 && leb h.last_fingers 1 && ltb h.palm.min_pressure f.pressure)
        || h.palm.detected)

-- The width and the pressure of one finger in a packet of version 4.
unfoldable pub head_pressure : List ℕ → Finger → Finger
unfolding packet_pressure
head_pressure packet = set_pressure (packet_pressure packet) (byte packet 0 / 16 % 16)

-- The number of fingers that a mask of fingers, or a mask between two numbers, stands for.
unfoldable pub fingers_of_mask : ℕ → Option ℕ
unfolding case_of
fingers_of_mask mask =
    case_of mask
      ((0x00, some 0)
        ∷ (0x02, some 1)
        ∷ (0x01, some 1)
        ∷ (0x03, some 2)
        ∷ (0x05, some 2)
        ∷ (0x0d, some 2)
        ∷ (0x07, some 3)
        ∷ (0x0b, some 3)
        ∷ (0x11, some 3)
        ∷ (0x0f, some 4)
        ∷ (0x17, some 4)
        ∷ (0x1f, some 5)
        ∷ [])
      none

-- A tap of one finger while two move.
unfoldable pub tap_in_move : Hand → Hand
tap_in_move h =
    if h.last_fingers == 2 && ltb h.gesture_time h.click_timeout && h.is_fing_on_btn_area
    then record h {
      clicks = h.clicks ++ 1 ∷ 0 ∷ [];
      button_state = 0;
      pad = record h.pad { gesture = record h.pad.gesture { button_data = 0 } };
    }
    else h

-- The finger that an absolute packet is about.
unfoldable pub packet_finger : List ℕ → Hand → Option ℕ
unfolding finger_id
packet_finger packet h = finger_id (if focal_tech h then byte packet 1 / 16 else byte packet 3 / 32)

-- What an absolute packet tells of its finger.
unfoldable pub read_finger : List ℕ → Hand → Finger → Finger
unfolding position from_top placed_at head_pressure
read_finger packet h f =
    let x = position (byte packet 1) (byte packet 2) in
    if focal_tech h
    then set_pressure 128 (byte packet 5 / 16)
        (placed_at x (from_top h.pad.ymax (position (byte packet 3) (byte packet 4))) f)
    else placed_at x (from_top h.pad.ymax (position (byte packet 4) (byte packet 5)))
        (head_pressure packet f)

abbrev is_new : Finger → Bool
is_new f = f.start_x == 0 && f.start_y == 0

-- A new finger is the primary one, or else the secondary one.
unfoldable pub take_number : ℕ → Hand → Hand
take_number fid h =
    if not (is_some h.pid)
    then record h { pid = some fid }
    else if not (is_some h.sid)
    then record h { sid = some fid }
    else h

-- The first packet of a finger.
unfoldable pub begin_finger : ℕ → Hand → Hand
unfolding update start_or_follow take_number
begin_finger fid h =
    let f = finger fid h in
    if h.pad.gesture.packets_count == 0 || is_new f
    then (let h1 = take_number fid h in
        let kept = ltb 0 h.swipe_direction || (h.last_fingers == 1 && h.pad.gesture.fingers == 2) in
        if is_new f || not kept then update (some fid) start_or_follow h1 else h1)
    else h

-- A button of a click pad that is held drags.
unfoldable pub click_drag : Hand → Hand
click_drag h =
    if h.triggered && not h.is_fing_on_btn_area
    then record h { is_hold_drag = true; is_dragging = true; hold_time = 2000000001 }
    else h

-- The area of the virtual buttons is at the bottom; the difference is one of `int`.
unfoldable pub find_button_area : ℕ → Hand → Hand
find_button_area fid h = record h {
  is_fing_on_btn_area = ltb h.pad.ymax ((finger fid h).y + h.click_pad_v_btn_area);
}

unfoldable pub weight : List ℕ → Hand → ℕ
weight packet h = if not (focal_tech h) && has (byte packet 0) 0x10 then etd_weight_value else 1

unfoldable pub relative_id : ℕ → Hand → Option ℕ
unfolding finger_id
relative_id b h = finger_id (if focal_tech h then b / 16 % 8 else b / 32 % 8)

abbrev pub same_finger : Option ℕ → Option ℕ → Bool
same_finger (some i) (some j) = i == j
same_finger _ _ = false

-- A finger of no number is not moved.
unfoldable pub move_finger : Option ℕ → ℤ → ℤ → Hand → Hand
unfolding update moved_by
move_finger none dx dy h = h
move_finger (some i) dx dy h = update (some i) (moved_by dx dy) h

-- The start is where the finger is.
unfoldable pub set_start : Finger → Finger
set_start f = record f { start_x = f.x; start_y = f.y }
