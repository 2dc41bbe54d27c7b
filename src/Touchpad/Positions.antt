-- ===== src/Touchpad/Positions.antt =====
-- ApplePS2SmartTouchPad.cpp, `Process_absolute_events_ELANv2v3` and `Process_ELANv2v3_Checks`: how a
-- packet of ELAN hardware of version 2 or 3 becomes the positions of fingers.
--
-- What is done with the positions (the `Process_` methods of gestures and buttons) is a parameter that
-- may change all of the state. Coordinates are `UInt16`, pressures and widths `UInt8`, sums of
-- movements integers. Logs are left out.
pub mod ElanV2v3
pub mod ElanV4
pub mod Synaptics
pub mod Fields
pub mod Tracking
pub mod Changes
use apple_ps2smart_touch_pad.Common.{
  ℕ, zero, suc, ◌+◌, ◌-◌, ◌*◌, ◌/◌, ◌%◌, ◌^◌, Bool, true, false, not, ◌||◌, ◌&&◌, List, [], ◌∷◌,
  Option, none, some, ◌==◌, if◌then◌else◌, ltb, leb, bit_or, has, ℤ, pos, negsuc, sub_ℕ, get_or,
  set, length,
}
use apple_ps2smart_touch_pad.Touchpad.{Touchpad, Gesture}

-- `FingerDataStruct`.
pub record Finger : Type 0 where
  pub x : ℕ
  pub y : ℕ
  pub last_x : ℕ
  pub last_y : ℕ
  pub start_x : ℕ
  pub start_y : ℕ
  pub tdx : ℤ
  pub tdy : ℤ
  pub pressure : ℕ
  pub width : ℕ

abbrev pub no_finger : Finger
no_finger = record {
  x = 0;
  y = 0;
  last_x = 0;
  last_y = 0;
  start_x = 0;
  start_y = 0;
  tdx = pos 0;
  tdy = pos 0;
  pressure = 0;
  width = 0;
}

-- The modes that are set or told apart here; `mode_other` is any other.
pub data TouchMode : Type 0 where
  mode_idle mode_1_fing_tap mode_palm mode_buttons mode_other : TouchMode
  mode_2_fing_tap mode_3_fing_tap mode_4_fing_tap mode_5_fing_tap : TouchMode
  mode_vscroll mode_hscroll mode_edge_vscroll mode_edge_hscroll mode_cont_scroll : TouchMode

-- `_palm`.
pub record Palm : Type 0 where
  pub detected : Bool
  pub detection_enabled : Bool
  pub min_width : ℕ
  pub min_pressure : ℕ

-- What the decoding of packets works on. A finger of no number is a negative `_pid` or `_sid`;
-- `memory_faults` counts the accesses outside of `_fing`, which change nothing here.
pub record Hand : Type 0 where
  pub pad : Touchpad
  pub fing : List Finger
  pub pid : Option ℕ
  pub sid : Option ℕ
  pub last_fingers : ℕ
  pub gesture_time : ℕ
  pub last_data_time : ℕ
  pub touch_mode : TouchMode
  pub palm : Palm
  pub show_press_width : Bool
  pub disable_clicks : Bool
  pub disable_track_point : Bool
  pub is_dragging : Bool
  pub is_edge_gesture : Bool
  pub swipe_direction : ℕ
  pub click_timeout : ℕ
  -- `_button`: the area of the virtual buttons of a click pad, and what was pressed.
  pub click_pad_v_btn_area : ℕ
  pub is_fing_on_btn_area : Bool
  pub triggered : Bool
  pub button_state : ℕ
  pub is_hold_drag : Bool
  pub is_3f_drag : Bool
  pub hold_time : ℕ
  -- The buttons that were reported, oldest first.
  pub clicks : List ℕ
  pub memory_faults : ℕ

-- The calls of the methods for gestures and buttons.
pub data Touch : Type 0 where
  fingers_change touch_end two_finger_edge_swipe : Touch
  physical_buttons : List ℕ → Touch
  trackpoint : ℕ → List ℕ → Touch
  single_finger_touch : ℕ → ℕ → Option ℕ → Touch
  multi_fingers_touch : ℤ → ℤ → Option ℕ → Touch
  two_fingers_touch : ℕ → ℕ → ℕ → ℕ → Touch
  click_pad_virtual_buttons : List ℕ → ℕ → Option ℕ → ℕ → Touch
  click_pad_2f : List ℕ → ℕ → ℤ → ℤ → ℤ → ℤ → Touch

abbrev pub byte : List ℕ → ℕ → ℕ
byte packet i = get_or packet i 0

-- A position of twelve digits: four in one byte, eight in the next.
unfoldable pub position : ℕ → ℕ → ℕ
position high low = bit_or (high % 16 * 256) low

-- A position of nine digits, in units of four: one as a flag, eight in a byte.
unfoldable pub coarse_position : Bool → ℕ → ℕ
coarse_position high low = bit_or (if high then 256 else 0) low * 4

-- `_ymax - y` as a `UInt16`.
unfoldable pub from_top : ℕ → ℕ → ℕ
from_top ymax y = (ymax + 2 ^ 16 - y % 2 ^ 16) % 2 ^ 16

unfoldable pub packet_pressure : List ℕ → ℕ
packet_pressure packet = bit_or (byte packet 1 / 16 % 16 * 16) (byte packet 4 / 16 % 16)

unfoldable pub packet_width : List ℕ → ℕ
packet_width packet = bit_or (byte packet 0 / 16 % 4 * 4) (byte packet 3 / 16 % 4)

unfoldable pub packet_fingers : List ℕ → ℕ
packet_fingers packet = byte packet 0 / 64 % 4

-- `a + (x - last)` over the integers.
unfoldable pub plus_difference : ℤ → ℕ → ℕ → ℤ
plus_difference (pos a) x last = sub_ℕ (a + x) last
plus_difference (negsuc a) x last = sub_ℕ x (last + a + 1)

-- The start and the last position are where the finger is.
unfoldable pub restarted : Finger → Finger
restarted f = record f { start_x = f.x; start_y = f.y; last_x = f.x; last_y = f.y }

unfoldable pub stopped : Finger → Finger
stopped f = record f { last_x = f.x; last_y = f.y }

-- The sums of movements go on by the movement since the last position.
unfoldable pub followed : Finger → Finger
unfolding plus_difference
followed f = record f {
  tdx = plus_difference f.tdx f.x f.last_x;
  tdy = plus_difference f.tdy f.y f.last_y;
}

unfoldable pub placed_at : ℕ → ℕ → Finger → Finger
placed_at x y f = record f { x = x; y = y }

-- A change of `_fing[i]`.
unfoldable pub update : Option ℕ → (Finger → Finger) → Hand → Hand
update none change h = record h { memory_faults = h.memory_faults + 1 }
update (some i) change h =
    if ltb i (length h.fing)
    then record h { fing = set h.fing i (change (get_or h.fing i no_finger)) }
    else record h { memory_faults = h.memory_faults + 1 }

abbrev pub finger : ℕ → Hand → Finger
finger i h = get_or h.fing i no_finger

abbrev pub finger_of : Option ℕ → Hand → Finger
finger_of none h = no_finger
finger_of (some i) h = finger i h

unfoldable pub set_fingers : ℕ → Hand → Hand
set_fingers n h = record h { pad = record h.pad { gesture = record h.pad.gesture { fingers = n } } }

unfoldable pub set_touch_mode : TouchMode → Hand → Hand
set_touch_mode m h = record h { touch_mode = m }

-- The same movement of fewer than 2^15 steps added to a `UInt16` and to an integer.
unfoldable pub add_to_coordinate : ℕ → ℤ → ℕ
add_to_coordinate x (pos d) = (x + d) % 2 ^ 16
add_to_coordinate x (negsuc d) = (x + 2 ^ 16 - (d + 1) % 2 ^ 16) % 2 ^ 16

infixl 65 ◌+ℤ◌
unfoldable pub ◌+ℤ◌ : ℤ → ℤ → ℤ
pos a +ℤ pos b = pos (a + b)
pos a +ℤ negsuc b = sub_ℕ a (b + 1)
negsuc a +ℤ pos b = sub_ℕ b (a + 1)
negsuc a +ℤ negsuc b = negsuc (a + b + 1)

unfoldable pub moved_by : ℤ → ℤ → Finger → Finger
unfolding add_to_coordinate ◌+ℤ◌
moved_by dx dy f = record f {
  x = add_to_coordinate f.x dx;
  y = add_to_coordinate f.y dy;
  tdx = f.tdx +ℤ dx;
  tdy = f.tdy +ℤ dy;
}
