-- ===== src/Tests/Gestures.antt =====
-- The touchpad driver: a Synaptics touchpad, the notifications and timers, positions of fingers.
use apple_ps2smart_touch_pad.Common.{
  ℕ, true, false, none, some, List, [], ◌∷◌, ◌++◌, ◌≡◌, refl, arith, ℤ, pos, negsuc, sub_ℕ, ◌/◌,
  ◌+◌, ◌*◌, Bool, has, Holds, inr,
}
use apple_ps2smart_touch_pad.Controller.Port.{
  output_ready, input_busy, stream_of, read_data, wait_input, write_data_port, write_command_port,
  interrupt_installed, dispatch_driver_interrupt,
}
use apple_ps2smart_touch_pad.Controller.Read.{
  dequeue_keyboard_data, queued_key, read_wait, read_data_port, matched, mismatched, own_byte,
  timed_out, dispatch_all, expect_wait, expect_keys, read_data_port_expecting,
}
use apple_ps2smart_touch_pad.Controller.Request.Commands.{run_command, run_commands, mouse_route}
use apple_ps2smart_touch_pad.Controller.Request.{
  complete, process_request, process_all, process_request_queue, submit_request_and_block,
}
use apple_ps2smart_touch_pad.Interface.{
  sliced_bytes, send_sliced_ps2_cmd, send_ps2_cmd, get_mouse_information, send_synaptics_cmd,
}
use apple_ps2smart_touch_pad.Interface.Device.{Host, submit, free_request, fill}
use apple_ps2smart_touch_pad.Touchpad.Elan.Access.{any_fails}
use apple_ps2smart_touch_pad.Touchpad.Connect.{
  synaptics_mode_cmd, synaptics_set_advanced_gesture_mode, synaptics_mode,
  synaptics_set_absolute_mode,
}
use apple_ps2smart_touch_pad.Touchpad.Synaptics.{
  Synaptics, synaptics_setup_touchpad, query, steps, word, identify, find_model, find_firmware,
  find_board, find_capabilities, find_ext_cap, find_ext_cap_0c, find_resolution, find_max, find_min,
  go_absolute, find_pass_through, find_click_pad, tells_coordinates, set_capabilities, id_major,
  id_minor, id_full, id_is_synaptics, cap_submodel_id, ext_cap_requests,
}
use apple_ps2smart_touch_pad.Touchpad.Synaptics.Setup.{IsSetUp, synaptics_setup_touchpad-IsSetUp}
use apple_ps2smart_touch_pad.Touchpad.Features.{Floats, Features}
use apple_ps2smart_touch_pad.Touchpad.Notified.Direction.{Signs, IsTurned}
use apple_ps2smart_touch_pad.Touchpad.Timers.Happenings.{
  Happening, notice, feature_timer, button_drag_timer, happen_all,
}
use apple_ps2smart_touch_pad.Touchpad.Timers.Turned.{happen_all-IsTurned}
use apple_ps2smart_touch_pad.Touchpad.Timers.Reported.{IsReported, buttons_from}
use apple_ps2smart_touch_pad.Touchpad.Timers.Kept.{IsKept}
use apple_ps2smart_touch_pad.Touchpad.Timers.Buttons.{happen_all-IsReported}
use apple_ps2smart_touch_pad.Touchpad.Positions.{
  Hand, no_finger, mode_idle, packet_fingers, packet_width, packet_pressure, position, byte, update,
}
use apple_ps2smart_touch_pad.Touchpad.Positions.Fields.{packet_of, packet_of-fields}
use apple_ps2smart_touch_pad.Touchpad.Positions.ElanV4.{packet_finger, finger_id, read_finger}
use apple_ps2smart_touch_pad.Touchpad.Positions.ElanV4.Numbers.{read_finger-memory_faults}
use apple_ps2smart_touch_pad.Touchpad.Buttons.{
  Buttons, process_physical_buttons, process_all_buttons,
}
use apple_ps2smart_touch_pad.Touchpad.Buttons.Released.{
  IsHeld, IsReleased, reported, process_all_buttons-release,
}
use apple_ps2smart_touch_pad.Tests.Inputs.{controller, host_of, commands, acks}
use apple_ps2smart_touch_pad.Tests.Pads.{synaptics_answer, synaptics_statuses, mute, pad}

-- A touchpad of version 8 with extended capabilities and no others: six queries, and the mode.
abbrev version_8 : Host
version_8 = host_of (
    controller
      (synaptics_statuses
        ++ synaptics_statuses
        ++ synaptics_statuses
        ++ synaptics_statuses
        ++ synaptics_statuses
        ++ synaptics_statuses
        ++ commands 11)
      (synaptics_answer 0x01 0x47 0x18
        ++ synaptics_answer 0x01 0xa0 0xb1
        ++ synaptics_answer 0x10 0x20 0x30
        ++ synaptics_answer 0x04 0x05 0x06
        ++ synaptics_answer 0x80 0x00 0x00
        ++ synaptics_answer 0x50 0x80 0x40
        ++ acks 11))

abbrev synaptics : Synaptics
synaptics = record {
  pad = pad version_8 0;
  identity = 0;
  model_id = 0;
  firmware_id = 0;
  board_id = 0;
  ext_cap = 0;
  ext_cap_10 = 0;
  x_res = 0;
  y_res = 0;
}

synaptics_setup_touchpad-IsSetUp_example : IsSetUp (synaptics_setup_touchpad synaptics).1
unfolding run_commands run_command mouse_route read_data_port read_data_port_expecting queued_key
    dequeue_keyboard_data read_wait expect_keys expect_wait own_byte matched mismatched timed_out
    dispatch_all dispatch_driver_interrupt interrupt_installed read_data output_ready stream_of
    input_busy wait_input has write_data_port write_command_port process_request
    process_request_queue process_all submit_request_and_block submit free_request complete fill
    any_fails send_sliced_ps2_cmd sliced_bytes send_ps2_cmd get_mouse_information send_synaptics_cmd
    synaptics_mode_cmd synaptics_set_advanced_gesture_mode synaptics_mode
    synaptics_set_absolute_mode synaptics_setup_touchpad query steps word identify find_model
    find_firmware find_board find_capabilities find_ext_cap find_ext_cap_0c find_resolution find_max
    find_min go_absolute find_pass_through find_click_pad tells_coordinates set_capabilities
    id_major id_minor id_full id_is_synaptics cap_submodel_id ext_cap_requests
synaptics_setup_touchpad-IsSetUp_example = synaptics_setup_touchpad-IsSetUp synaptics refl

-- Scroll factors that are integers.
abbrev opposite : ℤ → ℤ
opposite (pos n) = sub_ℕ 0 n
opposite (negsuc n) = pos (n + 1)

abbrev doubled : ℤ → ℤ
doubled (pos n) = pos (n * 2)
doubled (negsuc n) = sub_ℕ 0 ((n + 1) * 2)

abbrev halved : ℤ → ℤ
halved (pos n) = pos (n / 2)
halved (negsuc n) = sub_ℕ 0 ((n + 1) / 2)

abbrev below_zero : ℤ → Bool
below_zero (pos n) = false
below_zero (negsuc n) = true

abbrev pub integers : Floats ℤ
integers = record { minus = opposite; twice = doubled; half = halved; is_negative = below_zero }

opposite_twice : (x : ℤ) → below_zero (opposite (opposite x)) ≡ below_zero x
opposite_twice x = ground arith

doubled_sign : (x : ℤ) → below_zero x ≡ false → below_zero (doubled x) ≡ false
doubled_sign x e = ground arith

twice_keeps : (x : ℤ) → below_zero (opposite x) ≡ false → below_zero (opposite (doubled x)) ≡ false
twice_keeps x e = ground arith

halved_sign : (x : ℤ) → below_zero x ≡ false → below_zero (halved x) ≡ false
halved_sign x e = ground arith

half_keeps : (x : ℤ) → below_zero (opposite x) ≡ false → below_zero (opposite (halved x)) ≡ false
half_keeps x e = ground arith

signs : Signs ℤ integers
signs = record {
  minus_twice = opposite_twice;
  twice_sign = doubled_sign;
  twice_minus = twice_keeps;
  half_sign = halved_sign;
  half_minus = half_keeps;
}

abbrev pub features : Features ℤ
features = record {
  pad = pad mute 0;
  toggles = record {
    has_edge_auto = false;
    has_2f_auto = true;
    has_edge_inertia = false;
    has_2f_inertia = false;
    has_edge_cont = false;
    has_2f_cont = false;
    has_edge_scroll = true;
    has_edge_c_scroll = false;
    has_edge_swipes = true;
    has_3f_swipes = true;
    has_4f_swipes = true;
    rotate_enabled = true;
    zoom_enabled = true;
    has_mul_f_double_taps = false;
    click_pad_has_v_buttons = false;
  };
  drag = record {
    is_dragging = true;
    is_quick_tap = false;
    check_tap_drag = false;
    is_hold_drag = false;
    is_tap_drag = true;
    is_3f_drag = false;
  };
  scroll_factor = pos 5;
  do_auto = false;
  accel_mode_2f = 0;
  accel_mode_edge = 4;
  p_accel_custom = 0;
  is_ctrl_scroll_swipe = false;
  is_in_full_screen = false;
  is_app_switch_done = false;
  is_nc_done = false;
  reset_pointer_on_edge = true;
  last_swipe_time = 0;
  tap_zoom_done = false;
  is_tap_swap_enabled = false;
  is_drag_lock_enabled = false;
  do_timer_job = true;
  tap_count = 1;
  fingers_count = 2;
  hold_time = 0;
  button_state = 0;
  is_toggle_key_on_hold = false;
  alt_function = false;
  show_press_width = false;
  acc_input_keys_count = 3;
  is_kb_light_off = false;
  kb_light_auto_off_timeout = 10000;
  last_kb_light_trigger_time = 0;
  osx_version = 12;
  outputs = [];
}

-- The guard on typing is enabled.
abbrev pub typing : Features ℤ
typing = record features {
  pad = record features.pad {
    surroundings = record features.pad.surroundings { is_type_mode_enabled = true };
  };
}

-- Shift, a tap of two fingers, the cut of scroll speed, Escape, and the end of a drag.
abbrev an_evening : List Happening
an_evening =
    notice 1 0 ∷ feature_timer ∷ notice 2 61 ∷ notice 3 57 ∷ button_drag_timer ∷ notice 4 39 ∷ []

happen_all-IsTurned_example : Holds (IsTurned integers) (happen_all integers 3 an_evening features)
unfolding IsTurned
happen_all-IsTurned_example = happen_all-IsTurned integers signs 3 an_evening features refl

happen_all-IsReported_example :
    Holds (λ q. IsReported q × IsKept 0 q) (happen_all integers 3 an_evening features)
unfolding IsReported buttons_from
happen_all-IsReported_example = happen_all-IsReported integers 3 an_evening features refl

packet_of-fields_example :
    (packet_fingers (packet_of 1 5 80 1000 2000) ≡ 1)
    × (packet_width (packet_of 1 5 80 1000 2000) ≡ 5)
    × (packet_pressure (packet_of 1 5 80 1000 2000) ≡ 80)
    × (position (byte (packet_of 1 5 80 1000 2000) 1) (byte (packet_of 1 5 80 1000 2000) 2) ≡ 1000)
    × (position (byte (packet_of 1 5 80 1000 2000) 4) (byte (packet_of 1 5 80 1000 2000) 5) ≡ 2000)
packet_of-fields_example =
    packet_of-fields 1 5 80 1000 2000 (omega arith) (omega arith) (omega arith) (omega arith)
      (omega arith)

abbrev pub hand : Hand
hand = record {
  pad = pad mute 0x461f00;
  fing = no_finger ∷ no_finger ∷ no_finger ∷ no_finger ∷ no_finger ∷ no_finger ∷ [];
  pid = none;
  sid = none;
  last_fingers = 0;
  gesture_time = 0;
  last_data_time = 0;
  touch_mode = mode_idle;
  palm = record { detected = false; detection_enabled = false; min_width = 0; min_pressure = 0 };
  show_press_width = false;
  disable_clicks = false;
  disable_track_point = false;
  is_dragging = false;
  is_edge_gesture = false;
  swipe_direction = 0;
  click_timeout = 0;
  click_pad_v_btn_area = 0;
  is_fing_on_btn_area = false;
  triggered = false;
  button_state = 0;
  is_hold_drag = false;
  is_3f_drag = false;
  hold_time = 0;
  clicks = [];
  memory_faults = 0;
}

-- The seventh finger.
abbrev seventh : List ℕ
seventh = 0x04 ∷ 0x00 ∷ 0x10 ∷ 0xf1 ∷ 0x00 ∷ 0x20 ∷ []

read_finger-memory_faults_example :
    (update (some 6) (read_finger seventh hand) hand).memory_faults ≡ 1
unfolding packet_finger finger_id
read_finger-memory_faults_example = read_finger-memory_faults seventh 6 hand refl refl

abbrev buttons : Buttons ℤ
buttons = record {
  features = features;
  disable_clicks = false;
  enable_middle = true;
  right_click = false;
  triggered = false;
  touch_mode = mode_idle;
  ext_cap_10 = 0x010000;
  p_dx = pos 0;
  p_dy = pos 0;
  p_continuous_move = true;
  pointer_timer_is_set = true;
}

buttons-IsHeld : IsHeld buttons
unfolding IsHeld reported buttons_from
buttons-IsHeld = (refl, λ _. refl, inr refl)

-- The left button, both, then the right one.
abbrev presses : List (List ℕ)
presses =
    (1 ∷ 0 ∷ 0 ∷ 0 ∷ 0 ∷ 0 ∷ []) ∷ (3 ∷ 0 ∷ 0 ∷ 0 ∷ 0 ∷ 0 ∷ []) ∷ (2 ∷ 0 ∷ 0 ∷ 0 ∷ 0 ∷ 0 ∷ []) ∷ []

process_all_buttons-release_example :
    IsReleased
      (process_physical_buttons (4 ∷ 8 ∷ 0 ∷ 0 ∷ 0 ∷ 0 ∷ []) (process_all_buttons presses buttons))
process_all_buttons-release_example =
    process_all_buttons-release presses (4 ∷ 8 ∷ 0 ∷ 0 ∷ 0 ∷ 0 ∷ []) buttons buttons-IsHeld refl
      refl
