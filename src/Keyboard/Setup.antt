-- ===== src/Keyboard/Setup.antt =====
-- How ApplePS2Keyboard.cpp starts: `init`, `deviceType`.
use apple_ps2smart_touch_pad.Common.{
  ℕ, ◌%◌, ◌^◌, true, false, not, List, [], ◌∷◌, Option, none, some, if◌then◌else◌, ltb, replicate,
  set,
}
use apple_ps2smart_touch_pad.Keyboard.State.{Keyboard, World, Options, FnKeys, Typing}
use apple_ps2smart_touch_pad.Keyboard.Maps.{ps2_to_adb_map, extended_ps2_to_adb_map}
use apple_ps2smart_touch_pad.Keyboard.Combinations.{case_of}

-- The members that `init` does not set are 0, as the memory of the object.
abbrev no_fn_keys : FnKeys
no_fn_keys = record {
  fn_keys_mode_num = 0;
  fn_keys_vendor_layout = 0;
  system_sleep = 0;
  bright_ness_down = 0;
  bright_ness_up = 0;
  misson_ctl_fun = 0;
  launchpad_fun = 0;
  disp_sleep = 0;
  video_mirror = 0;
  touchpad = 0;
  vol_mute = 0;
  vol_down = 0;
  vol_up = 0;
  media_prev = 0;
  media_play = 0;
  media_next = 0;
  kbrd_brightness_down = 0;
  kbrd_brightness_up = 0;
}

abbrev first_options : Options
first_options = record {
  macintosh_mode = false;
  has_extend_functions = false;
  make_shift_caps_as_fn = false;
  make_del_into_cmd_bspace = false;
  make_key_dot_as_comma = false;
  no_num_lock_led = false;
  make_num_lock_as_clear = false;
  use_finer_brightnes_ctrl = false;
  use_finer_volume_ctrl = false;
  fix_sierra_caps_lock_bug = true;
  asus_fn_key_work_as_function = false;
  right_ctxt_mkey = 0x5d;
  right_cntrl_key = 0x1d;
  right_alt_key = 0;
  caps_key = 0;
}

abbrev first_typing : Typing
first_typing = record {
  keyboard_type_id = 0;
  letter_m = 0x2e;
  letter_q = 0x0c;
  iso_lsquare_bracket = 0;
  iso_rsquare_bracket = 0;
}

-- `init`.
unfoldable pub init : World → Keyboard
init w = record {
  is_keyboard_enabled = true;
  extend_count = 0;
  extended_code = false;
  key_bit_vector = replicate 8 0;
  led_state = 0;
  modifier_keystate = 0;
  is_caps_locked = false;
  is_num_pad_locked = false;
  is_num_pad_key = false;
  is_acc_input_exception_key = false;
  is_tpad_enabled = true;
  is_fn_key_pressed = false;
  is_fn_key_comb = false;
  display_sleep = false;
  release_gesture_key = false;
  feature_toggle_mode = false;
  german_turkish_layout = false;
  alt_function_enabled = false;
  controlling_feature = false;
  enabled_asus_kbacklight = false;
  asus_kb_has16_level_support = false;
  kbrd_back_light_lvl = 0;
  generated_code = 0;
  temp_code1 = 0;
  temp_code2 = 0;
  osx_version = 12;
  last_event_secs = 0;
  last_event_microsecs = 0;
  now = 0;
  modifiers = record {
    command_key = 0x5b;
    contrl_key = 0x1d;
    altkey = 0x38;
    last_modifiers_read_time = 0;
  };
  fn_keys = no_fn_keys;
  options = first_options;
  typing = first_typing;
  fx = replicate 12 none;
  normal_map = ps2_to_adb_map;
  extended_map = extended_ps2_to_adb_map;
  world = w;
  events = [];
  memory_faults = 0;
}

-- The brackets of a layout.
abbrev brackets : ℕ → ℕ → Typing → Typing
brackets l r t = record t { iso_lsquare_bracket = l; iso_rsquare_bracket = r }

abbrev french : Typing → Typing
french t = record t { letter_m = 0x29; letter_q = 0x00 }

-- The custom layouts: the codes of brackets and letters, and the type that the system is told.
unfoldable pub layout_of_type : ℕ → Typing → ℕ × Typing
unfolding case_of
layout_of_type id t =
    case_of id
      ((0x30, (0xc7, brackets 0x17 0x16 t))
        ∷ (0x31, (0xc7, brackets 0x21 0x1e t))
        ∷ (0x32, (0xc7, brackets 0x17 0x1b (french t)))
        ∷ (0x34, (0xc7, brackets 0x17 0x1b t))
        ∷ (0x33, (0x1b, brackets 0x1e 0x2a t))
        ∷ [])
      (id, brackets 0x21 0x1e t)

-- The two keys that ISO keyboards exchange.
unfoldable pub map_iso_keys : ℕ → ℕ → List ℕ → List ℕ
map_iso_keys a b codes = set (set codes 0x29 a) 0x56 b

unfoldable pub iso_map : ℕ → World → List ℕ → List ℕ
unfolding case_of map_iso_keys
iso_map id w codes =
    let iso =
      if not w.use_iso_layout
      then codes
      else if w.sierra
      then map_iso_keys 0x32 0x0a codes
      else map_iso_keys 0x0a 0x32 codes in
    case_of id ((199, iso) ∷ (205, iso) ∷ (32, iso) ∷ (35, iso) ∷ (47, iso) ∷ (41, iso) ∷ [])
      (map_iso_keys 0x32 0x0a codes)

-- The value of "Keyboard type (ID)" as it is stored, or 0.
abbrev stored_type : Option ℕ → ℕ
stored_type none = 0
stored_type (some id) = id % 2 ^ 32

-- `deviceType`.
unfoldable pub device_type : Keyboard → ℕ × Keyboard
unfolding layout_of_type iso_map
device_type k =
    let w = k.world in
    let stored = stored_type w.keyboard_type in
    let wanted = if ltb 0 stored then stored else if w.use_iso_layout then 0xc7 else 0x1b in
    let (id, typing) = layout_of_type wanted (record k.typing { keyboard_type_id = stored }) in
    (id, record k { typing = typing; normal_map = iso_map id w k.normal_map })
