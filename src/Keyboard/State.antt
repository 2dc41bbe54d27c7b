-- ===== src/Keyboard/State.antt =====
-- The state of ApplePS2Keyboard (ApplePS2Keyboard.h), and what the driver does outside of it.
--
-- Calls out of the driver are kept in `events`, oldest first: keys handed to IOHIKeyboard,
-- notifications to the touchpad, requests submitted asynchronously, calls of ACPI methods. What
-- IOKit and ACPI answer is in `world`; the clock stands still while a handler runs.
-- `memory_faults` counts the accesses that C++ leaves undefined: a null string, a write behind a
-- buffer. The run goes on without what the access was for.
use apple_ps2smart_touch_pad.Common.{ℕ, ◌+◌, ◌%◌, Bool, List, [], ◌∷◌, ◌++◌, Option}
use apple_ps2smart_touch_pad.Controller.Request.Commands.{Ps2Command}
use apple_ps2smart_touch_pad.Keyboard.Maps.{in_map}

-- A byte string, without its end.
abbrev pub Text : Type 0
Text = List ℕ

pub data Event : Type 0 where
  -- `dispatchKeyboardKeyCode`: ADB code, direction.
  key : ℕ → Bool → Event
  -- `_device->dispatchPS2Notification`.
  notify : ℕ → Event
  -- `_device->submitRequest`.
  request : List Ps2Command → Event
  -- The ACPI methods SKBL and SLPN.
  set_backlight : ℕ → Event
  sleep_button : Event
  -- `receivePowerNotification(kIOPMSleepNow)`.
  sleep_now : Event
  set_alpha_lock : Bool → Event
  set_product : Event

-- `NX_MODIFIERKEY_ALPHALOCK` to `NX_MODIFIERKEY_COMMAND` of IOKit; any other number.
pub data ModifierKey : Type 0 where
  alphalock shift control alternate command : ModifierKey
  other_modifier : ℕ → ModifierKey

-- An entry of the dictionary of preferences.
pub data Preference : Type 0 where
  flag : Bool → Preference
  number : ℕ → Preference

-- What the property lists, ACPI and the clock answer.
pub record World : Type 0 where
  pub uptime : ℕ
  pub secs : ℕ
  pub microsecs : ℕ
  -- The pairs of source and destination of the HID modifier mapping, if the property is there.
  pub modifier_pairs : Option (List (ModifierKey × ModifierKey))
  -- The device ATKD is there; GKBL for an argument, and GKLM; the method SKBL is there.
  pub atkd : Bool
  pub gkbl : ℕ → Option ℕ
  pub gklm : Option ℕ
  pub skbl : Bool
  pub slpn : Bool
  -- The levels of an Asus backlight panel that has both properties.
  pub asus_panel_levels : Option ℕ
  pub fn_keys_mode_1 : Option (List (Text × Text))
  pub fn_keys_mode_2 : Option (List (Text × Text))
  pub fn_keys_layout : Option Text
  pub extended_functions : Option (List (Text × Text))
  pub product : Option Text
  -- "Keyboard type (ID)", "Use ISO Layout", and whether the system is Sierra or later.
  pub keyboard_type : Option ℕ
  pub use_iso_layout : Bool
  pub sierra : Bool
  pub preferences : Option (List (Text × Preference))
  -- What a local variable that no assignment reached reads as.
  pub unset : Bool

-- The scan codes of the modifiers.
pub record Modifiers : Type 0 where
  pub command_key : ℕ
  pub contrl_key : ℕ
  pub altkey : ℕ
  pub last_modifiers_read_time : ℕ

-- The scan codes of the Fn keys.
pub record FnKeys : Type 0 where
  pub fn_keys_mode_num : ℕ
  pub fn_keys_vendor_layout : ℕ
  pub system_sleep : ℕ
  pub bright_ness_down : ℕ
  pub bright_ness_up : ℕ
  pub misson_ctl_fun : ℕ
  pub launchpad_fun : ℕ
  pub disp_sleep : ℕ
  pub video_mirror : ℕ
  pub touchpad : ℕ
  pub vol_mute : ℕ
  pub vol_down : ℕ
  pub vol_up : ℕ
  pub media_prev : ℕ
  pub media_play : ℕ
  pub media_next : ℕ
  pub kbrd_brightness_down : ℕ
  pub kbrd_brightness_up : ℕ

-- The preferences, some of which keys toggle.
pub record Options : Type 0 where
  pub macintosh_mode : Bool
  pub has_extend_functions : Bool
  pub make_shift_caps_as_fn : Bool
  pub make_del_into_cmd_bspace : Bool
  pub make_key_dot_as_comma : Bool
  pub no_num_lock_led : Bool
  pub make_num_lock_as_clear : Bool
  pub use_finer_brightnes_ctrl : Bool
  pub use_finer_volume_ctrl : Bool
  pub fix_sierra_caps_lock_bug : Bool
  pub asus_fn_key_work_as_function : Bool
  pub right_ctxt_mkey : ℕ
  pub right_cntrl_key : ℕ
  pub right_alt_key : ℕ
  pub caps_key : ℕ

-- `_keyboardTypeID` and the codes that depend on it.
pub record Typing : Type 0 where
  pub keyboard_type_id : ℕ
  pub letter_m : ℕ
  pub letter_q : ℕ
  pub iso_lsquare_bracket : ℕ
  pub iso_rsquare_bracket : ℕ

pub record Keyboard : Type 0 where
  pub is_keyboard_enabled : Bool
  pub extend_count : ℕ
  pub extended_code : Bool
  pub key_bit_vector : List ℕ
  pub led_state : ℕ
  pub modifier_keystate : ℕ
  pub is_caps_locked : Bool
  pub is_num_pad_locked : Bool
  pub is_num_pad_key : Bool
  pub is_acc_input_exception_key : Bool
  pub is_tpad_enabled : Bool
  pub is_fn_key_pressed : Bool
  pub is_fn_key_comb : Bool
  pub display_sleep : Bool
  pub release_gesture_key : Bool
  pub feature_toggle_mode : Bool
  pub german_turkish_layout : Bool
  pub alt_function_enabled : Bool
  pub controlling_feature : Bool
  pub enabled_asus_kbacklight : Bool
  pub asus_kb_has16_level_support : Bool
  -- An `SInt8`, as the byte it is stored in.
  pub kbrd_back_light_lvl : ℕ
  pub generated_code : ℕ
  pub temp_code1 : ℕ
  pub temp_code2 : ℕ
  pub osx_version : ℕ
  pub last_event_secs : ℕ
  pub last_event_microsecs : ℕ
  pub now : ℕ
  pub modifiers : Modifiers
  pub fn_keys : FnKeys
  pub options : Options
  pub typing : Typing
  pub fx : List (Option Text)
  -- `PS2ToADBMap` and `ExtendedPS2ToADBMap`.
  pub normal_map : List ℕ
  pub extended_map : List ℕ
  pub world : World
  pub events : List Event
  pub memory_faults : ℕ

-- `PS2ToADBMap[code]` and `ExtendedPS2ToADBMap[code]`.
unfoldable pub adb : ℕ → Keyboard → ℕ
adb code k = in_map k.normal_map code

unfoldable pub extended_adb : ℕ → Keyboard → ℕ
extended_adb code k = in_map k.extended_map code

unfoldable pub emit : List Event → Keyboard → Keyboard
emit es k = record k { events = k.events ++ es }

-- `dispatchKeyboardKeyCode`.
unfoldable pub dispatch_key : ℕ → Bool → Keyboard → Keyboard
unfolding emit
dispatch_key code down k = emit (key code down ∷ []) (record k { now = k.world.uptime })

unfoldable pub dispatch_notice : ℕ → Keyboard → Keyboard
unfolding emit
dispatch_notice n k = emit (notify n ∷ []) k

-- Presses and releases one after the other.
unfoldable pub dispatch_sequence : List (ℕ × Bool) → Keyboard → Keyboard
dispatch_sequence [] k = k
dispatch_sequence ((code, down) ∷ ks) k = dispatch_sequence ks (dispatch_key code down k)

abbrev pub fault : Keyboard → Keyboard
fault k = record k { memory_faults = k.memory_faults + 1 }

unfoldable pub set_release_gesture_key : Bool → Keyboard → Keyboard
set_release_gesture_key b k = record k { release_gesture_key = b }

unfoldable pub set_osx_version : ℕ → Keyboard → Keyboard
set_osx_version n k = record k { osx_version = n % 256 }
