-- ===== src/Keyboard/Scan.antt =====
-- `interruptOccurred` and `dispatchKeyboardEventWithScancode` of ApplePS2Keyboard.cpp, from the
-- scan code to the event.
pub mod Prefixes
use apple_ps2smart_touch_pad.Common.{
  ℕ, ◌-◌, Bool, true, false, not, ◌&&◌, ◌||◌, List, [], ◌∷◌, ◌++◌, ◌==◌, if◌then◌else◌, ltb, leb,
  has, clear_bits,
}
use apple_ps2smart_touch_pad.Controller.State.{sc_acknowledge}
use apple_ps2smart_touch_pad.Keyboard.State.{
  extended_adb, adb, Keyboard, dispatch_key, dispatch_notice,
}
use apple_ps2smart_touch_pad.Keyboard.Vector.{kbv_keydown, kbv_keyup}
use apple_ps2smart_touch_pad.Keyboard.Notices.{
  accidental_input, enable_touchpad, do_context_menu, show_touch_pressure_width,
}
use apple_ps2smart_touch_pad.Keyboard.Backlight.{dispatch_keyboard_backlight_notification}
use apple_ps2smart_touch_pad.Keyboard.Functions.{process_fn_keys}
use apple_ps2smart_touch_pad.Keyboard.Lights.{set_alpha_lock_feedback}
use apple_ps2smart_touch_pad.Keyboard.Special.{toggle_touchpad_features, process_extended_functions}
use apple_ps2smart_touch_pad.Keyboard.Codes.{
  is_down, command_down, control_down, alt_down, shift_down, set_extended_code, one_of, normal_code,
  extended_key_code,
}
use apple_ps2smart_touch_pad.Keyboard.ModifierKeys.{notify_modifiers}
use apple_ps2smart_touch_pad.Keyboard.Pressed.{special_key, set_feature_toggle_mode}

abbrev pub sc_extend : ℕ
sc_extend = 0xe0

abbrev pub sc_pause : ℕ
sc_pause = 0xe1

abbrev pub sc_up_bit : ℕ
sc_up_bit = 0x80

abbrev sc_resend : ℕ
sc_resend = 0xfe

unfoldable pub set_extend_count : ℕ → Keyboard → Keyboard
set_extend_count n k = record k { extend_count = n }

unfoldable pub set_key_bit_vector : List ℕ → Keyboard → Keyboard
set_key_bit_vector bits k = record k { key_bit_vector = bits }

unfoldable pub set_fn_key_comb : Bool → Keyboard → Keyboard
set_fn_key_comb b k = record k { is_fn_key_comb = b }

-- The Fn keys without another modifier than Alt with Shift.
unfoldable pub bare_or_finer : Keyboard → Bool
bare_or_finer k =
    not (control_down k) && not (command_down k) && (not (alt_down k) || alt_down k && shift_down k)

-- The keys whose repetition is not thrown away.
unfoldable pub repeats : ℕ → Keyboard → Bool
unfolding bare_or_finer one_of
repeats code k =
    let f = k.fn_keys in
    one_of code (f.bright_ness_down ∷ f.bright_ness_up ∷ f.vol_down ∷ f.vol_up ∷ [])
    && not k.is_num_pad_key
    && not k.display_sleep
    && bare_or_finer k

-- `isFnKeyComb`.
unfoldable pub fn_key_comb : ℕ → Keyboard → Bool
unfolding bare_or_finer one_of
fn_key_comb code k =
    let f = k.fn_keys in
    one_of code (
      f.bright_ness_down ∷ f.bright_ness_up ∷ f.kbrd_brightness_down ∷ f.kbrd_brightness_up
      ∷ f.system_sleep ∷ f.misson_ctl_fun ∷ f.launchpad_fun ∷ f.disp_sleep ∷ f.video_mirror
      ∷ f.touchpad ∷ f.vol_mute ∷ f.vol_down ∷ f.vol_up ∷ f.media_prev ∷ f.media_play ∷ f.media_next
      ∷ [])
    && not k.is_num_pad_key
    && (not k.display_sleep || code == f.disp_sleep)
    && bare_or_finer k

-- The ADB code of a key code, by the table of the key.
unfoldable pub adb_code : ℕ → Keyboard → ℕ
unfolding extended_adb adb
adb_code code k = if k.extended_code then extended_adb code k else adb code k

-- A key while features are toggled. The mode ends when Shift and Caps Lock are both up.
unfoldable pub feature_key : ℕ → Bool → Keyboard → Keyboard
unfolding adb_code dispatch_key process_fn_keys toggle_touchpad_features set_alpha_lock_feedback
    set_feature_toggle_mode dispatch_notice
feature_key code down k =
    let mode = k.fn_keys.fn_keys_mode_num in
    if is_down 0x2a k && is_down 0x3a k
    then (if k.is_fn_key_comb && k.options.make_shift_caps_as_fn
        then (if mode == 1
            then dispatch_key (adb_code code k) down k
            else if mode == 2 || mode == 3
            then process_fn_keys code down k
            else k)
        else toggle_touchpad_features code down k)
    else if not (is_down 0x2a k) && not (is_down 0x3a k)
    then dispatch_notice show_touch_pressure_width
        (set_feature_toggle_mode false (set_alpha_lock_feedback k.is_caps_locked k))
    else k

-- A modifier key is dispatched, the context menu key as a notification.
unfoldable pub modifier_key : ℕ → Bool → Keyboard → Keyboard
unfolding notify_modifiers adb_code dispatch_key dispatch_notice
modifier_key code down k =
    let k1 = notify_modifiers k in
    if code == 0x5d
    then (if down then dispatch_notice do_context_menu k1 else k1)
    else dispatch_key (adb_code code k1) down k1

-- Any other key is dispatched, and the touchpad told whether it was typing.
unfoldable pub normal_key : ℕ → Bool → Keyboard → Keyboard
unfolding adb_code dispatch_key dispatch_notice
normal_key code down k =
    let k1 = dispatch_key (adb_code code k) down k in
    let exempt = k.is_acc_input_exception_key || k.is_num_pad_key in
    if down && not exempt && k.is_tpad_enabled
    then dispatch_notice accidental_input k1
    else if exempt && k.is_tpad_enabled
    then dispatch_notice enable_touchpad k1
    else k1

unfoldable pub is_modifier : ℕ → Keyboard → Bool
unfolding one_of
is_modifier code k =
    let m = k.modifiers in
    one_of code (m.command_key ∷ m.altkey ∷ m.contrl_key ∷ 0x54 ∷ 0x2a ∷ 0x36 ∷ [])
    || code == 0x5d && not k.is_fn_key_pressed

-- From the special keys on.
unfoldable pub dispatch_code : ℕ → Bool → Keyboard → Keyboard
unfolding special_key set_fn_key_comb fn_key_comb feature_key process_fn_keys is_modifier
    modifier_key normal_key
dispatch_code code down k =
    let (left, k1) = special_key code down k in
    let k2 = set_fn_key_comb (fn_key_comb left k1) k1 in
    if k2.feature_toggle_mode
    then feature_key left down k2
    else if left == 0
    then k2
    else if k2.is_fn_key_comb && (k2.is_fn_key_pressed || k2.fn_keys.fn_keys_mode_num == 1)
    then process_fn_keys left down k2
    else if k2.display_sleep
    then k2
    else if is_modifier left k2
    then modifier_key left down k2
    else if not k2.is_fn_key_pressed
    then normal_key left down k2
    else k2

-- Shift with a function key and no other modifier.
unfoldable pub is_extended_function : ℕ → Keyboard → Bool
is_extended_function code k =
    k.options.has_extend_functions
    && not k.feature_toggle_mode
    && shift_down k
    && not (code == 0x2a)
    && not (code == 0x36)
    && not (alt_down k)
    && not (control_down k)
    && not (command_down k)

unfoldable pub dispatch_recorded : ℕ → Bool → Keyboard → Keyboard
unfolding process_extended_functions dispatch_code is_extended_function
dispatch_recorded code down k =
    let (done, k1) = process_extended_functions code down k in
    if is_extended_function code k
    then (if done then k1 else dispatch_code code down k1)
    else dispatch_code code down k

unfoldable pub record_key : ℕ → Bool → Keyboard → Keyboard
unfolding set_key_bit_vector
record_key code down k =
    set_key_bit_vector
      (if down then kbv_keydown code k.key_bit_vector else kbv_keyup code k.key_bit_vector) k

-- A key code that is not 0: a repetition is thrown away, any other key is recorded.
unfoldable pub dispatch_key_code : ℕ → Bool → Keyboard → Keyboard
unfolding repeats record_key dispatch_recorded
dispatch_key_code code down k =
    if down && is_down code k && not (repeats code k)
    then k
    else dispatch_recorded code down (record_key code down k)

-- The end of the handler. For the key code 0, `goingDown` has not been assigned.
unfoldable pub finish_key : ℕ → Bool → Keyboard → Keyboard
unfolding dispatch_key_code dispatch_keyboard_backlight_notification
finish_key code down k =
    if code == 0
    then dispatch_keyboard_backlight_notification k.world.unset k
    else dispatch_keyboard_backlight_notification down (dispatch_key_code code down k)

-- A scan code without a prefix, and one behind the last code of a prefix.
unfoldable pub dispatch_normal : ℕ → Keyboard → Keyboard
unfolding set_extended_code normal_code finish_key
dispatch_normal scan k =
    let down = not (has scan sc_up_bit) in
    let (code, k1) = normal_code (clear_bits scan sc_up_bit) down (set_extended_code false k) in
    finish_key code down k1

unfoldable pub dispatch_extended : ℕ → Keyboard → Keyboard
unfolding extended_key_code finish_key
dispatch_extended scan k =
    let down = not (has scan sc_up_bit) in
    let (code, k1) = extended_key_code (clear_bits scan sc_up_bit) down k in finish_key code down k1

-- `dispatchKeyboardEventWithScancode`.
unfoldable pub dispatch_scan_code : ℕ → Keyboard → Keyboard
unfolding set_extend_count set_extended_code dispatch_normal dispatch_extended
dispatch_scan_code scan k =
    let left = k.extend_count - 1 in
    let counted = set_extend_count left (set_extended_code true k) in
    if scan == sc_extend
    then set_extend_count 1 k
    else if scan == sc_pause
    then set_extend_count 2 k
    else if k.extend_count == 0
    then dispatch_normal scan k
    else if left == 0
    then dispatch_extended scan counted
    else counted

-- `interruptOccurred`.
unfoldable pub interrupt_occurred : ℕ → Keyboard → Keyboard
unfolding dispatch_scan_code
interrupt_occurred scan k =
    if not k.is_keyboard_enabled || scan == sc_acknowledge || scan == sc_resend
    then k
    else dispatch_scan_code scan k
