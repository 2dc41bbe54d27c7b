-- ===== src/Keyboard/Pressed.antt =====
-- `dispatchKeyboardEventWithScancode` of ApplePS2Keyboard.cpp: the `switch` on a key code whose state has
-- been recorded. It returns the key code that is left; 0 ends the handler.
use apple_ps2smart_touch_pad.Common.{
  ℕ, Bool, true, false, not, ◌&&◌, ◌||◌, [], ◌∷◌, ◌==◌, if◌then◌else◌, ltb, leb,
}
use apple_ps2smart_touch_pad.Keyboard.State.{
  extended_adb, Keyboard, set_alpha_lock, emit, dispatch_key, dispatch_notice,
  set_release_gesture_key,
}
use apple_ps2smart_touch_pad.Keyboard.Notices.{
  shift_key, gesture_mission_control, scroll_lock_inertia, scroll_lock_continuous, esc,
  show_touch_pressure_width,
}
use apple_ps2smart_touch_pad.Keyboard.Gestures.{read_keyboard_modifiers}
use apple_ps2smart_touch_pad.Keyboard.Functions.{receive_touchpad_notifications}
use apple_ps2smart_touch_pad.Keyboard.Lights.{set_alpha_lock_feedback, set_num_lock_feedback}
use apple_ps2smart_touch_pad.Keyboard.Special.{generate_and_see_adb_code}
use apple_ps2smart_touch_pad.Keyboard.Codes.{is_down, command_down, control_down, alt_down, one_of}

unfoldable pub set_exception : Bool → Keyboard → Keyboard
set_exception b k = record k { is_acc_input_exception_key = b }

unfoldable pub set_num_pad_key : Bool → Keyboard → Keyboard
set_num_pad_key b k = record k { is_num_pad_key = b }

unfoldable pub set_num_pad_locked : Bool → Keyboard → Keyboard
set_num_pad_locked b k = record k { is_num_pad_locked = b }

unfoldable pub set_caps_locked : Bool → Keyboard → Keyboard
set_caps_locked b k = record k { is_caps_locked = b }

unfoldable pub set_feature_toggle_mode : Bool → Keyboard → Keyboard
set_feature_toggle_mode b k = record k { feature_toggle_mode = b }

unfoldable pub set_fn_key_pressed : Bool → Keyboard → Keyboard
set_fn_key_pressed b k = record k { is_fn_key_pressed = b }

-- NumLock, or Pause behind a prefix.
unfoldable pub num_lock_key : Bool → Keyboard → ℕ × Keyboard
unfolding set_num_lock_feedback set_num_pad_locked
num_lock_key down k =
    let locked = not k.is_num_pad_locked in
    if k.extended_code
    then (if ltb 1 k.fn_keys.fn_keys_mode_num then (0x5d, k) else (0x45, k))
    else if k.options.make_num_lock_as_clear
    then (0x45, set_num_lock_feedback down k)
    else (0, if down then set_num_lock_feedback locked (set_num_pad_locked locked k) else k)

-- Scroll Lock.
unfoldable pub scroll_lock_key : Bool → Keyboard → Keyboard
unfolding dispatch_notice
scroll_lock_key down k =
    if k.extended_code || not down
    then k
    else dispatch_notice (if alt_down k then scroll_lock_continuous else scroll_lock_inertia) k

-- Enter, space and ESC.
unfoldable pub release_key : ℕ → Keyboard → Keyboard
unfolding dispatch_key dispatch_notice set_release_gesture_key set_exception extended_adb
release_key code k =
    let k1 =
      if command_down k then dispatch_key (extended_adb k.modifiers.command_key k) false k else k in
    set_exception true (
      if k.release_gesture_key || code == 0x01
      then set_release_gesture_key false (dispatch_notice esc k1)
      else k)

-- Shift and Caps Lock together: the mode begins in which keys toggle features.
unfoldable pub begin_feature_toggle : Keyboard → Keyboard
unfolding dispatch_key dispatch_notice set_release_gesture_key set_feature_toggle_mode
begin_feature_toggle k =
    let k1 = dispatch_notice show_touch_pressure_width (set_feature_toggle_mode true k) in
    dispatch_notice esc (dispatch_key 0x38 false (set_release_gesture_key false k1))

-- Left Shift.
unfoldable pub left_shift_key : Bool → Keyboard → Keyboard
unfolding begin_feature_toggle set_alpha_lock_feedback set_caps_locked dispatch_notice
    set_release_gesture_key set_exception
left_shift_key down k = set_exception true (
    if down
    then (if is_down 0x3a k
        then set_alpha_lock_feedback false (set_caps_locked false (begin_feature_toggle k))
        else set_release_gesture_key true (dispatch_notice shift_key k))
    else if not k.feature_toggle_mode
    then dispatch_notice esc k
    else k)

-- Caps Lock by itself. The system is told of it twice before it is typed, which makes three times.
unfoldable pub caps_lock_toggle : Bool → Keyboard → Keyboard
unfolding dispatch_key emit set_caps_locked set_alpha_lock_feedback
caps_lock_toggle down k =
    let locked = not k.is_caps_locked in
    let typed = dispatch_key 0x39 down (dispatch_key 0x39 down k) in
    if ltb 11 k.osx_version && not k.feature_toggle_mode && k.options.fix_sierra_caps_lock_bug
    then (if down
        then typed
        else set_alpha_lock_feedback locked
            (emit (set_alpha_lock locked ∷ []) (set_caps_locked locked typed)))
    else set_caps_locked locked k

-- Caps Lock.
unfoldable pub caps_lock_key : Bool → Keyboard → Keyboard
unfolding read_keyboard_modifiers begin_feature_toggle set_alpha_lock_feedback caps_lock_toggle
    set_exception
caps_lock_key down k =
    let k1 = read_keyboard_modifiers k in
    set_exception true (
      if is_down 0x2a k1 && down
      then set_alpha_lock_feedback false (begin_feature_toggle k1)
      else caps_lock_toggle down k1)

-- The context menu key.
unfoldable pub context_menu_key : Bool → Keyboard → ℕ × Keyboard
unfolding set_fn_key_pressed generate_and_see_adb_code
context_menu_key down k =
    let code = k.options.right_ctxt_mkey in
    let released = set_fn_key_pressed false k in
    if code == 0x5c
    then (if k.options.macintosh_mode then 0x38 else 0x5c, k)
    else if code == 0x54 && ltb 1 k.fn_keys.fn_keys_mode_num
    then (
      code,
      if down
          then set_fn_key_pressed true k
          else if k.is_num_pad_locked && not k.display_sleep
          then generate_and_see_adb_code 0x5d false released
          else released,
    )
    else (code, k)

-- The keypad: digits, or the keys that an extended code stands for.
unfoldable pub keypad_key : ℕ → Bool → Keyboard → Keyboard
unfolding set_num_pad_key set_exception generate_and_see_adb_code
keypad_key code down k =
    let digit = set_num_pad_key true k in
    set_exception true (
      if k.extended_code
      then set_num_pad_key false k
      else if k.is_fn_key_pressed
          && k.is_num_pad_locked
          && down
          && not (code == 0x53)
          && not k.display_sleep
      then generate_and_see_adb_code code down digit
      else digit)

unfoldable pub other_key : Keyboard → Keyboard
unfolding set_num_pad_key set_exception
other_key k =
    if command_down k then set_exception true k else set_exception false (set_num_pad_key false k)

unfoldable pub special_key : ℕ → Bool → Keyboard → ℕ × Keyboard
unfolding receive_touchpad_notifications num_lock_key scroll_lock_key release_key left_shift_key
    caps_lock_key context_menu_key read_keyboard_modifiers keypad_key other_key set_exception one_of
special_key code down k =
    if code == 0x3d
    then (if k.is_fn_key_pressed && (control_down k || command_down k)
        then (0, if down then receive_touchpad_notifications gesture_mission_control k else k)
        else (code, k))
    else if code == 0x45
    then num_lock_key down k
    else if code == 0x46
    then (code, scroll_lock_key down k)
    else if one_of code (0x1c ∷ 0x39 ∷ 0x01 ∷ [])
    then (code, release_key code k)
    else if code == 0x2a
    then (code, left_shift_key down k)
    else if code == 0x3a
    then (code, caps_lock_key down k)
    else if code == 0x5d
    then context_menu_key down k
    else if one_of code (0x1d ∷ 0x5b ∷ 0x5c ∷ 0x38 ∷ [])
    then (code, set_exception true (read_keyboard_modifiers k))
    else if one_of code (0x36 ∷ 0x0f ∷ 0x0e ∷ 0x37 ∷ 0x4a ∷ 0x4e ∷ 0x35 ∷ [])
    then (code, set_exception true k)
    else if leb 0x47 code && leb code 0x53
    then (code, keypad_key code down k)
    else (code, other_key k)
