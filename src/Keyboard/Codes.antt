-- ===== src/Keyboard/Codes.antt =====
-- `dispatchKeyboardEventWithScancode` of ApplePS2Keyboard.cpp: the two `switch`es that turn a scan code
-- into a key code. The key code 0 ends the handler.
use apple_ps2smart_touch_pad.Common.{
  ℕ, Bool, true, false, not, ◌&&◌, ◌||◌, List, [], ◌∷◌, ◌==◌, if◌then◌else◌, leb,
}
use apple_ps2smart_touch_pad.Keyboard.State.{extended_adb, adb, Keyboard, dispatch_key}
use apple_ps2smart_touch_pad.Keyboard.Vector.{kbv_is_keydown}
use apple_ps2smart_touch_pad.Keyboard.Notices.{gesture_app_close}
use apple_ps2smart_touch_pad.Keyboard.Combinations.{case_of}
use apple_ps2smart_touch_pad.Keyboard.Gestures.{dispatch_chords}
use apple_ps2smart_touch_pad.Keyboard.Functions.{
  process_fn_keys, process_fnkey_sleep, toggle_touchpad, receive_touchpad_notifications,
}
use apple_ps2smart_touch_pad.Keyboard.Special.{map_german_turkish_keyboard_layout}

unfoldable pub is_down : ℕ → Keyboard → Bool
is_down code k = kbv_is_keydown code k.key_bit_vector

abbrev pub command_down : Keyboard → Bool
command_down k = is_down k.modifiers.command_key k

abbrev pub control_down : Keyboard → Bool
control_down k = is_down k.modifiers.contrl_key k

abbrev pub alt_down : Keyboard → Bool
alt_down k = is_down k.modifiers.altkey k

abbrev pub shift_down : Keyboard → Bool
shift_down k = is_down 0x2a k || is_down 0x36 k

unfoldable pub set_extended_code : Bool → Keyboard → Keyboard
set_extended_code b k = record k { extended_code = b }

unfoldable pub one_of : ℕ → List ℕ → Bool
one_of code [] = false
one_of code (c ∷ codes) = code == c || one_of code codes

-- The modifier left of the space bar that is Alt on the keyboard, and the other one.
abbrev alt_position : Keyboard → Bool
alt_position k = if k.options.macintosh_mode then command_down k else alt_down k

abbrev command_position : Keyboard → Bool
command_position k = if k.options.macintosh_mode then alt_down k else command_down k

-- TAB with Alt: the control key, if it is down, is up in the meantime.
unfoldable pub switch_application : Keyboard → Keyboard
unfolding dispatch_key dispatch_chords adb
switch_application k =
    let ctl = adb k.modifiers.contrl_key k in
    let held = control_down k in
    let k1 = dispatch_chords ((0x30 ∷ []) ∷ []) (if held then dispatch_key ctl false k else k) in
    if held then dispatch_key ctl true k1 else k1

-- The point of the keypad while NumLock is on.
unfoldable pub keypad_point : Bool → Keyboard → ℕ × Keyboard
unfolding dispatch_key
keypad_point down k =
    let id = k.typing.keyboard_type_id in
    if k.options.make_key_dot_as_comma
    then (0x53, k)
    else if id == 0x31
    then (0x34, k)
    else if id == 0x32 || id == 0x34
    then (0x33, dispatch_key 0x3c down k)
    else (0x53, k)

abbrev or_code : ℕ → ℕ → ℕ
or_code configured code = if configured == 0 then code else configured

-- A scan code without a prefix.
unfoldable pub normal_code : ℕ → Bool → Keyboard → ℕ × Keyboard
unfolding map_german_turkish_keyboard_layout receive_touchpad_notifications dispatch_chords
    switch_application keypad_point set_extended_code one_of
normal_code code down k =
    if one_of code (0x08 ∷ 0x09 ∷ 0x0a ∷ 0x0b ∷ 0x0c ∷ 0x1b ∷ 0x10 ∷ 0x56 ∷ [])
    then (if alt_down k && k.typing.keyboard_type_id == 0x30
        then map_german_turkish_keyboard_layout code down k
        else (code, k))
    else if code == 0x3e && alt_position k
    then (0, if down then receive_touchpad_notifications gesture_app_close k else k)
    else if code == 0x19 && command_position k
    then (0, if down then dispatch_chords ((0x50 ∷ []) ∷ []) k else k)
    else if code == 0x0f && alt_position k
    then (0, if down then switch_application k else k)
    else if code == 0x3a
    then (or_code k.options.caps_key code, k)
    else if code == 0x38 && k.options.macintosh_mode
    then (0x5b, set_extended_code true k)
    else if leb 0x47 code && leb code 0x53 && not (one_of code (0x4a ∷ 0x4e ∷ []))
    then (if not k.is_num_pad_locked
        then (code, set_extended_code true k)
        else if code == 0x53
        then keypad_point down k
        else (code, k))
    else if code == 0x65 && k.fn_keys.fn_keys_vendor_layout == 6
    then (0, k)
    else (code, k)

-- A function key of a vendor: its code, which is the ADB code unless the keys of an Asus work as
-- functions.
unfoldable pub vendor_code : ℕ → Keyboard → ℕ
unfolding case_of extended_adb
vendor_code code k =
    if k.options.asus_fn_key_work_as_function
    then case_of code ((0x20, 0x44) ∷ (0x2e, 0x57) ∷ (0x30, 0x58) ∷ []) code
    else extended_adb code k

unfoldable pub vendor_key : ℕ → Keyboard → Keyboard
unfolding process_fn_keys dispatch_chords
vendor_key code k =
    let brightness = k.options.use_finer_brightnes_ctrl in
    let volume = k.options.use_finer_volume_ctrl in
    if code == 0x4d && brightness
    then process_fn_keys 0x10 false k
    else if code == 0x4f && brightness
    then process_fn_keys 0x20 false k
    else if code == 0x48 && volume
    then process_fn_keys 0x4c false k
    else if code == 0x49 && volume
    then process_fn_keys 0x49 false k
    else if code == 0
    then k
    else dispatch_chords ((code ∷ []) ∷ []) k

-- The keys that act when they go down, and do nothing else.
unfoldable pub when_down : Bool → Keyboard → Keyboard → ℕ × Keyboard
when_down down acted k = (0, if down then acted else k)

-- A scan code behind a prefix.
unfoldable pub extended_key_code : ℕ → Bool → Keyboard → ℕ × Keyboard
unfolding vendor_code vendor_key toggle_touchpad process_fnkey_sleep dispatch_key dispatch_chords
    adb when_down set_extended_code one_of extended_adb
extended_key_code code down k =
    let cmd = extended_adb k.modifiers.command_key k in
    let mac = k.options.macintosh_mode in
    if one_of code (
      0x02 ∷ 0x08 ∷ 0x09 ∷ 0x4e ∷ 0x05 ∷ 0x06 ∷ 0x12 ∷ 0x17 ∷ 0x6f ∷ 0x6e ∷ 0x77 ∷ 0x78 ∷ 0x20
      ∷ 0x2e ∷ 0x30 ∷ [])
    then when_down down (vendor_key (vendor_code code k) k) k
    else if one_of code (0x32 ∷ 0x59 ∷ [])
    then when_down down (toggle_touchpad k) k
    else if one_of code (0x33 ∷ 0x5f ∷ [])
    then when_down down (process_fnkey_sleep k) k
    else if code == 0x1d
    then (or_code k.options.right_cntrl_key code, k)
    else if code == 0x38
    then (or_code k.options.right_alt_key (if mac then 0x5c else code), k)
    else if code == 0x5b && mac
    then (0x38, set_extended_code false k)
    else if code == 0x5c && mac
    then (0x38, k)
    else if code == 0x53 && k.options.make_del_into_cmd_bspace && down
    then (0, dispatch_chords ((cmd ∷ 0x33 ∷ []) ∷ []) k)
    else if code == 0x37
    then when_down (down && not k.display_sleep) (dispatch_chords ((cmd ∷ 0x38 ∷ 0x15 ∷ []) ∷ []) k)
        k
    else if code == 0x46 && down
    then (code, dispatch_key (adb k.modifiers.contrl_key k) false k)
    else if code == 0x2a
    then (0, k)
    else (code, k)
