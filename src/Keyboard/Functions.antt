-- ===== src/Keyboard/Functions.antt =====
-- What the keys of ApplePS2Keyboard.cpp do beside being typed: `processFnKeys`, `processFnkeySleep`,
-- and the whole of `receiveTouchpadNotifications`.
pub mod Releases
use apple_ps2smart_touch_pad.Common.{
  ℕ, zero, suc, ◌+◌, ◌-◌, ◌*◌, ◌^◌, ◌%◌, Bool, true, false, not, ◌&&◌, ◌||◌, List, [], ◌∷◌, Option,
  none, some, ◌==◌, if◌then◌else◌, ltb,
}
use apple_ps2smart_touch_pad.Keyboard.State.{
  adb, Keyboard, Text, sleep_button, sleep_now, set_product, emit, dispatch_key, dispatch_notice,
  set_osx_version,
}
use apple_ps2smart_touch_pad.Keyboard.Notices.{
  gesture_launchpad, gesture_mission_control, enable_touchpad, disable_touchpad, init_keyboard,
  enable_asus_kbacklight, enable_asus_kbacklight16_levels, keybrd_back_light_off,
  keybrd_back_light_on, brightness_down, brightness_up, osx_version_notify,
}
use apple_ps2smart_touch_pad.Keyboard.Combinations.{starts, case_of}
use apple_ps2smart_touch_pad.Keyboard.Gestures.{dispatch_chords, receive_gesture}
use apple_ps2smart_touch_pad.Keyboard.Backlight.{
  process_asus_kbacklight, reread_level, set_enabled_asus_kbacklight, init_backlight, backlight_off,
  backlight_on,
}

unfoldable pub set_is_tpad_enabled : Bool → Keyboard → Keyboard
set_is_tpad_enabled b k = record k { is_tpad_enabled = b }

unfoldable pub set_display_sleep : Bool → Keyboard → Keyboard
set_display_sleep b k = record k { display_sleep = b }

-- `isTPadEnabled = !isTPadEnabled`, and the notification that says so.
unfoldable pub toggle_touchpad : Keyboard → Keyboard
unfolding set_is_tpad_enabled dispatch_notice
toggle_touchpad k =
    dispatch_notice (if k.is_tpad_enabled then disable_touchpad else enable_touchpad)
      (set_is_tpad_enabled (not k.is_tpad_enabled) k)

-- `processFnkeySleep`.
unfoldable pub process_fnkey_sleep : Keyboard → Keyboard
unfolding emit
process_fnkey_sleep k =
    emit (sleep_now ∷ []) (if k.world.slpn then emit (sleep_button ∷ []) k else k)

-- Less than two seconds have gone by since the last Fn key; the differences are `uint32_t`.
unfoldable pub rate_limit : Keyboard → Bool
rate_limit k =
    let delta_secs = (k.world.secs + 2 ^ 32 - k.last_event_secs) % 2 ^ 32 in
    let micros = k.world.microsecs + 1000000 * delta_secs in
    let delta_microsecs = (micros + 2 ^ 32 - k.last_event_microsecs) % 2 ^ 32 in
    ltb delta_secs 2 && ltb delta_microsecs 2000000

unfoldable pub disable_finer_brightnes_ctrl : Keyboard → Keyboard
disable_finer_brightnes_ctrl k = record k {
  options = record k.options { use_finer_brightnes_ctrl = false };
}

-- `loopCount`, for the number of levels of the panel and `bLevel`.
unfoldable pub loop_count : ℕ → ℕ → ℕ
unfolding case_of
loop_count levels b_level =
    if levels == 0x0b then case_of b_level ((11, 3) ∷ (10, 3) ∷ (9, 2) ∷ (8, 2) ∷ []) 1 else 1

unfoldable pub press_times : ℕ → ℕ → Keyboard → Keyboard
unfolding dispatch_chords
press_times zero code k = k
press_times (suc n) code k = press_times n code (dispatch_chords ((code ∷ []) ∷ []) k)

-- A brightness key: the function to be dispatched, or none if an Asus panel is served here.
unfoldable pub brightness_key : Bool → Keyboard → ℕ × Keyboard
unfolding disable_finer_brightnes_ctrl loop_count press_times
brightness_key up k = elim k.world.asus_panel_levels as (λ x. ℕ × Keyboard) [
  | none ↦ (if up then 0x10 else 0x20, k)
  | some levels ↦ (
    0,
    press_times (loop_count (levels % 256) (if up then 1 else 0)) (if up then 0x4d else 0x4f)
        (disable_finer_brightnes_ctrl k),
  )
]

-- The branch `keyDown`: `fnKeyCode` and the keyboard.
unfoldable pub fn_key_pressed : ℕ → Keyboard → ℕ × Keyboard
unfolding process_asus_kbacklight reread_level dispatch_key brightness_key process_fnkey_sleep
    rate_limit receive_gesture toggle_touchpad
fn_key_pressed key_code k =
    let f = k.fn_keys in
    let asus = k.enabled_asus_kbacklight in
    if key_code == f.kbrd_brightness_down && asus
    then (0, reread_level (process_asus_kbacklight false k))
    else if key_code == f.kbrd_brightness_up && asus
    then (0, reread_level (process_asus_kbacklight true k))
    else if key_code == f.media_prev
    then (0, dispatch_key 0x34 true k)
    else if key_code == f.media_next
    then (0, dispatch_key 0x40 true k)
    else if key_code == f.bright_ness_down || key_code == f.bright_ness_up
    then brightness_key (key_code == f.bright_ness_up) k
    else if key_code == f.system_sleep && not (rate_limit k)
    then (0, process_fnkey_sleep k)
    else if key_code == f.misson_ctl_fun && (not asus || not (key_code == f.kbrd_brightness_down))
    then (0, receive_gesture gesture_mission_control k)
    else if key_code == f.launchpad_fun && (not asus || not (key_code == f.kbrd_brightness_up))
    then (0, receive_gesture gesture_launchpad k)
    else if key_code == f.video_mirror
    then (0x50, k)
    else if key_code == f.disp_sleep && not (rate_limit k)
    then (f.disp_sleep, k)
    else if key_code == f.touchpad
    then (0, toggle_touchpad k)
    else if key_code == f.vol_mute
    then (0x4a, k)
    else if key_code == f.vol_down
    then (0x49, k)
    else if key_code == f.vol_up
    then (0x4c, k)
    else if key_code == f.media_play
    then (0x42, k)
    else (0, k)

-- The branch of a release. A notification of the touchpad comes in here with a function itself.
unfoldable pub fn_key_released : ℕ → Keyboard → ℕ × Keyboard
unfolding dispatch_key case_of
fn_key_released key_code k =
    if key_code == k.fn_keys.media_prev
    then (0, dispatch_key 0x34 false k)
    else if key_code == k.fn_keys.media_next
    then (0, dispatch_key 0x40 false k)
    else (case_of key_code ((0x10, 0x10) ∷ (0x20, 0x20) ∷ (0x49, 0x49) ∷ (0x4c, 0x4c) ∷ []) 0, k)

-- A level up or down, in finer steps with Shift and Option.
abbrev level_chords : Bool → ℕ → Keyboard → List (List ℕ)
level_chords finer code k =
    if finer then (0x38 ∷ adb k.modifiers.altkey k ∷ code ∷ []) ∷ [] else (code ∷ []) ∷ []

-- `switch (fnKeyCode)`: the keys that are pressed.
unfoldable pub fn_chords : ℕ → Keyboard → List (List ℕ)
fn_chords fn k =
    let brightness = k.options.use_finer_brightnes_ctrl in
    let volume = k.options.use_finer_volume_ctrl in
    if fn == 0x10
    then level_chords brightness 0x4d k
    else if fn == 0x20
    then level_chords brightness 0x4f k
    else if fn == 0x4c
    then level_chords volume 0x48 k
    else if fn == 0x49
    then level_chords volume 0x49 k
    else if fn == 0
    then []
    else (fn ∷ []) ∷ []

-- The display is put to sleep, or woken up, with Control, Shift and Eject.
unfoldable pub sleep_display : Keyboard → Keyboard
unfolding dispatch_chords toggle_touchpad set_display_sleep adb
sleep_display k =
    let ctl = adb k.modifiers.contrl_key k in
    set_display_sleep (not k.display_sleep)
      (toggle_touchpad (dispatch_chords ((ctl ∷ 0x38 ∷ 0x70 ∷ []) ∷ []) k))

unfoldable pub dispatch_fn_key : ℕ → Keyboard → Keyboard
unfolding fn_chords sleep_display dispatch_chords
dispatch_fn_key fn k =
    if fn == k.fn_keys.disp_sleep
      && not (fn == 0x10 || fn == 0x20 || fn == 0x4c || fn == 0x49 || fn == 0)
    then sleep_display k
    else dispatch_chords (fn_chords fn k) k

unfoldable pub set_last_event : Keyboard → Keyboard
set_last_event k = record k {
  last_event_secs = k.world.secs;
  last_event_microsecs = k.world.microsecs;
}

-- `processFnKeys`.
unfoldable pub process_fn_keys : ℕ → Bool → Keyboard → Keyboard
unfolding fn_key_pressed fn_key_released dispatch_fn_key set_last_event
process_fn_keys key_code true k =
    let (fn, k1) = fn_key_pressed key_code k in dispatch_fn_key fn (set_last_event k1)
process_fn_keys key_code false k =
    let (fn, k1) = fn_key_released key_code k in dispatch_fn_key fn (set_last_event k1)

-- "Keyboard".
abbrev keyboard_text : Text
keyboard_text = 0x4b ∷ 0x65 ∷ 0x79 ∷ 0x62 ∷ 0x6f ∷ 0x61 ∷ 0x72 ∷ 0x64 ∷ []

-- The name is changed if it is a beginning of that.
unfoldable pub rename : Option Text → Keyboard → Keyboard
unfolding emit starts
rename none k = k
rename (some name) k = if starts name keyboard_text then emit (set_product ∷ []) k else k

-- The case `kPS2C_InitKeyboard`.
unfoldable pub initialize_keyboard : Keyboard → Keyboard
unfolding rename init_backlight
initialize_keyboard k =
    let k1 = rename k.world.product k in
    if k1.enabled_asus_kbacklight then init_backlight k1 else k1

unfoldable pub set_16_levels : Keyboard → Keyboard
set_16_levels k = record k { asus_kb_has16_level_support = true }

-- The other cases of the `switch`.
unfoldable pub receive_other : ℕ → Keyboard → Keyboard
unfolding process_fn_keys set_enabled_asus_kbacklight set_16_levels initialize_keyboard
    backlight_off backlight_on set_is_tpad_enabled set_osx_version case_of
receive_other n k =
    case_of n
      ((brightness_down, process_fn_keys 0x20 false k)
        ∷ (brightness_up, process_fn_keys 0x10 false k)
        ∷ (enable_asus_kbacklight, set_enabled_asus_kbacklight true k)
        ∷ (enable_asus_kbacklight16_levels, set_16_levels k)
        ∷ (init_keyboard, initialize_keyboard k)
        ∷ (keybrd_back_light_off, backlight_off k)
        ∷ (keybrd_back_light_on, backlight_on k)
        ∷ (enable_touchpad, set_is_tpad_enabled true k)
        ∷ (osx_version_notify, set_osx_version 0 k)
        ∷ [])
      k

-- `receiveTouchpadNotifications`.
unfoldable pub receive_touchpad_notifications : ℕ → Keyboard → Keyboard
unfolding receive_gesture receive_other
receive_touchpad_notifications n k = receive_other n (receive_gesture n k)
