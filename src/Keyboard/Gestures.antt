-- ===== src/Keyboard/Gestures.antt =====
-- The shortcuts of `receiveTouchpadNotifications`: the keys that stand for a gesture.
--
-- A shortcut is a list of chords; the keys of a chord go down in order and up in reverse.
pub mod Held
use apple_ps2smart_touch_pad.Common.{
  ℕ, ◌+◌, ◌-◌, ◌^◌, ◌%◌, Bool, true, false, not, ◌&&◌, ◌||◌, List, [], ◌∷◌, ◌++◌, Option, none,
  some, ◌==◌, if◌then◌else◌, get_or, ltb, leb,
}
use apple_ps2smart_touch_pad.Keyboard.State.{
  extended_adb, adb, Keyboard, Modifiers, ModifierKey, alphalock, shift, control, alternate,
  command, other_modifier, dispatch_key, dispatch_sequence, set_release_gesture_key,
  set_osx_version,
}
use apple_ps2smart_touch_pad.Keyboard.Notices.{
  gesture_app_switch, gesture_app_close, gesture_launchpad, gesture_mission_control,
  gesture_dashboard, gesture_desktop_switch_left, gesture_desktop_switch_right, gesture_app_windows,
  gesture_minimize, gesture_full_screen, gesture_backward, gesture_forward, gesture_desktop,
  gesture_nc_shortcut, gesture_get_info, gesture_toggle_dock, gesture_zoom_reset, gesture_finder,
  gesture_force_quit, ext_fun_f13, ext_fun_f24, zoom_plus, zoom_minus, zoom_reset, rotate_left,
  rotate_right, release_cmd_key, esc, cntrl_key_down, cntrl_key_up,
}
use apple_ps2smart_touch_pad.Keyboard.Combinations.{case_of, process_key_combinations}

unfoldable pub chord : List ℕ → List (ℕ × Bool)
chord [] = []
chord (code ∷ codes) = (code, true) ∷ (chord codes ++ ((code, false) ∷ []))

unfoldable pub dispatch_chords : List (List ℕ) → Keyboard → Keyboard
unfolding chord dispatch_sequence
dispatch_chords [] k = k
dispatch_chords (codes ∷ chords) k = dispatch_chords chords (dispatch_sequence (chord codes) k)

-- `getModifiersPosition`.
abbrev pub get_modifiers_position : ModifierKey → ℕ
get_modifiers_position alphalock = 0x3a
get_modifiers_position shift = 0x2a
get_modifiers_position control = 0x1d
get_modifiers_position alternate = 0x38
get_modifiers_position command = 0x5b
get_modifiers_position (other_modifier n) = 0

-- A pair of source and destination.
abbrev pub map_modifier : ModifierKey → ModifierKey → Modifiers → Modifiers
map_modifier src command m = record m { command_key = get_modifiers_position src }
map_modifier src control m = record m { contrl_key = get_modifiers_position src }
map_modifier src alternate m = record m { altkey = get_modifiers_position src }
map_modifier src alphalock m = m
map_modifier src shift m = m
map_modifier src (other_modifier n) m = m

unfoldable pub map_modifiers : List (ModifierKey × ModifierKey) → Modifiers → Modifiers
map_modifiers [] m = m
map_modifiers ((src, dst) ∷ ps) m = map_modifiers ps (map_modifier src dst m)

-- An empty mapping means the defaults, a missing one leaves the keys as they are.
unfoldable pub mapped_modifiers : Option (List (ModifierKey × ModifierKey)) → Modifiers → Modifiers
unfolding map_modifiers
mapped_modifiers none m = m
mapped_modifiers (some []) m = record m { command_key = 0x5b; contrl_key = 0x1d; altkey = 0x38 }
mapped_modifiers (some (p ∷ ps)) m = map_modifiers (p ∷ ps) m

-- `readKeyboardModifiers`: at most once in four seconds. `now` is when the last key was dispatched.
unfoldable pub read_keyboard_modifiers : Keyboard → Keyboard
unfolding mapped_modifiers
read_keyboard_modifiers k =
    let last = k.modifiers.last_modifiers_read_time in
    let elapsed = (k.now + 2 ^ 64 - last) % 2 ^ 64 in
    if ltb 4000000000 elapsed || last == 0
    then record k {
      modifiers = record (mapped_modifiers k.world.modifier_pairs k.modifiers) {
        last_modifiers_read_time = k.now;
      };
    }
    else k

-- The labels of the first `switch`.
abbrev reads_modifiers : ℕ → Bool
reads_modifiers n =
    n == 1
    || n == 2
    || leb 6 n && leb n 16
    || leb 18 n && leb n 32
    || leb 36 n && leb n 41
    || leb 53 n && leb n 55
    || n == 70
    || n == 71

abbrev iso_modifiers : Keyboard → Bool
iso_modifiers k =
    k.typing.keyboard_type_id == 0x30
    || k.typing.keyboard_type_id == 0x31
    || k.typing.keyboard_type_id == 0x34

-- The keys for `Backward` and `Forward`: a bracket, or an arrow on the first French keyboard.
unfoldable pub swipe_chords : ℕ → ℕ → Keyboard → List (List ℕ)
unfolding extended_adb
swipe_chords bracket arrow k =
    let cmd = extended_adb k.modifiers.command_key k in
    if iso_modifiers k
    then (cmd ∷ extended_adb k.modifiers.altkey k ∷ bracket ∷ []) ∷ []
    else if k.typing.keyboard_type_id == 0x32
    then (extended_adb k.modifiers.contrl_key k ∷ arrow ∷ []) ∷ []
    else (cmd ∷ bracket ∷ []) ∷ []

-- The later ones of the cases below, and ESC.
unfoldable pub later_chords : ℕ → Keyboard → List (List ℕ)
unfolding extended_adb swipe_chords case_of
later_chords n k =
    let cmd = extended_adb k.modifiers.command_key k in
    let ctl = extended_adb k.modifiers.contrl_key k in
    let alt = extended_adb k.modifiers.altkey k in
    let old = ltb k.osx_version 12 in
    case_of n
      ((
        gesture_full_screen,
        if k.typing.keyboard_type_id == 0x30 || k.typing.keyboard_type_id == 0x31
            then (alt ∷ cmd ∷ 0x03 ∷ []) ∷ (ctl ∷ []) ∷ []
            else (ctl ∷ cmd ∷ 0x03 ∷ []) ∷ (ctl ∷ []) ∷ [],
      )
        ∷ (gesture_backward, swipe_chords k.typing.iso_lsquare_bracket 0x7b k)
        ∷ (gesture_forward, swipe_chords k.typing.iso_rsquare_bracket 0x7c k)
        ∷ (gesture_desktop, if old then (cmd ∷ 0xa0 ∷ []) ∷ (cmd ∷ []) ∷ [] else (0x67 ∷ []) ∷ [])
        ∷ (gesture_nc_shortcut, (cmd ∷ ctl ∷ 0x38 ∷ 0x2d ∷ []) ∷ (cmd ∷ []) ∷ [])
        ∷ (gesture_get_info, (cmd ∷ 0x22 ∷ []) ∷ (cmd ∷ []) ∷ [])
        ∷ (gesture_toggle_dock, (alt ∷ cmd ∷ 0x02 ∷ []) ∷ (alt ∷ []) ∷ [])
        ∷ (gesture_finder, (alt ∷ cmd ∷ 0x31 ∷ []) ∷ (alt ∷ []) ∷ [])
        ∷ (gesture_force_quit, (alt ∷ cmd ∷ 0x35 ∷ []) ∷ (alt ∷ []) ∷ [])
        ∷ (esc, (0x35 ∷ []) ∷ [])
        ∷ [])
      []

-- The cases of the second `switch` that press keys and release them again, with the extra press
-- and release of `releaseKey`.
unfoldable pub gesture_chords : ℕ → Keyboard → List (List ℕ)
unfolding extended_adb later_chords case_of
gesture_chords n k =
    let cmd = extended_adb k.modifiers.command_key k in
    let ctl = extended_adb k.modifiers.contrl_key k in
    let old = ltb k.osx_version 12 in
    let zoom_reset_chords = (cmd ∷ 0x1d ∷ []) ∷ (cmd ∷ []) ∷ [] in
    case_of n
      ((zoom_plus, (cmd ∷ 0x45 ∷ []) ∷ (cmd ∷ []) ∷ [])
        ∷ (zoom_minus, (cmd ∷ 0x4e ∷ []) ∷ (cmd ∷ []) ∷ [])
        ∷ (gesture_zoom_reset, zoom_reset_chords)
        ∷ (zoom_reset, zoom_reset_chords)
        ∷ (rotate_left, (cmd ∷ 0x25 ∷ []) ∷ (cmd ∷ []) ∷ [])
        ∷ (rotate_right, (cmd ∷ 0x0f ∷ []) ∷ (cmd ∷ []) ∷ [])
        ∷ (gesture_app_close, (cmd ∷ k.typing.letter_q ∷ []) ∷ (cmd ∷ []) ∷ [])
        ∷ (gesture_launchpad, if old then (131 ∷ []) ∷ [] else (cmd ∷ ctl ∷ 0x38 ∷ 0x25 ∷ []) ∷ [])
        ∷ (gesture_mission_control, if old then (160 ∷ []) ∷ [] else (ctl ∷ 0x7e ∷ []) ∷ [])
        ∷ (gesture_dashboard, if old then (130 ∷ []) ∷ [] else (0x6f ∷ []) ∷ [])
        ∷ (gesture_desktop_switch_left, (ctl ∷ 0x7b ∷ []) ∷ (ctl ∷ []) ∷ [])
        ∷ (gesture_desktop_switch_right, (ctl ∷ 0x7c ∷ []) ∷ (ctl ∷ []) ∷ [])
        ∷ (
          gesture_app_windows,
          if old then (ctl ∷ 0xa0 ∷ []) ∷ (ctl ∷ []) ∷ [] else (cmd ∷ ctl ∷ 0x38 ∷ 0x00 ∷ []) ∷ [],
        )
        ∷ (gesture_minimize, (cmd ∷ k.typing.letter_m ∷ []) ∷ (cmd ∷ []) ∷ [])
        ∷ [])
      (later_chords n k)

-- The extended functions, which are gestures too: the combination down, then up.
unfoldable pub gesture_combination : ℕ → Keyboard → Keyboard
unfolding process_key_combinations
gesture_combination n k =
    let keys = get_or k.fx (n - ext_fun_f13) none in
    process_key_combinations keys false true (process_key_combinations keys true true k)

-- The cases that leave the command key or the control key down, or take it up again.
unfoldable pub gesture_modifier : ℕ → Keyboard → Keyboard
unfolding set_release_gesture_key extended_adb dispatch_key dispatch_chords read_keyboard_modifiers
    adb
gesture_modifier n k =
    let cmd = extended_adb k.modifiers.command_key k in
    let k1 = read_keyboard_modifiers k in
    let ctl = adb k1.modifiers.contrl_key k1 in
    let k2 = dispatch_key ctl false k1 in
    if n == gesture_app_switch
    then set_release_gesture_key true (dispatch_chords ((0x30 ∷ []) ∷ []) (dispatch_key cmd true k))
    else if n == release_cmd_key
    then set_release_gesture_key false
        (dispatch_chords ((cmd ∷ []) ∷ []) (dispatch_key cmd false k))
    else if n == cntrl_key_down
    then dispatch_key ctl true k1
    else if n == cntrl_key_up
    then dispatch_chords ((extended_adb k2.modifiers.contrl_key k2 ∷ []) ∷ []) k2
    else k

-- The start of `receiveTouchpadNotifications`. The notification behind `kPS2C_OSXVersionNotify` is
-- the version, and counts as a notification all the same.
unfoldable pub prepared : ℕ → Keyboard → Keyboard
unfolding set_osx_version read_keyboard_modifiers
prepared n k =
    let k1 = if k.osx_version == 0 then set_osx_version n k else k in
    if reads_modifiers n then read_keyboard_modifiers k1 else k1

-- `receiveTouchpadNotifications` up to the end of these cases.
unfoldable pub receive_gesture : ℕ → Keyboard → Keyboard
unfolding prepared gesture_chords dispatch_chords gesture_combination gesture_modifier
receive_gesture n k =
    let k1 = prepared n k in
    if leb ext_fun_f13 n && leb n ext_fun_f24
    then gesture_combination n k1
    else gesture_modifier n (dispatch_chords (gesture_chords n k1) k1)
