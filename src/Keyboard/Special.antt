-- ===== src/Keyboard/Special.antt =====
-- Keys of ApplePS2Keyboard.cpp that are not typed: `ToggleTouchpadFeatures`,
-- `ProcessExtendedFunctions`, `generateAndSeeADBCode`, `MapGermanTurkishKeyboardLayout`.
pub mod Generated
use apple_ps2smart_touch_pad.Common.{
  ℕ, ◌+◌, ◌*◌, ◌%◌, ◌≡◌, Bool, true, false, not, ◌&&◌, ◌||◌, List, [], ◌∷◌, Option, none, some,
  ◌==◌, if◌then◌else◌, ltb, get_or,
}
use apple_ps2smart_touch_pad.Keyboard.State.{
  adb, Keyboard, FnKeys, Options, Text, dispatch_key, dispatch_notice, fault,
}
use apple_ps2smart_touch_pad.Keyboard.Vector.{kbv_is_keydown}
use apple_ps2smart_touch_pad.Keyboard.Notices.{
  scroll_lock_auto, scroll_lock_inertia, scroll_lock_continuous, edge_scroll, gestures_1f_swipes,
  gestures_double_taps, gestures_3f_swipes, gestures_rotate, gestures_zoom, restore_touchpad,
}
use apple_ps2smart_touch_pad.Keyboard.Combinations.{case_of, process_key_combinations}
use apple_ps2smart_touch_pad.Keyboard.Gestures.{dispatch_chords}
use apple_ps2smart_touch_pad.Keyboard.Config.{
  read_extended_functions_config, read_fn_key_config, read_fn_key_layout,
}
use apple_ps2smart_touch_pad.Keyboard.Lights.{set_alpha_lock_feedback}

unfoldable pub set_options : Options → Keyboard → Keyboard
set_options o k = record k { options = o }

unfoldable pub set_fn_keys : FnKeys → Keyboard → Keyboard
set_fn_keys f k = record k { fn_keys = f }

-- The next mode of the Fn keys; the first mode has no sleep key.
unfoldable pub next_mode : FnKeys → FnKeys
next_mode f =
    let mode =
      if ltb f.fn_keys_mode_num 3
      then f.fn_keys_mode_num + 1
      else if f.fn_keys_mode_num == 3
      then 1
      else f.fn_keys_mode_num in
    record f { fn_keys_mode_num = mode; system_sleep = if ltb mode 2 then 0 else f.system_sleep }

-- The case of the key F.
unfoldable pub change_fn_mode : Bool → Keyboard → Keyboard
unfolding next_mode set_fn_keys read_fn_key_config read_fn_key_layout
change_fn_mode down k =
    let k1 = read_fn_key_config (set_fn_keys (next_mode k.fn_keys) k) in
    if not (k.fn_keys.fn_keys_mode_num == 0) && down
    then (if k1.fn_keys.fn_keys_mode_num == 3 then read_fn_key_layout k1 else k1)
    else k

-- The cases that toggle an option or change the mode; the debug logs are not modelled.
unfoldable pub toggle_option : ℕ → Bool → Keyboard → Keyboard
unfolding set_options change_fn_mode read_extended_functions_config case_of
toggle_option key_code down k =
    let o = k.options in
    let toggle : Bool → Bool = λ b. if down then not b else b in
    let extended =
      set_options (record o { has_extend_functions = toggle o.has_extend_functions }) k in
    case_of key_code
      ((
        0x2d,
        if extended.options.has_extend_functions
            then read_extended_functions_config extended
            else extended,
      )
        ∷ (0x25, set_options (record o { macintosh_mode = toggle o.macintosh_mode }) k)
        ∷ (0x21, change_fn_mode down k)
        ∷ (
          0x2f,
          set_options (record o { use_finer_volume_ctrl = toggle o.use_finer_volume_ctrl }) k,
        )
        ∷ (
          0x30,
          set_options (record o { use_finer_brightnes_ctrl = toggle o.use_finer_brightnes_ctrl }) k,
        )
        ∷ [])
      k

-- The cases with a notification; none for the cases without, which are feature keys as well.
unfoldable pub feature_of : ℕ → Option ℕ
unfolding case_of
feature_of key_code =
    case_of key_code
      ((0x1e, some scroll_lock_auto)
        ∷ (0x17, some scroll_lock_inertia)
        ∷ (0x2e, some scroll_lock_continuous)
        ∷ (0x1f, some edge_scroll)
        ∷ (0x12, some gestures_1f_swipes)
        ∷ (0x14, some gestures_double_taps)
        ∷ (0x32, some gestures_3f_swipes)
        ∷ (0x10, some gestures_rotate)
        ∷ (0x2c, some gestures_zoom)
        ∷ (0x20, some 0)
        ∷ (0x2d, some 0)
        ∷ (0x25, some 0)
        ∷ (0x21, some 0)
        ∷ (0x01, some restore_touchpad)
        ∷ (0x2f, some 0)
        ∷ (0x30, some 0)
        ∷ [])
      none

-- `ToggleTouchpadFeatures`: the Caps Lock LED is on while a feature key is down.
unfoldable pub toggle_touchpad_features : ℕ → Bool → Keyboard → Keyboard
unfolding toggle_option feature_of dispatch_notice set_alpha_lock_feedback
toggle_touchpad_features key_code down k =
    let k1 = toggle_option key_code down k in
    elim (feature_of key_code) as (λ x. Keyboard) [
      | none ↦ k1
      | some feature ↦
          set_alpha_lock_feedback down
            (if down && not (feature == 0) then dispatch_notice feature k1 else k1)
    ]

-- A function key with Shift: its place in `fx`, and the code of its own if it has one.
unfoldable pub extended_function_of : ℕ → Option (ℕ × ℕ)
unfolding case_of
extended_function_of key_code =
    case_of key_code
      ((0x3b, some (0, 0x64))
        ∷ (0x3c, some (1, 0x65))
        ∷ (0x3d, some (2, 0x66))
        ∷ (0x3e, some (3, 0x67))
        ∷ (0x3f, some (4, 0x68))
        ∷ (0x40, some (5, 0x69))
        ∷ (0x41, some (6, 0x6a))
        ∷ (0x42, some (7, 0x6b))
        ∷ (0x43, some (8, 0x0))
        ∷ (0x44, some (9, 0x0))
        ∷ (0x57, some (10, 0x0))
        ∷ (0x58, some (11, 0x0))
        ∷ [])
      none

-- The key of an extended function without a combination: Shift is up while it is down.
unfoldable pub dispatch_function : ℕ → Bool → Keyboard → Keyboard
unfolding dispatch_key adb
dispatch_function code true k = dispatch_key (adb code k) true (dispatch_key (adb 0x2a k) false k)
dispatch_function code false k = dispatch_key (adb 0x2a k) true (dispatch_key (adb code k) false k)

-- `ProcessExtendedFunctions`. A function that is missing in the configuration is a null pointer,
-- whose length is asked for.
unfoldable pub process_extended_functions : ℕ → Bool → Keyboard → Bool × Keyboard
unfolding extended_function_of process_key_combinations dispatch_function
process_extended_functions key_code down k =
    elim (extended_function_of key_code) as (λ x. Bool × Keyboard) [
      | none ↦ (false, k)
      | some (i, own) ↦ (
        true,
        elim (get_or k.fx i none) as (λ x. Keyboard) [
          | none ↦ fault k
          | some [] ↦ if own == 0 then k else dispatch_function own down k
          | some (c ∷ keys) ↦ process_key_combinations (some (c ∷ keys)) down false k
        ],
      )
    ]

-- The digit of a key of the keypad; another key leaves what was there.
unfoldable pub digit_of : ℕ → ℕ → ℕ
unfolding case_of
digit_of key_code generated =
    case_of key_code
      ((0x52, 0)
        ∷ (0x4f, 1)
        ∷ (0x50, 2)
        ∷ (0x51, 3)
        ∷ (0x4b, 4)
        ∷ (0x4c, 5)
        ∷ (0x4d, 6)
        ∷ (0x47, 7)
        ∷ (0x48, 8)
        ∷ (0x49, 9)
        ∷ [])
      generated

unfoldable pub set_codes : ℕ → ℕ → ℕ → Keyboard → Keyboard
set_codes generated temp1 temp2 k = record k {
  generated_code = generated;
  temp_code1 = temp1;
  temp_code2 = temp2;
}

-- A digit is entered: `_generatedCode`, `_tempCode1` and `_tempCode2`, which are bytes. A second
-- digit 0 is kept as 10.
unfoldable pub enter_digit : ℕ → ℕ → ℕ → ℕ × ℕ × ℕ
enter_digit d t1 t2 =
    let second = if t2 == 10 then 0 else t2 in
    if t1 == 0
    then (d, d, 0)
    else if t2 == 0
    then ((t1 * 10 + d) % 256, t1, if d == 0 then 10 else d)
    else ((t1 * 100 + second * 10 + d) % 256, t1, second)

-- `generateAndSeeADBCode`.
unfoldable pub generate_and_see_adb_code : ℕ → Bool → Keyboard → Keyboard
unfolding digit_of enter_digit set_codes dispatch_chords
generate_and_see_adb_code key_code true k =
    let (g, t1, t2) = enter_digit (digit_of key_code k.generated_code) k.temp_code1 k.temp_code2 in
    set_codes g t1 t2 k
generate_and_see_adb_code key_code false k =
    if k.generated_code == 0
    then k
    else set_codes 0 0 0 (dispatch_chords ((k.generated_code ∷ []) ∷ []) k)

-- The key of the Apple layout for a key of the German and Turkish ones.
unfoldable pub german_turkish_key : ℕ → Option ℕ
unfolding case_of
german_turkish_key key_code =
    case_of key_code
      ((0x08, some 0x09)
        ∷ (0x09, some 0x06)
        ∷ (0x0a, some 0x07)
        ∷ (0x0b, some 0x0a)
        ∷ (0x0c, some 0x08)
        ∷ (0x1b, some 0x31)
        ∷ (0x10, some 0x26)
        ∷ (0x56, some 0x08)
        ∷ [])
      none

unfoldable pub set_german_turkish_layout : Bool → Keyboard → Keyboard
set_german_turkish_layout b k = record k { german_turkish_layout = b }

-- The control key, if it is down, is up while the key is down.
unfoldable pub dispatch_without_control : ℕ → Bool → Keyboard → Keyboard
unfolding dispatch_key adb
dispatch_without_control code down k =
    let ctl = k.modifiers.contrl_key in
    let held = kbv_is_keydown ctl k.key_bit_vector in
    let k1 = if held && down then dispatch_key (adb ctl k) false k else k in
    let k2 = dispatch_key (adb code k) down k1 in
    if held && not down then dispatch_key (adb ctl k) true k2 else k2

-- `MapGermanTurkishKeyboardLayout`: the key code that is left to be dispatched.
unfoldable pub map_german_turkish_keyboard_layout : ℕ → Bool → Keyboard → ℕ × Keyboard
unfolding german_turkish_key set_german_turkish_layout dispatch_without_control dispatch_key adb
map_german_turkish_keyboard_layout key_code down k =
    elim (german_turkish_key key_code) as (λ x. ℕ × Keyboard) [
      | none ↦ (key_code, set_german_turkish_layout false k)
      | some code ↦
          let k1 = set_german_turkish_layout true k in
          let k2 = if key_code == 0x0c then dispatch_key (adb 0x2a k) down k1 else k1 in
          (0, dispatch_without_control code down k2)
    ]
