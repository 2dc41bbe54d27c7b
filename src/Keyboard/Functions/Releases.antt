-- ===== src/Keyboard/Functions/Releases.antt =====
-- The keys that a notification leaves held.
use apple_ps2smart_touch_pad.Common.{
  ℕ, Bool, true, false, not, List, [], ◌∷◌, Option, none, some, ◌≡◌, ◌≢◌, refl, ◌∙◌, arith,
  if◌then◌else◌, ltb,
}
use apple_ps2smart_touch_pad.Keyboard.State.{
  adb, Keyboard, notify, set_backlight, set_product, dispatch_key, dispatch_notice,
}
use apple_ps2smart_touch_pad.Keyboard.Gestures.{dispatch_chords, receive_gesture}
use apple_ps2smart_touch_pad.Keyboard.Gestures.Held.{
  held_from, is_held, is_held-emit, is_held-dispatch_key, is_held-dispatch_chords,
  receive_gesture_releases, is_held-set_osx_version,
}
use apple_ps2smart_touch_pad.Keyboard.Combinations.{case_of}
use apple_ps2smart_touch_pad.Keyboard.Backlight.{
  kblight_of, read_asus_kblight, reread_level, set_asus_kblight, restore_level,
  set_enabled_asus_kbacklight, set_kbrd_back_light_lvl, init_backlight, backlight_off, backlight_on,
}
use apple_ps2smart_touch_pad.Keyboard.Functions.{
  set_is_tpad_enabled, set_display_sleep, sleep_display, fn_chords, rename, toggle_touchpad,
  set_last_event, dispatch_fn_key, fn_key_released, process_fn_keys, initialize_keyboard,
  set_16_levels, receive_other, receive_touchpad_notifications,
}

if_up :
    (code : ℕ) (b : Bool) (x y : Keyboard)
    → is_held code x ≡ false
    → is_held code y ≡ false
    → is_held code (if b then x else y) ≡ false
if_up code true x y p q = p
if_up code false x y p q = q

module _ (code : ℕ) where
  is_held-dispatch_notice :
      (n : ℕ) (k : Keyboard) → is_held code (dispatch_notice n k) ≡ is_held code k
  unfolding dispatch_notice held_from
  is_held-dispatch_notice n k = is_held-emit code (notify n ∷ []) k

  is_held-set_is_tpad_enabled :
      (b : Bool) (k : Keyboard) → is_held code (set_is_tpad_enabled b k) ≡ is_held code k
  unfolding is_held set_is_tpad_enabled
  is_held-set_is_tpad_enabled b k = refl

  is_held-toggle_touchpad : (k : Keyboard) → is_held code (toggle_touchpad k) ≡ is_held code k
  unfolding toggle_touchpad
  is_held-toggle_touchpad k =
      is_held-dispatch_notice (if k.is_tpad_enabled then 37 else 36)
        (set_is_tpad_enabled (not k.is_tpad_enabled) k)
      ∙ is_held-set_is_tpad_enabled (not k.is_tpad_enabled) k

  is_held-set_display_sleep :
      (b : Bool) (k : Keyboard) → is_held code (set_display_sleep b k) ≡ is_held code k
  unfolding is_held set_display_sleep
  is_held-set_display_sleep b k = refl

  is_held-set_last_event : (k : Keyboard) → is_held code (set_last_event k) ≡ is_held code k
  unfolding is_held set_last_event
  is_held-set_last_event k = refl

  is_held-set_enabled_asus_kbacklight :
      (b : Bool) (k : Keyboard) → is_held code (set_enabled_asus_kbacklight b k) ≡ is_held code k
  unfolding is_held set_enabled_asus_kbacklight
  is_held-set_enabled_asus_kbacklight b k = refl

  is_held-set_kbrd_back_light_lvl :
      (b : ℕ) (k : Keyboard) → is_held code (set_kbrd_back_light_lvl b k) ≡ is_held code k
  unfolding is_held set_kbrd_back_light_lvl
  is_held-set_kbrd_back_light_lvl b k = refl

  is_held-set_16_levels : (k : Keyboard) → is_held code (set_16_levels k) ≡ is_held code k
  unfolding is_held set_16_levels
  is_held-set_16_levels k = refl

  is_held-rename :
      (name : Option (List ℕ)) (k : Keyboard) → is_held code (rename name k) ≡ is_held code k
  unfolding rename held_from
  is_held-rename none k = refl
  is_held-rename (some name) k = ground (arith, is_held-emit code (set_product ∷ []) k)

  is_held-sleep_display :
      (k : Keyboard) → is_held code k ≡ false → is_held code (sleep_display k) ≡ false
  unfolding sleep_display
  is_held-sleep_display k up =
      let chords = (adb k.modifiers.contrl_key k ∷ 0x38 ∷ 0x70 ∷ []) ∷ [] in
      let k1 = dispatch_chords chords k in
      is_held-set_display_sleep (not k.display_sleep) (toggle_touchpad k1)
      ∙ is_held-toggle_touchpad k1
      ∙ is_held-dispatch_chords code chords k up

  is_held-dispatch_fn_key :
      (fn : ℕ) (k : Keyboard) → is_held code k ≡ false → is_held code (dispatch_fn_key fn k) ≡ false
  unfolding dispatch_fn_key
  is_held-dispatch_fn_key fn k up =
      if_up code _ _ _ (is_held-sleep_display k up)
        (is_held-dispatch_chords code (fn_chords fn k) k up)

  is_held-release :
      (c : ℕ) (k : Keyboard)
      → is_held code k ≡ false
      → is_held code (dispatch_key c false k) ≡ false
  is_held-release c k up = ground (arith, is_held-dispatch_key code c false k)

  is_held-fn_key_released :
      (c : ℕ) (k : Keyboard) → is_held code k ≡ false → is_held code (fn_key_released c k).1 ≡ false
  unfolding fn_key_released
  is_held-fn_key_released c k up =
      ground (arith, is_held-release 0x34 k up, is_held-release 0x40 k up)

  is_held-process_fn_keys :
      (c : ℕ) (k : Keyboard)
      → is_held code k ≡ false
      → is_held code (process_fn_keys c false k) ≡ false
  unfolding process_fn_keys
  is_held-process_fn_keys c k up =
      let r = fn_key_released c k in
      is_held-dispatch_fn_key r.0 (set_last_event r.1)
        (is_held-set_last_event r.1 ∙ is_held-fn_key_released c k up)

  is_held-set_asus_kblight :
      (level : ℕ) (k : Keyboard) → is_held code (set_asus_kblight level k) ≡ is_held code k
  unfolding set_asus_kblight held_from
  is_held-set_asus_kblight level k = ground (
    arith,
    is_held-emit code (set_backlight level ∷ []) k,
    is_held-set_enabled_asus_kbacklight false k,
  )

  is_held-kblight_of :
      (answer : Option ℕ) (k : Keyboard) → is_held code (kblight_of answer k).1 ≡ is_held code k
  unfolding kblight_of
  is_held-kblight_of none k = is_held-set_enabled_asus_kbacklight false k
  is_held-kblight_of (some level) k = is_held-set_enabled_asus_kbacklight true k

  is_held-reread_level : (k : Keyboard) → is_held code (reread_level k) ≡ is_held code k
  unfolding reread_level read_asus_kblight
  is_held-reread_level k =
      let r = kblight_of (k.world.gkbl 0) k in
      is_held-set_kbrd_back_light_lvl r.0 r.1 ∙ is_held-kblight_of (k.world.gkbl 0) k

  is_held-restore_level :
      (kept : ℕ) (k : Keyboard)
      → is_held code k ≡ false
      → is_held code (restore_level kept k) ≡ false
  unfolding restore_level
  is_held-restore_level kept k up =
      let level = if ltb 16 kept then 1 else k.kbrd_back_light_lvl in
      if_up code _ _ _
        (is_held-set_asus_kblight level (set_kbrd_back_light_lvl level k)
          ∙ is_held-set_kbrd_back_light_lvl level k
          ∙ up)
        (is_held-reread_level k ∙ up)

  is_held-init_backlight :
      (k : Keyboard) → is_held code k ≡ false → is_held code (init_backlight k) ≡ false
  unfolding init_backlight
  is_held-init_backlight k up =
      let k1 = set_asus_kblight 0xea (reread_level k) in
      let k2 = restore_level k.kbrd_back_light_lvl k1 in
      let u1 : is_held code k1 ≡ false =
        is_held-set_asus_kblight 0xea (reread_level k) ∙ is_held-reread_level k ∙ up in
      let u2 : is_held code k2 ≡ false = is_held-restore_level k.kbrd_back_light_lvl k1 u1 in
      if_up code _ _ _ (is_held-dispatch_notice 70 k2 ∙ u2) u2

  is_held-initialize_keyboard :
      (k : Keyboard) → is_held code k ≡ false → is_held code (initialize_keyboard k) ≡ false
  unfolding initialize_keyboard
  is_held-initialize_keyboard k up =
      let k1 = rename k.world.product k in
      let u1 : is_held code k1 ≡ false = is_held-rename k.world.product k ∙ up in
      if_up code _ _ _ (is_held-init_backlight k1 u1) u1

  is_held-backlight_off :
      (k : Keyboard) → is_held code k ≡ false → is_held code (backlight_off k) ≡ false
  unfolding backlight_off
  is_held-backlight_off k up =
      if_up code _ _ _
        (is_held-dispatch_notice 73 (set_asus_kblight 0xed k)
          ∙ is_held-set_asus_kblight 0xed k
          ∙ up)
        up

  is_held-backlight_on :
      (k : Keyboard) → is_held code k ≡ false → is_held code (backlight_on k) ≡ false
  unfolding backlight_on read_asus_kblight
  is_held-backlight_on k up =
      let k1 = (kblight_of (k.world.gkbl 0xff) k).1 in
      let u1 : is_held code k1 ≡ false = is_held-kblight_of (k.world.gkbl 0xff) k ∙ up in
      let k2 = reread_level k1 in
      let u2 : is_held code k2 ≡ false = is_held-reread_level k1 ∙ u1 in
      if_up code _ _ _ up (
        if_up code _ _ _ u1 (
          if_up code _ _ _
            (is_held-dispatch_notice 72 (set_asus_kblight 0xea k2)
              ∙ is_held-set_asus_kblight 0xea k2
              ∙ u2)
            u2))

  is_held-receive_other :
      (n : ℕ) (k : Keyboard) → is_held code k ≡ false → is_held code (receive_other n k) ≡ false
  unfolding receive_other case_of
  is_held-receive_other n k up = if_up code _ _ _ (is_held-process_fn_keys 0x20 k up) (
      if_up code _ _ _ (is_held-process_fn_keys 0x10 k up) (
        if_up code _ _ _ (is_held-set_enabled_asus_kbacklight true k ∙ up) (
          if_up code _ _ _ (is_held-set_16_levels k ∙ up) (
            if_up code _ _ _ (is_held-initialize_keyboard k up) (
              if_up code _ _ _ (is_held-backlight_off k up) (
                if_up code _ _ _ (is_held-backlight_on k up) (
                  if_up code _ _ _ (is_held-set_is_tpad_enabled true k ∙ up)
                    (if_up code _ _ _ (is_held-set_osx_version code 0 k ∙ up) up))))))))

  -- No notification leaves a key held that was not, but the two that hold a modifier: the switch
  -- of applications and the control key that goes down.
  pub receive_touchpad_notifications_releases :
      (n : ℕ) (k : Keyboard)
      → is_held code k ≡ false
      → n ≢ 1
      → n ≢ 62
      → is_held code (receive_touchpad_notifications n k) ≡ false
  unfolding receive_touchpad_notifications
  receive_touchpad_notifications_releases n k up h1 h2 =
      is_held-receive_other n (receive_gesture n k) (receive_gesture_releases code n k up h1 h2)
