-- ===== src/Drivers/Switcher.antt =====
-- The switcher of applications: the swipe that opens it holds the command key down.
use apple_ps2smart_touch_pad.Common.{
  ℕ, true, false, [], ◌∷◌, ◌≡◌, ◌≢◌, refl, ap, ◌∙◌, arith, ◌==◌, if_holds, ◌⊎◌, inl, inr,
  Bool-cases,
}
use apple_ps2smart_touch_pad.Keyboard.State.{
  Keyboard, extended_adb, dispatch_key, set_release_gesture_key, set_osx_version, emit,
}
use apple_ps2smart_touch_pad.Keyboard.Combinations.{case_of}
use apple_ps2smart_touch_pad.Keyboard.Gestures.{
  prepared, receive_gesture, gesture_modifier, gesture_chords, later_chords, dispatch_chords, chord,
}
use apple_ps2smart_touch_pad.Keyboard.Gestures.Held.{
  is_held, is_held-dispatch_key, is_held-dispatch_chords, is_held-prepared,
  is_held-set_release_gesture_key,
}
use apple_ps2smart_touch_pad.Keyboard.Functions.{receive_touchpad_notifications, receive_other}

-- The command key as the keyboard driver knows it now.
abbrev command_code : Keyboard → ℕ
command_code k = extended_adb k.modifiers.command_key k

opened : (k : Keyboard) → Keyboard
opened k = dispatch_chords ((0x30 ∷ []) ∷ []) (dispatch_key (command_code k) true k)

closed : (k : Keyboard) → Keyboard
closed k = dispatch_chords ((command_code k ∷ []) ∷ []) (dispatch_key (command_code k) false k)

receive_app_switch :
    (k : Keyboard)
    → receive_touchpad_notifications 1 k ≡ set_release_gesture_key true (opened (prepared 1 k))
unfolding receive_touchpad_notifications receive_other receive_gesture gesture_modifier
    gesture_chords later_chords dispatch_chords case_of opened
receive_app_switch k = refl

receive_release :
    (k : Keyboard)
    → receive_touchpad_notifications 45 k ≡ set_release_gesture_key false (closed (prepared 45 k))
unfolding receive_touchpad_notifications receive_other receive_gesture gesture_modifier
    gesture_chords later_chords dispatch_chords case_of closed
receive_release k = refl

-- The command key is the same when the switcher closes.
same_command :
    (k : Keyboard)
    → command_code (prepared 45 (set_release_gesture_key true (opened k))) ≡ command_code k
unfolding prepared opened dispatch_chords dispatch_key emit set_release_gesture_key set_osx_version
    extended_adb
same_command k = if_holds (λ j. command_code j ≡ command_code k) (k.osx_version == 0) _ _ refl refl

-- While the switcher is open the command key is held.
opened_holds : (k : Keyboard) → command_code k ≢ 0x30 → is_held (command_code k) (opened k) ≡ true
unfolding opened dispatch_chords chord
opened_holds k h =
    let cmd = command_code k in
    let k1 = dispatch_key cmd true k in
    let k2 = dispatch_key 0x30 true k1 in
    ground (
      arith,
      is_held-dispatch_key cmd cmd true k,
      is_held-dispatch_key cmd 0x30 true k1,
      is_held-dispatch_key cmd 0x30 false k2,
    )

-- No other key is.
opened_releases :
    (code : ℕ) (k : Keyboard)
    → is_held code k ≡ false
    → (command_code k == code) ≡ false
    → is_held code (opened k) ≡ false
unfolding opened
opened_releases code k up other =
    let k1 = dispatch_key (command_code k) true k in
    is_held-dispatch_chords code ((0x30 ∷ []) ∷ []) k1
      (ground (arith, is_held-dispatch_key code (command_code k) true k))

closed_releases :
    (code : ℕ) (k : Keyboard)
    → (command_code k == code) ≡ true ⊎ is_held code k ≡ false
    → is_held code (closed k) ≡ false
unfolding closed
closed_releases code k up =
    let cmd = command_code k in
    is_held-dispatch_chords code ((cmd ∷ []) ∷ []) (dispatch_key cmd false k)
      (ground (arith, is_held-dispatch_key code cmd false k))

-- Opened and closed, the switcher leaves no key held that was not.
pub switcher_releases :
    (code : ℕ) (k : Keyboard)
    → is_held code k ≡ false
    → is_held code (receive_touchpad_notifications 45 (receive_touchpad_notifications 1 k)) ≡ false
switcher_releases code k up =
    let k1 = prepared 1 k in
    let k2 = set_release_gesture_key true (opened k1) in
    let k3 = prepared 45 k2 in
    let u1 : is_held code k1 ≡ false = is_held-prepared code 1 k ∙ up in
    let same : command_code k3 ≡ command_code k1 = same_command k1 in
    let u3 : is_held code k3 ≡ is_held code (opened k1) =
      is_held-prepared code 45 k2 ∙ is_held-set_release_gesture_key code true (opened k1) in
    let end : (command_code k3 == code) ≡ true ⊎ is_held code k3 ≡ false =
      elim (Bool-cases (command_code k1 == code)) [
        | inl e ↦ inl (ap (λ c. c == code) same ∙ e)
        | inr e ↦ inr (u3 ∙ opened_releases code k1 u1 e)
      ] in
    ap (λ j. is_held code (receive_touchpad_notifications 45 j)) (receive_app_switch k)
    ∙ ap (is_held code) (receive_release k2)
    ∙ is_held-set_release_gesture_key code false (closed k3)
    ∙ closed_releases code k3 end
