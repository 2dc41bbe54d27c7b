-- ===== src/Touchpad/Timers/Kept.antt =====
-- The buttons in the driver's state, through the notifications and the timers: they are let go or left.
use apple_ps2smart_touch_pad.Common.{
  ℕ, Bool, false, ◌&&◌, List, ◌==◌, ◌≡◌, ◌⊎◌, inl, refl, if_holds, Holds,
}
use apple_ps2smart_touch_pad.Keyboard.Combinations.{Cases}
use apple_ps2smart_touch_pad.Touchpad.{Touchpad}
use apple_ps2smart_touch_pad.Touchpad.Features.{
  Floats, Features, Toggles, report, set_buttons, nudge, toggle, set_toggles, set_app_switch_done,
  release_app_switch,
}
use apple_ps2smart_touch_pad.Touchpad.Notified.{
  receive_quietly, event_cases, count_key, disable_touchpad, enable_touchpad, set_surroundings,
  shift_key, release_shift, release_drag, do_context_menu, backlight_off, backlight_on, lights_up,
  escape, restored,
}
use apple_ps2smart_touch_pad.Touchpad.Notified.Runs.{receive_quietly-Holds}
use apple_ps2smart_touch_pad.Touchpad.Swipes.{reset_pointer_to_middle}
use apple_ps2smart_touch_pad.Touchpad.Timers.{
  release_nc, single_tap, no_taps, zoom, next_scroll_modes, next_pointer_mode, double_tap,
  triple_tap, toggle_edge_scroll, toggle_v_buttons, toggle_edge_c_scroll, process_features_toggle,
  is_due, let_go, release_buttons_and_drag, control_keyboard_back_light,
}
use apple_ps2smart_touch_pad.Touchpad.Timers.Happenings.{Happening, happen_all, happen_all-Holds}

module _ {F : Type 0} (b : ℕ) where
  -- No button is down, or the buttons `b` are.
  unfoldable pub IsKept : Features F → Type 0
  IsKept p = (p.button_state ≡ 0) ⊎ (p.button_state ≡ b)

  release_nc-IsKept : (p : Features F) → IsKept p → IsKept (release_nc p)
  unfolding IsKept release_nc reset_pointer_to_middle set_buttons report
  release_nc-IsKept p t = if_holds IsKept p.is_nc_done _ p (inl refl) t

  double_tap-IsKept : (p : Features F) → IsKept p → IsKept (double_tap p)
  unfolding IsKept double_tap zoom toggle_edge_scroll toggle_v_buttons toggle set_toggles nudge
      report next_scroll_modes
  double_tap-IsKept p t =
      let held = p.is_toggle_key_on_hold in
      if_holds IsKept (p.fingers_count == 2) _ _ (if_holds IsKept held _ _ t t) (
        if_holds IsKept (p.fingers_count == 3) _ _ (if_holds IsKept held _ _ t t)
          (if_holds IsKept (p.fingers_count == 4 && held) _ _ t t))

  triple_tap-IsKept : (p : Features F) → IsKept p → IsKept (triple_tap p)
  unfolding IsKept triple_tap toggle_edge_c_scroll toggle set_toggles nudge report next_pointer_mode
  triple_tap-IsKept p t =
      let held = p.is_toggle_key_on_hold in
      if_holds IsKept (p.fingers_count == 2 && held) _ _ t
        (if_holds IsKept (p.fingers_count == 3 && held) _ _ t t)

  process_features_toggle-IsKept : (p : Features F) → IsKept p → IsKept (process_features_toggle p)
  unfolding IsKept process_features_toggle no_taps single_tap set_buttons
  process_features_toggle-IsKept p t =
      let p1 = release_nc p in
      let t1 : IsKept p1 = release_nc-IsKept p t in
      if_holds IsKept (p1.tap_count == 1) _ _ (inl refl) (
        if_holds IsKept (p1.tap_count == 2) _ _ (double_tap-IsKept p1 t1)
          (if_holds IsKept (p1.tap_count == 3) _ p1 (triple_tap-IsKept p1 t1) t1))

  release_app_switch-IsKept : (p : Features F) → IsKept p → IsKept (release_app_switch p)
  unfolding IsKept release_app_switch report set_app_switch_done
  release_app_switch-IsKept p t = if_holds IsKept p.is_app_switch_done _ p t t

  release_buttons_and_drag-IsKept :
      (p : Features F) → IsKept p → IsKept (release_buttons_and_drag p)
  unfolding IsKept release_buttons_and_drag let_go report set_buttons
  release_buttons_and_drag-IsKept p t =
      let p1 = release_app_switch p in
      if_holds IsKept (is_due p1) _ p1 (inl refl) (release_app_switch-IsKept p t)

  module _ (floats : Floats F) where
    release_shift-IsKept : (p : Features F) → IsKept p → IsKept (release_shift floats p)
    unfolding IsKept release_shift
    release_shift-IsKept p t = if_holds IsKept p.is_toggle_key_on_hold _ p t t

    release_drag-IsKept : (p : Features F) → IsKept p → IsKept (release_drag p)
    unfolding IsKept release_drag report set_buttons
    release_drag-IsKept p t = if_holds IsKept p.drag.is_dragging _ p (inl refl) t

    escape-IsKept : (now : ℕ) (p : Features F) → IsKept p → IsKept (escape floats now p)
    unfolding IsKept escape set_surroundings
    escape-IsKept now p t =
        let p0 = record p { is_in_full_screen = false; tap_count = 0 } in
        let p1 = release_shift floats p0 in
        release_app_switch-IsKept (release_drag p1)
          (release_drag-IsKept p1 (release_shift-IsKept p0 t))

    backlight_off-IsKept : (p : Features F) → IsKept p → IsKept (backlight_off p)
    unfolding IsKept backlight_off report
    backlight_off-IsKept p t = if_holds IsKept p.is_kb_light_off p _ t t

    backlight_on-IsKept : (now : ℕ) (p : Features F) → IsKept p → IsKept (backlight_on now p)
    unfolding IsKept backlight_on report
    backlight_on-IsKept now p t = if_holds IsKept (lights_up now p) _ p t t

    toggle-IsKept :
        (f : Toggles → Toggles) (is_on : Toggles → Bool) (p : Features F)
        → IsKept p
        → IsKept (toggle f is_on p)
    unfolding IsKept toggle nudge report set_toggles
    toggle-IsKept f is_on p t = t

    event_cases-IsKept :
        (now : ℕ) (p : Features F) → IsKept p → Cases IsKept (event_cases floats now p)
    unfolding IsKept Cases event_cases count_key disable_touchpad enable_touchpad do_context_menu
        shift_key report set_surroundings
    event_cases-IsKept now p t = (
      t,
      (
        t,
        (
          t,
          (
            t,
            (
              escape-IsKept now p t,
              (
                inl refl,
                (
                  t,
                  (
                    t,
                    (
                      t,
                      (
                        t,
                        (
                          t,
                          (
                            t,
                            (
                              t,
                              (
                                backlight_off-IsKept p t,
                                (backlight_on-IsKept now p t, (t, (t, (t, refl)))),
                              ),
                            ),
                          ),
                        ),
                      ),
                    ),
                  ),
                ),
              ),
            ),
          ),
        ),
      ),
    )

    receive_quietly-IsKept :
        (now n : ℕ) (p : Features F) → IsKept p → IsKept (receive_quietly floats now n p)
    receive_quietly-IsKept now n p t =
        receive_quietly-Holds floats IsKept now n p (λ f is_on. toggle-IsKept f is_on p t)
          (event_cases-IsKept now p t) t

    restored-IsKept :
        (now : ℕ) (t : Touchpad) (p : Features F) → IsKept p → IsKept (restored now t p)
    unfolding IsKept restored enable_touchpad set_surroundings report
    restored-IsKept now t p k = k

    control-IsKept :
        (now : ℕ) (p : Features F) → IsKept p → IsKept (control_keyboard_back_light now p)
    unfolding IsKept control_keyboard_back_light report
    control-IsKept now p t = t

    pub happen_all-IsKept :
        (fuel : ℕ) (xs : List Happening) (p : Features F)
        → IsKept p
        → Holds IsKept (happen_all floats fuel xs p)
    happen_all-IsKept fuel =
        happen_all-Holds floats fuel IsKept receive_quietly-IsKept restored-IsKept
          process_features_toggle-IsKept release_buttons_and_drag-IsKept control-IsKept
