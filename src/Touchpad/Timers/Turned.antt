-- ===== src/Touchpad/Timers/Turned.antt =====
-- The direction of scrolling, through the notifications and the timers.
use apple_ps2smart_touch_pad.Common.{ℕ, ◌&&◌, List, ◌==◌, if_holds, Holds}
use apple_ps2smart_touch_pad.Touchpad.Features.{
  Floats, Features, report, set_buttons, nudge, toggle, set_toggles, release_app_switch,
}
use apple_ps2smart_touch_pad.Touchpad.Notified.{restored, enable_touchpad, set_surroundings}
use apple_ps2smart_touch_pad.Touchpad.Notified.Direction.{
  Signs, IsTurned, quiet_event-IsTurned, release_app_switch-IsTurned,
}
use apple_ps2smart_touch_pad.Touchpad.Swipes.{reset_pointer_to_middle}
use apple_ps2smart_touch_pad.Touchpad.Timers.{
  release_nc, single_tap, no_taps, zoom, next_scroll_modes, next_pointer_mode, double_tap,
  triple_tap, toggle_edge_scroll, toggle_v_buttons, toggle_edge_c_scroll, process_features_toggle,
  is_due, let_go, release_buttons_and_drag, control_keyboard_back_light,
}
use apple_ps2smart_touch_pad.Touchpad.Timers.Happenings.{Happening, happen_all, happen_all-Holds}

module _ {F : Type 0} (floats : Floats F) (signs : Signs F floats) where
  abbrev Turned : Features F → Type 0
  Turned = IsTurned floats

  release_nc-IsTurned : (p : Features F) → Turned p → Turned (release_nc p)
  unfolding IsTurned release_nc reset_pointer_to_middle set_buttons report
  release_nc-IsTurned p t = if_holds Turned p.is_nc_done _ p t t

  double_tap-IsTurned : (p : Features F) → Turned p → Turned (double_tap p)
  unfolding IsTurned double_tap zoom toggle_edge_scroll toggle_v_buttons toggle set_toggles nudge
      report next_scroll_modes
  double_tap-IsTurned p t =
      if_holds Turned (p.fingers_count == 2) _ _ (if_holds Turned p.is_toggle_key_on_hold _ _ t t) (
        if_holds Turned (p.fingers_count == 3) _ _ (if_holds Turned p.is_toggle_key_on_hold _ _ t t)
          (if_holds Turned (p.fingers_count == 4 && p.is_toggle_key_on_hold) _ _ t t))

  triple_tap-IsTurned : (p : Features F) → Turned p → Turned (triple_tap p)
  unfolding IsTurned triple_tap toggle_edge_c_scroll toggle set_toggles nudge report
      next_pointer_mode
  triple_tap-IsTurned p t =
      if_holds Turned (p.fingers_count == 2 && p.is_toggle_key_on_hold) _ _ t
        (if_holds Turned (p.fingers_count == 3 && p.is_toggle_key_on_hold) _ _ t t)

  process_features_toggle-IsTurned :
      (p : Features F) → Turned p → Turned (process_features_toggle p)
  unfolding IsTurned process_features_toggle single_tap no_taps set_buttons report
  process_features_toggle-IsTurned p t =
      let p1 = release_nc p in
      let t1 : Turned p1 = release_nc-IsTurned p t in
      if_holds Turned (p1.tap_count == 1) _ _ t1 (
        if_holds Turned (p1.tap_count == 2) _ _ (double_tap-IsTurned p1 t1)
          (if_holds Turned (p1.tap_count == 3) _ _ (triple_tap-IsTurned p1 t1) t1))

  release_buttons_and_drag-IsTurned :
      (p : Features F) → Turned p → Turned (release_buttons_and_drag p)
  unfolding IsTurned release_buttons_and_drag let_go set_buttons report
  release_buttons_and_drag-IsTurned p t =
      let p1 = release_app_switch p in
      if_holds Turned (is_due p1) _ p1 (release_app_switch-IsTurned floats signs p t)
        (release_app_switch-IsTurned floats signs p t)

  -- If at first the scroll factor is not negative while the flag `isToggleKeyOnHold` is off, and not
  -- positive while it is on, it is so after notifications and timers in any order: what turns the
  -- factor round changes the flag too. The arithmetic on float is relied on for its signs only.
  pub happen_all-IsTurned :
      (fuel : ℕ) (xs : List Happening) (p : Features F)
      → Turned p
      → Holds Turned (happen_all floats fuel xs p)
  unfolding IsTurned restored enable_touchpad set_surroundings report control_keyboard_back_light
  happen_all-IsTurned fuel =
      happen_all-Holds floats fuel Turned (quiet_event-IsTurned floats signs) (λ now t p h. h)
        process_features_toggle-IsTurned release_buttons_and_drag-IsTurned (λ now p h. h)
