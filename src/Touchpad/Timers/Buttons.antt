-- ===== src/Touchpad/Timers/Buttons.antt =====
-- The buttons that were reported last, through the notifications and the timers.
use apple_ps2smart_touch_pad.Common.{
  ℕ, false, not, ◌&&◌, ◌+◌, ◌/◌, pos, List, [], ◌∷◌, ◌==◌, refl, ◌∙◌, if_holds, Holds, Holds-both,
  inr,
}
use apple_ps2smart_touch_pad.Keyboard.Combinations.{Cases}
use apple_ps2smart_touch_pad.Touchpad.{Touchpad}
use apple_ps2smart_touch_pad.Touchpad.Features.{
  Floats, placed, notified, Features, report, set_buttons, release_app_switch, click,
}
use apple_ps2smart_touch_pad.Touchpad.Notified.{
  receive_quietly, event_cases, count_key, disable_touchpad, enable_touchpad, set_surroundings,
  shift_key, release_shift, release_drag, escape, restored,
}
use apple_ps2smart_touch_pad.Touchpad.Notified.Runs.{receive_quietly-Holds}
use apple_ps2smart_touch_pad.Touchpad.Swipes.{reset_pointer_to_middle}
use apple_ps2smart_touch_pad.Touchpad.Timers.{
  release_nc, single_tap, tap_button, no_taps, zoom, next_scroll_modes, next_pointer_mode,
  double_tap, triple_tap, toggle_edge_scroll, toggle_v_buttons, toggle_edge_c_scroll,
  process_features_toggle, is_due, let_go, release_buttons_and_drag, control_keyboard_back_light,
}
use apple_ps2smart_touch_pad.Touchpad.Timers.Happenings.{Happening, happen_all, happen_all-Holds}
use apple_ps2smart_touch_pad.Touchpad.Timers.Kept.{IsKept, happen_all-IsKept}
use apple_ps2smart_touch_pad.Touchpad.Timers.Reported.{
  buttons_from, IsReported, report-buttons, nudge-IsReported, toggle-IsReported,
  release_app_switch-IsReported, release_drag-IsReported, do_context_menu-IsReported,
  backlight_off-IsReported, backlight_on-IsReported, notified-IsReported,
}

module _ {F : Type 0} where
  release_nc-IsReported : (p : Features F) → IsReported p → IsReported (release_nc p)
  unfolding IsReported release_nc reset_pointer_to_middle set_buttons buttons_from report
  release_nc-IsReported p r =
      let p1 = set_buttons 0 0 (report (click 1 ∷ click 0 ∷ []) p) in
      let middle =
        placed (pos ((p.pad.xmin + p.pad.xmax) / 2)) (pos ((p.pad.ymin + p.pad.ymax) / 2)) 0 in
      if_holds IsReported p.is_nc_done _ p (report-buttons (middle ∷ middle ∷ []) p1) r

  single_tap-IsReported : (p : Features F) → IsReported (single_tap p)
  unfolding IsReported single_tap no_taps set_buttons buttons_from report
  single_tap-IsReported p = report-buttons (click (tap_button p) ∷ click 0 ∷ []) p

  zoom-IsReported : (p : Features F) → IsReported (zoom p)
  unfolding zoom
  zoom-IsReported p = nudge-IsReported _ _

  next_scroll_modes-IsReported : (p : Features F) → IsReported (next_scroll_modes p)
  unfolding next_scroll_modes
  next_scroll_modes-IsReported p = nudge-IsReported _ _

  next_pointer_mode-IsReported : (p : Features F) → IsReported (next_pointer_mode p)
  unfolding next_pointer_mode
  next_pointer_mode-IsReported p = nudge-IsReported _ _

  toggle_edge_scroll-IsReported : (p : Features F) → IsReported (toggle_edge_scroll p)
  unfolding toggle_edge_scroll
  toggle_edge_scroll-IsReported p =
      toggle-IsReported (λ t. record t { has_edge_scroll = not t.has_edge_scroll })
        (λ t. t.has_edge_scroll) p

  toggle_v_buttons-IsReported : (p : Features F) → IsReported (toggle_v_buttons p)
  unfolding toggle_v_buttons
  toggle_v_buttons-IsReported p =
      toggle-IsReported (λ t. record t { click_pad_has_v_buttons = not t.click_pad_has_v_buttons })
        (λ t. t.click_pad_has_v_buttons) p

  toggle_edge_c_scroll-IsReported : (p : Features F) → IsReported (toggle_edge_c_scroll p)
  unfolding toggle_edge_c_scroll
  toggle_edge_c_scroll-IsReported p =
      toggle-IsReported (λ t. record t { has_edge_c_scroll = not t.has_edge_c_scroll })
        (λ t. t.has_edge_c_scroll) p

  double_tap-IsReported : (p : Features F) → IsReported p → IsReported (double_tap p)
  unfolding double_tap
  double_tap-IsReported p r =
      let held = p.is_toggle_key_on_hold in
      if_holds IsReported (p.fingers_count == 2) _ _
        (if_holds IsReported held _ _ (toggle_edge_scroll-IsReported p) (zoom-IsReported p))
        (if_holds IsReported (p.fingers_count == 3) _ _
          (if_holds IsReported held _ _ (next_scroll_modes-IsReported p)
            (notified-IsReported 8 p r))
          (if_holds IsReported (p.fingers_count == 4 && held) _ p (toggle_v_buttons-IsReported p)
            r))

  triple_tap-IsReported : (p : Features F) → IsReported p → IsReported (triple_tap p)
  unfolding triple_tap
  triple_tap-IsReported p r =
      let held = p.is_toggle_key_on_hold in
      if_holds IsReported (p.fingers_count == 2 && held) _ _ (toggle_edge_c_scroll-IsReported p)
        (if_holds IsReported (p.fingers_count == 3 && held) _ p (next_pointer_mode-IsReported p) r)

  process_features_toggle-IsReported :
      (p : Features F) → IsReported p → IsReported (process_features_toggle p)
  unfolding process_features_toggle no_taps IsReported
  process_features_toggle-IsReported p r =
      let p1 = release_nc p in
      let r1 : IsReported p1 = release_nc-IsReported p r in
      if_holds IsReported (p1.tap_count == 1) _ _ (single_tap-IsReported p1) (
        if_holds IsReported (p1.tap_count == 2) _ _ (double_tap-IsReported p1 r1)
          (if_holds IsReported (p1.tap_count == 3) _ p1 (triple_tap-IsReported p1 r1) r1))

  release_buttons_and_drag-IsReported :
      (p : Features F) → IsReported p → IsReported (release_buttons_and_drag p)
  unfolding IsReported release_buttons_and_drag let_go set_buttons buttons_from report
  release_buttons_and_drag-IsReported p r =
      let p1 = release_app_switch p in
      if_holds IsReported (is_due p1) _ p1 (report-buttons (click 0 ∷ []) p1)
        (release_app_switch-IsReported p r)

  module _ (floats : Floats F) where
    shift_key-IsReported : (p : Features F) → IsReported p → IsReported (shift_key floats p)
    unfolding IsReported shift_key
    shift_key-IsReported p r = r

    release_shift-IsReported : (p : Features F) → IsReported p → IsReported (release_shift floats p)
    unfolding IsReported release_shift
    release_shift-IsReported p r = if_holds IsReported p.is_toggle_key_on_hold _ p r r

    escape-IsReported : (now : ℕ) (p : Features F) → IsReported p → IsReported (escape floats now p)
    unfolding IsReported escape set_surroundings
    escape-IsReported now p r =
        let p0 = record p { is_in_full_screen = false; tap_count = 0 } in
        let p1 = release_shift floats p0 in
        release_app_switch-IsReported (release_drag p1)
          (release_drag-IsReported p1 (release_shift-IsReported p0 r))

    version-IsReported :
        (p : Features F)
        → IsReported p
        → IsReported (report (notified 77 ∷ notified p.osx_version ∷ []) p)
    unfolding IsReported buttons_from report
    version-IsReported p r = report-buttons (notified 77 ∷ notified p.osx_version ∷ []) p ∙ r

    event_cases-IsReported :
        (now : ℕ) (p : Features F) → IsReported p → Cases IsReported (event_cases floats now p)
    unfolding IsReported Cases event_cases count_key disable_touchpad enable_touchpad
        set_surroundings
    event_cases-IsReported now p r = (
      r,
      (
        r,
        (
          r,
          (
            r,
            (
              escape-IsReported now p r,
              (
                do_context_menu-IsReported p,
                (
                  shift_key-IsReported p r,
                  (
                    r,
                    (
                      r,
                      (
                        r,
                        (
                          r,
                          (
                            r,
                            (
                              r,
                              (
                                backlight_off-IsReported p r,
                                (
                                  backlight_on-IsReported now p r,
                                  (r, (r, (version-IsReported p r, refl))),
                                ),
                              ),
                            ),
                          ),
                        ),
                      ),
                    ),
                  ),
                ),
              ),
            ),
          ),
        ),
      ),
    )

    receive_quietly-IsReported :
        (now n : ℕ) (p : Features F) → IsReported p → IsReported (receive_quietly floats now n p)
    receive_quietly-IsReported now n p r =
        receive_quietly-Holds floats IsReported now n p (λ f is_on. toggle-IsReported f is_on p)
          (event_cases-IsReported now p r) r

    restored-IsReported :
        (now : ℕ) (t : Touchpad) (p : Features F) → IsReported p → IsReported (restored now t p)
    unfolding restored enable_touchpad set_surroundings IsReported
    restored-IsReported now t p r =
        notified-IsReported 36 (enable_touchpad now (record p { pad = t })) r

    control-IsReported :
        (now : ℕ) (p : Features F) → IsReported p → IsReported (control_keyboard_back_light now p)
    unfolding control_keyboard_back_light IsReported
    control-IsReported now p r = notified-IsReported _ p r

    run-IsReported :
        (fuel : ℕ) (xs : List Happening) (p : Features F)
        → IsReported p
        → Holds IsReported (happen_all floats fuel xs p)
    run-IsReported fuel =
        happen_all-Holds floats fuel IsReported receive_quietly-IsReported restored-IsReported
          process_features_toggle-IsReported release_buttons_and_drag-IsReported control-IsReported

    -- If at first the buttons that were reported last are those in the driver's state, they are so
    -- after notifications and timers in any order, and the buttons in the state are then either those
    -- that were down at first or none: no handler leaves a button down that it pressed.
    pub happen_all-IsReported :
        (fuel : ℕ) (xs : List Happening) (p : Features F)
        → IsReported p
        → Holds (λ q. IsReported q × IsKept p.button_state q) (happen_all floats fuel xs p)
    unfolding IsKept
    happen_all-IsReported fuel xs p r =
        Holds-both IsReported (IsKept p.button_state) (happen_all floats fuel xs p)
          (run-IsReported fuel xs p r)
          (happen_all-IsKept p.button_state floats fuel xs p (inr refl))
