-- ===== src/Touchpad/Timers.antt =====
-- ApplePS2SmartTouchPad.cpp: what the timers of the touchpad driver do. `ProcessFeaturesToggle` runs
-- when no more taps are to come, `Release_ButtonsAndDrag` when a finger has been up for long enough,
-- `ControlfKeybrdBackLight` when the keyboard's light is to change. The clock stands still in a
-- handler; delays and logs are left out.
pub mod Happenings
pub mod Turned
pub mod Reported
pub mod Kept
pub mod Buttons
use apple_ps2smart_touch_pad.Common.{
  ℕ, ◌+◌, ◌/◌, ◌%◌, Bool, true, false, not, ◌||◌, ◌&&◌, List, [], ◌∷◌, ◌==◌, if◌then◌else◌, ltb,
  bit_or,
}
use apple_ps2smart_touch_pad.Keyboard.Notices.{
  zoom_plus, zoom_minus, gesture_app_windows, keybrd_back_light_on, keybrd_back_light_off,
}
use apple_ps2smart_touch_pad.Touchpad.Swipes.{reset_pointer_to_middle}
use apple_ps2smart_touch_pad.Touchpad.Features.{
  Output, placed, notified, Toggles, Features, report, set_buttons, nudge, toggle,
  release_app_switch, click,
}

-- The next of the modes up to `limit`, or the first again.
unfoldable pub next_mode : ℕ → ℕ → ℕ
next_mode limit mode = let next = (mode + 1) % 256 in if ltb limit next then 0 else next

unfoldable pub wraps : ℕ → ℕ → Bool
wraps limit mode = ltb limit ((mode + 1) % 256)

module _ {F : Type 0} where
  unfoldable pub release_nc : Features F → Features F
  unfolding report set_buttons reset_pointer_to_middle
  release_nc p =
      if p.is_nc_done
      then record (reset_pointer_to_middle (set_buttons 0 0 (report (click 1 ∷ click 0 ∷ []) p))) {
        is_nc_done = false;
      }
      else p

  -- A tap with two fingers is the middle button, one with more the right, unless they are swapped.
  unfoldable pub tap_button : Features F → ℕ
  tap_button p =
      if p.is_tap_swap_enabled
      then if p.fingers_count == 2 then 2 else 4
      else if p.fingers_count == 2
      then 4
      else 2

  unfoldable pub no_taps : Features F → Features F
  no_taps p = record p { tap_count = 0; fingers_count = 0 }

  unfoldable pub single_tap : Features F → Features F
  unfolding tap_button report set_buttons no_taps
  single_tap p =
      let data_bits = tap_button p in
      set_buttons 0 0 (no_taps (report (click data_bits ∷ click 0 ∷ []) p))

  unfoldable pub zoom : Features F → Features F
  unfolding nudge report
  zoom p =
      let on = not p.tap_zoom_done in
      let notice = notified (if on then zoom_plus else zoom_minus) in
      nudge on (report (notice ∷ notice ∷ []) (record p { tap_zoom_done = on }))

  unfoldable pub next_scroll_modes : Features F → Features F
  unfolding next_mode wraps nudge
  next_scroll_modes p =
      let p1 =
        nudge (not (wraps 4 p.accel_mode_2f))
          (record p { accel_mode_2f = next_mode 4 p.accel_mode_2f }) in
      nudge (not (wraps 4 p1.accel_mode_edge))
        (record p1 { accel_mode_edge = next_mode 4 p1.accel_mode_edge })

  unfoldable pub next_pointer_mode : Features F → Features F
  unfolding next_mode wraps nudge
  next_pointer_mode p =
      nudge (not (wraps 20 p.p_accel_custom))
        (record p { p_accel_custom = next_mode 20 p.p_accel_custom })

  unfoldable pub toggle_edge_scroll : Features F → Features F
  unfolding toggle
  toggle_edge_scroll p =
      toggle (λ t. record t { has_edge_scroll = not t.has_edge_scroll }) (λ t. t.has_edge_scroll) p

  unfoldable pub toggle_v_buttons : Features F → Features F
  unfolding toggle
  toggle_v_buttons p =
      toggle (λ t. record t { click_pad_has_v_buttons = not t.click_pad_has_v_buttons })
        (λ t. t.click_pad_has_v_buttons) p

  unfoldable pub toggle_edge_c_scroll : Features F → Features F
  unfolding toggle
  toggle_edge_c_scroll p =
      toggle (λ t. record t { has_edge_c_scroll = not t.has_edge_c_scroll })
        (λ t. t.has_edge_c_scroll) p

  unfoldable pub double_tap : Features F → Features F
  unfolding zoom toggle_edge_scroll toggle_v_buttons report next_scroll_modes
  double_tap p =
      let held = p.is_toggle_key_on_hold in
      if p.fingers_count == 2
      then if held then toggle_edge_scroll p else zoom p
      else if p.fingers_count == 3
      then if held then next_scroll_modes p else report (notified gesture_app_windows ∷ []) p
      else if p.fingers_count == 4 && held
      then toggle_v_buttons p
      else p

  unfoldable pub triple_tap : Features F → Features F
  unfolding toggle_edge_c_scroll next_pointer_mode
  triple_tap p =
      let held = p.is_toggle_key_on_hold in
      if p.fingers_count == 2 && held
      then toggle_edge_c_scroll p
      else if p.fingers_count == 3 && held
      then next_pointer_mode p
      else p

  -- `ProcessFeaturesToggle`.
  unfoldable pub process_features_toggle : Features F → Features F
  unfolding release_nc single_tap double_tap triple_tap no_taps
  process_features_toggle p =
      let p1 = release_nc p in
      if p1.tap_count == 1
      then single_tap p1
      else if p1.tap_count == 2
      then no_taps (double_tap p1)
      else if p1.tap_count == 3
      then no_taps (triple_tap p1)
      else p1

  -- Whether `Release_ButtonsAndDrag` lets go.
  unfoldable pub is_due : Features F → Bool
  is_due p =
      (p.drag.is_dragging
        && not p.is_drag_lock_enabled
        && (p.drag.is_hold_drag || p.drag.is_tap_drag))
      || (not p.drag.is_dragging && p.drag.check_tap_drag)

  unfoldable pub let_go : Features F → Features F
  unfolding is_due report set_buttons
  let_go p =
      if is_due p
      then report (click 0 ∷ []) (
          set_buttons 0 0 (record p {
            hold_time = 0;
            drag = record p.drag {
              check_tap_drag = false;
              is_dragging = false;
              is_tap_drag = false;
              is_hold_drag = false;
              is_3f_drag = false;
            };
          }))
      else p

  -- `Release_ButtonsAndDrag`.
  unfoldable pub release_buttons_and_drag : Features F → Features F
  unfolding release_app_switch let_go
  release_buttons_and_drag p =
      let p1 = let_go (release_app_switch p) in
      record p1 { drag = record p1.drag { is_quick_tap = false }; do_timer_job = false }

  -- `ControlfKeybrdBackLight`.
  unfoldable pub control_keyboard_back_light : ℕ → Features F → Features F
  unfolding report
  control_keyboard_back_light now p =
      let on = p.is_kb_light_off || p.last_kb_light_trigger_time == 0 in
      record (report (notified (if on then keybrd_back_light_on else keybrd_back_light_off) ∷ [])
        p) { last_kb_light_trigger_time = now }
