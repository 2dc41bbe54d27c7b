-- ===== src/Touchpad/Notified.antt =====
-- ApplePS2SmartTouchPad.cpp, `receiveKeyboardNotifications`: what the touchpad driver does on a
-- notification of the keyboard driver, by its number. Delays and logs are left out; the clock stands
-- still in the handler.
pub mod Runs
pub mod Twice
pub mod Typing
pub mod Direction
use apple_ps2smart_touch_pad.Common.{
  ℕ, ◌+◌, ◌-◌, ◌*◌, ◌%◌, ◌^◌, Bool, true, false, not, ◌||◌, ◌&&◌, List, [], ◌∷◌, Option, none, some,
  ◌==◌, if◌then◌else◌, leb, ltb,
}
use apple_ps2smart_touch_pad.Keyboard.Combinations.{case_of}
use apple_ps2smart_touch_pad.Keyboard.Notices
use apple_ps2smart_touch_pad.Touchpad.{Touchpad, Surroundings}
use apple_ps2smart_touch_pad.Touchpad.Connect.{reconnect_touchpad}
use apple_ps2smart_touch_pad.Touchpad.Features.{
  Floats, Output, notified, light_timer_cancelled, light_timer, Toggles, Drag, Features, report,
  set_buttons, toggle, release_app_switch, click,
}

abbrev pub Flips : Type 0
Flips = (Toggles → Toggles) × (Toggles → Bool)

-- The cases that toggle features: what is flipped, and what the nudge goes by.
unfoldable pub toggle_cases : List (ℕ × Option Flips)
toggle_cases =
    (
      Notices.scroll_lock_auto,
      some (
        λ t. record t { has_edge_auto = not t.has_edge_auto; has_2f_auto = not t.has_2f_auto },
        λ t. t.has_edge_auto || t.has_2f_auto,
      ),
    )
    ∷ (
      Notices.scroll_lock_inertia,
      some (
        λ t. record t {
          has_edge_inertia = not t.has_edge_inertia;
          has_2f_inertia = not t.has_2f_inertia;
        },
        λ t. t.has_edge_inertia,
      ),
    )
    ∷ (
      Notices.scroll_lock_continuous,
      some (
        λ t. record t { has_edge_cont = not t.has_edge_cont; has_2f_cont = not t.has_2f_cont },
        λ t. t.has_2f_cont,
      ),
    )
    ∷ (
      Notices.edge_scroll,
      some (λ t. record t { has_edge_scroll = not t.has_edge_scroll }, λ t. t.has_edge_scroll),
    )
    ∷ (
      Notices.gestures_1f_swipes,
      some (λ t. record t { has_edge_swipes = not t.has_edge_swipes }, λ t. t.has_edge_swipes),
    )
    ∷ (
      Notices.gestures_3f_swipes,
      some (λ t. record t { has_3f_swipes = not t.has_3f_swipes }, λ t. t.has_3f_swipes),
    )
    ∷ (
      Notices.gestures_4f_swipes,
      some (λ t. record t { has_4f_swipes = not t.has_4f_swipes }, λ t. t.has_4f_swipes),
    )
    ∷ (
      Notices.gestures_rotate,
      some (λ t. record t { rotate_enabled = not t.rotate_enabled }, λ t. t.rotate_enabled),
    )
    ∷ (
      Notices.gestures_zoom,
      some (λ t. record t { zoom_enabled = not t.zoom_enabled }, λ t. t.zoom_enabled),
    )
    ∷ (
      Notices.gestures_double_taps,
      some (
        λ t. record t { has_mul_f_double_taps = not t.has_mul_f_double_taps },
        λ t. t.has_mul_f_double_taps,
      ),
    )
    ∷ []

unfoldable pub toggle_of : ℕ → Option Flips
unfolding toggle_cases case_of
toggle_of n = case_of n toggle_cases none

module _ {F : Type 0} where
  unfoldable pub set_surroundings : Surroundings → Features F → Features F
  set_surroundings s p = record p { pad = record p.pad { surroundings = s } }

  -- The case `kPS2C_AccidentalInput`: a key was typed. The count is a `UInt8`.
  unfoldable pub count_key : ℕ → Features F → Features F
  unfolding set_surroundings
  count_key now p =
      let s = p.pad.surroundings in
      let count = (s.keys_count + 1) % 256 in
      let guarded = leb p.acc_input_keys_count count && s.is_type_mode_enabled in
      set_surroundings
        (record s {
          keys_count = if guarded then 2 else count;
          accidental_input = guarded || s.accidental_input;
          last_key_press_time = now;
        })
        p

  unfoldable pub disable_touchpad : Features F → Features F
  unfolding set_surroundings
  disable_touchpad p = set_surroundings (record p.pad.surroundings { disable_touchpad = true }) p

  unfoldable pub enable_touchpad : ℕ → Features F → Features F
  unfolding set_surroundings
  enable_touchpad now p =
      set_surroundings
        (record p.pad.surroundings {
          last_key_press_time = now;
          keys_count = 0;
          disable_touchpad = false;
          accidental_input = false;
        })
        p

  unfoldable pub release_drag : Features F → Features F
  unfolding report set_buttons
  release_drag p =
      if p.drag.is_dragging
      then set_buttons 0 0 (
          report (click 0 ∷ []) (record p {
            drag = record p.drag {
              is_dragging = false;
              is_tap_drag = false;
              is_hold_drag = false;
              is_3f_drag = false;
            };
          }))
      else p

  unfoldable pub do_context_menu : Features F → Features F
  unfolding report
  do_context_menu p = record (report (click 2 ∷ click 0 ∷ []) p) { button_state = 0 }

  -- `kPS2C_KeybrdBackLightOff` and `kPS2C_KeybrdBackLightOn`; the product
  -- that the time since the last change is compared with is one of `UInt32`.
  unfoldable pub backlight_off : Features F → Features F
  unfolding report
  backlight_off p =
      if p.is_kb_light_off
      then p
      else report (light_timer_cancelled ∷ light_timer p.kb_light_auto_off_timeout ∷ []) p

  unfoldable pub lights_up : ℕ → Features F → Bool
  lights_up now p =
      let timeout = p.kb_light_auto_off_timeout * 1000000 % 2 ^ 32 in
      p.is_kb_light_off || ltb timeout ((now + 2 ^ 64 - p.last_kb_light_trigger_time) % 2 ^ 64)

  unfoldable pub backlight_on : ℕ → Features F → Features F
  unfolding lights_up report
  backlight_on now p =
      if lights_up now p
      then report (light_timer_cancelled ∷ light_timer 0 ∷ [])
          (record p { last_kb_light_trigger_time = 0 })
      else p

  -- The case `kPS2C_RestoreTouchpad`, when the touchpad has been reconnected.
  unfoldable pub restored : ℕ → Touchpad → Features F → Features F
  unfolding enable_touchpad report
  restored now t p =
      report (notified Notices.enable_touchpad ∷ []) (enable_touchpad now (record p { pad = t }))

  unfoldable pub if_restored : ℕ → Option Touchpad → Features F → Option (Features F)
  unfolding restored
  if_restored now none p = none
  if_restored now (some t) p = some (restored now t p)

  module _ (floats : Floats F) where
    unfoldable pub shift_key : Features F → Features F
    shift_key p =
        let held = not p.is_toggle_key_on_hold in
        record p {
          is_toggle_key_on_hold = held;
          scroll_factor = floats.minus p.scroll_factor;
          is_in_full_screen = not p.is_in_full_screen;
          tap_count = if held then p.tap_count else 0;
        }

    -- The direction of scrolling that Shift turned round is put back.
    unfoldable pub release_shift : Features F → Features F
    release_shift p =
        if p.is_toggle_key_on_hold
        then record p {
          is_toggle_key_on_hold = false;
          scroll_factor =
              if floats.is_negative p.scroll_factor
              then floats.minus p.scroll_factor
              else p.scroll_factor;
        }
        else p

    unfoldable pub escape : ℕ → Features F → Features F
    unfolding release_shift release_drag release_app_switch set_surroundings
    escape now p =
        let p1 = release_shift (record p { is_in_full_screen = false; tap_count = 0 }) in
        let p2 = release_app_switch (release_drag p1) in
        set_surroundings (record p2.pad.surroundings { last_key_press_time = now }) p2

    -- The cases that toggle nothing and send nothing to the hardware.
    unfoldable pub event_cases : ℕ → Features F → List (ℕ × Features F)
    unfolding count_key disable_touchpad enable_touchpad escape do_context_menu shift_key
        backlight_off backlight_on report
    event_cases now p =
        (Notices.show_touch_pressure_width, record p { show_press_width = not p.show_press_width })
        ∷ (Notices.accidental_input, count_key now p)
        ∷ (Notices.disable_touchpad, disable_touchpad p)
        ∷ (Notices.enable_touchpad, enable_touchpad now p)
        ∷ (Notices.esc, escape now p)
        ∷ (Notices.do_context_menu, do_context_menu p)
        ∷ (Notices.shift_key, shift_key p)
        ∷ (Notices.cntrl_key_down, record p { is_ctrl_scroll_swipe = true })
        ∷ (Notices.cntrl_key_up, record p { is_ctrl_scroll_swipe = false })
        ∷ (Notices.cntrl_feature_on, record p { scroll_factor = floats.twice p.scroll_factor })
        ∷ (Notices.cntrl_feature_off, record p { scroll_factor = floats.half p.scroll_factor })
        ∷ (Notices.alt_funtion_on, record p { alt_function = true })
        ∷ (Notices.alt_funtion_off, record p { alt_function = false; do_auto = false })
        ∷ (Notices.keybrd_back_light_off, backlight_off p)
        ∷ (Notices.keybrd_back_light_on, backlight_on now p)
        ∷ (Notices.keybrd_back_light_toggle_on, record p { is_kb_light_off = false })
        ∷ (Notices.keybrd_back_light_toggle_off, record p { is_kb_light_off = true })
        ∷ (
          Notices.osx_version_notify,
          report (notified Notices.osx_version_notify ∷ notified p.osx_version ∷ []) p,
        )
        ∷ []

    unfoldable pub receive_event : ℕ → ℕ → Features F → Features F
    unfolding event_cases case_of
    receive_event now n p = case_of n (event_cases now p) p

    unfoldable pub toggle_or_event : Option Flips → ℕ → ℕ → Features F → Features F
    unfolding receive_event toggle
    toggle_or_event (some (flip, is_on)) now n p = toggle flip is_on p
    toggle_or_event none now n p = receive_event now n p

    -- All cases but that of the reconnection.
    unfoldable pub receive_quietly : ℕ → ℕ → Features F → Features F
    unfolding toggle_or_event toggle_of
    receive_quietly now n p = toggle_or_event (toggle_of n) now n p

    -- `receiveKeyboardNotifications`; `fuel` is that of the reconnection.
    unfoldable pub receive_keyboard_notifications : ℕ → ℕ → ℕ → Features F → Option (Features F)
    unfolding receive_quietly if_restored
    receive_keyboard_notifications fuel now n p =
        if n == Notices.restore_touchpad
        then if_restored now (reconnect_touchpad fuel p.pad) p
        else some (receive_quietly now n p)
