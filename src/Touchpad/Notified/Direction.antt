-- ===== src/Touchpad/Notified/Direction.antt =====
-- The direction of scrolling, which is turned round while `isToggleKeyOnHold` is set.
use apple_ps2smart_touch_pad.Common.{ℕ, Bool, false, ◌≡◌, refl, arith, if◌then◌else◌, if_holds}
use apple_ps2smart_touch_pad.Keyboard.Combinations.{Cases}
use apple_ps2smart_touch_pad.Touchpad.Features.{
  Floats, Features, report, set_buttons, set_app_switch_done, release_app_switch, toggle, nudge,
  set_toggles, Toggles,
}
use apple_ps2smart_touch_pad.Touchpad.Notified.Runs.{receive_quietly-Holds}
use apple_ps2smart_touch_pad.Touchpad.Notified.{
  receive_quietly, event_cases, count_key, set_surroundings, disable_touchpad, enable_touchpad,
  release_drag, do_context_menu, backlight_off, backlight_on, shift_key, release_shift, escape,
}

-- What is relied on of the arithmetic: two changes of sign are none, and neither doubling nor halving
-- turns a number round.
pub record Signs (F : Type 0) (floats : Floats F) : Type 0 where
  pub minus_twice :
      (x : F) → floats.is_negative (floats.minus (floats.minus x)) ≡ floats.is_negative x
  pub twice_sign :
      (x : F) → floats.is_negative x ≡ false → floats.is_negative (floats.twice x) ≡ false
  pub twice_minus :
      (x : F)
      → floats.is_negative (floats.minus x) ≡ false
      → floats.is_negative (floats.minus (floats.twice x)) ≡ false
  pub half_sign :
      (x : F) → floats.is_negative x ≡ false → floats.is_negative (floats.half x) ≡ false
  pub half_minus :
      (x : F)
      → floats.is_negative (floats.minus x) ≡ false
      → floats.is_negative (floats.minus (floats.half x)) ≡ false

module _ {F : Type 0} (floats : Floats F) where
  -- The scroll factor is not positive while the flag is set, and not negative while it is not.
  unfoldable pub IsTurned : Features F → Type 0
  IsTurned p =
      floats.is_negative
        (if p.is_toggle_key_on_hold then floats.minus p.scroll_factor else p.scroll_factor)
      ≡ false

  module _ (signs : Signs F floats) where
    pub toggle-IsTurned :
        (f : Toggles → Toggles) (is_on : Toggles → Bool) (p : Features F)
        → IsTurned p
        → IsTurned (toggle f is_on p)
    unfolding IsTurned toggle nudge report set_toggles
    toggle-IsTurned f is_on p t = t

    shift_key-IsTurned : (p : Features F) → IsTurned p → IsTurned (shift_key floats p)
    unfolding IsTurned shift_key
    shift_key-IsTurned p t = ground (arith, signs.minus_twice p.scroll_factor)

    release_shift-IsTurned : (p : Features F) → IsTurned p → IsTurned (release_shift floats p)
    unfolding IsTurned release_shift
    release_shift-IsTurned p t = ground arith

    release_drag-IsTurned : (p : Features F) → IsTurned p → IsTurned (release_drag p)
    unfolding IsTurned release_drag report set_buttons
    release_drag-IsTurned p t = if_holds IsTurned p.drag.is_dragging _ p t t

    pub release_app_switch-IsTurned :
        (p : Features F) → IsTurned p → IsTurned (release_app_switch p)
    unfolding IsTurned release_app_switch report set_app_switch_done
    release_app_switch-IsTurned p t = if_holds IsTurned p.is_app_switch_done _ p t t

    escape-IsTurned : (now : ℕ) (p : Features F) → IsTurned p → IsTurned (escape floats now p)
    unfolding IsTurned escape set_surroundings
    escape-IsTurned now p t =
        let p0 = record p { is_in_full_screen = false; tap_count = 0 } in
        let p1 = release_shift floats p0 in
        release_app_switch-IsTurned (release_drag p1)
          (release_drag-IsTurned p1 (release_shift-IsTurned p0 t))

    twice-IsTurned :
        (p : Features F)
        → IsTurned p
        → IsTurned (record p { scroll_factor = floats.twice p.scroll_factor })
    unfolding IsTurned
    twice-IsTurned p t =
        ground (arith, signs.twice_sign p.scroll_factor, signs.twice_minus p.scroll_factor)

    half-IsTurned :
        (p : Features F)
        → IsTurned p
        → IsTurned (record p { scroll_factor = floats.half p.scroll_factor })
    unfolding IsTurned
    half-IsTurned p t =
        ground (arith, signs.half_sign p.scroll_factor, signs.half_minus p.scroll_factor)

    backlight_off-IsTurned : (p : Features F) → IsTurned p → IsTurned (backlight_off p)
    unfolding IsTurned backlight_off report
    backlight_off-IsTurned p t = if_holds IsTurned p.is_kb_light_off p _ t t

    backlight_on-IsTurned : (now : ℕ) (p : Features F) → IsTurned p → IsTurned (backlight_on now p)
    unfolding IsTurned backlight_on report
    backlight_on-IsTurned now p t = ground arith

    event_cases-IsTurned :
        (now : ℕ) (p : Features F) → IsTurned p → Cases IsTurned (event_cases floats now p)
    unfolding IsTurned Cases event_cases count_key disable_touchpad enable_touchpad do_context_menu
        report set_surroundings
    event_cases-IsTurned now p t = (
      t,
      (
        t,
        (
          t,
          (
            t,
            (
              escape-IsTurned now p t,
              (
                t,
                (
                  shift_key-IsTurned p t,
                  (
                    t,
                    (
                      t,
                      (
                        twice-IsTurned p t,
                        (
                          half-IsTurned p t,
                          (
                            t,
                            (
                              t,
                              (
                                backlight_off-IsTurned p t,
                                (backlight_on-IsTurned now p t, (t, (t, (t, refl)))),
                              ),
                            ),
                          ),
                        ),
                      ),
                    ),
                  ),
                ),
              ),
            ),
          ),
        ),
      ),
    )

    pub quiet_event-IsTurned :
        (now n : ℕ) (p : Features F) → IsTurned p → IsTurned (receive_quietly floats now n p)
    quiet_event-IsTurned now n p t =
        receive_quietly-Holds floats IsTurned now n p (λ f is_on. toggle-IsTurned f is_on p t)
          (event_cases-IsTurned now p t) t
