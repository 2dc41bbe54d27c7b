-- ===== src/Touchpad/Timers/Reported.antt =====
-- The buttons that were reported last: the predicate, and what reports keeps of it.
use apple_ps2smart_touch_pad.Common.{ℕ, Bool, List, [], ◌∷◌, ◌++◌, ◌≡◌, refl, ◌∙◌, if_holds}
use apple_ps2smart_touch_pad.Touchpad.Features.{
  Output, moved, placed, notified, light_timer, light_timer_cancelled, Features, Toggles, report,
  set_buttons, nudge, toggle, set_toggles, set_app_switch_done, release_app_switch, click,
}
use apple_ps2smart_touch_pad.Touchpad.Notified.{
  release_drag, do_context_menu, backlight_off, backlight_on, lights_up,
}

abbrev buttons_by : Output → ℕ → ℕ
buttons_by (moved dx dy b) last = b
buttons_by (placed x y b) last = b
buttons_by _ last = last

-- The buttons as the system knows them after some outputs.
unfoldable pub buttons_from : List Output → ℕ → ℕ
buttons_from [] last = last
buttons_from (o ∷ os) last = buttons_from os (buttons_by o last)

buttons_from-append :
    (os ps : List Output) (last : ℕ)
    → buttons_from (os ++ ps) last ≡ buttons_from ps (buttons_from os last)
unfolding buttons_from
buttons_from-append [] ps last = refl
buttons_from-append (o ∷ os) ps last = buttons_from-append os ps (buttons_by o last)

module _ {F : Type 0} where
  -- The buttons that the system knows of are those in the driver's state.
  unfoldable pub IsReported : Features F → Type 0
  IsReported p = buttons_from p.outputs 0 ≡ p.button_state

  pub report-buttons :
      (os : List Output) (p : Features F)
      → buttons_from (report os p).outputs 0 ≡ buttons_from os (buttons_from p.outputs 0)
  unfolding report
  report-buttons os p = buttons_from-append p.outputs os 0

  pub nudge-IsReported : (on : Bool) (p : Features F) → IsReported (nudge on p)
  unfolding IsReported nudge buttons_from
  nudge-IsReported on p = report-buttons _ p

  pub toggle-IsReported :
      (f : Toggles → Toggles) (is_on : Toggles → Bool) (p : Features F)
      → IsReported (toggle f is_on p)
  unfolding toggle
  toggle-IsReported f is_on p = nudge-IsReported (is_on (f p.toggles)) (set_toggles (f p.toggles) p)

  pub release_app_switch-IsReported :
      (p : Features F) → IsReported p → IsReported (release_app_switch p)
  unfolding IsReported release_app_switch set_app_switch_done buttons_from report
  release_app_switch-IsReported p r =
      if_holds IsReported p.is_app_switch_done _ p (report-buttons (notified 45 ∷ []) p ∙ r) r

  pub release_drag-IsReported : (p : Features F) → IsReported p → IsReported (release_drag p)
  unfolding IsReported release_drag set_buttons buttons_from report
  release_drag-IsReported p r =
      if_holds IsReported p.drag.is_dragging _ p (report-buttons (click 0 ∷ []) p) r

  pub do_context_menu-IsReported : (p : Features F) → IsReported (do_context_menu p)
  unfolding IsReported do_context_menu buttons_from report
  do_context_menu-IsReported p = report-buttons (click 2 ∷ click 0 ∷ []) p

  pub backlight_off-IsReported : (p : Features F) → IsReported p → IsReported (backlight_off p)
  unfolding IsReported backlight_off buttons_from report
  backlight_off-IsReported p r =
      if_holds IsReported p.is_kb_light_off p _ r (
        report-buttons (light_timer_cancelled ∷ light_timer p.kb_light_auto_off_timeout ∷ []) p ∙ r)

  pub backlight_on-IsReported :
      (now : ℕ) (p : Features F) → IsReported p → IsReported (backlight_on now p)
  unfolding IsReported backlight_on buttons_from report
  backlight_on-IsReported now p r =
      if_holds IsReported (lights_up now p) _ p
        (report-buttons (light_timer_cancelled ∷ light_timer 0 ∷ []) p ∙ r) r

  pub notified-IsReported :
      (n : ℕ) (p : Features F) → IsReported p → IsReported (report (notified n ∷ []) p)
  unfolding IsReported buttons_from report
  notified-IsReported n p r = report-buttons (notified n ∷ []) p ∙ r
