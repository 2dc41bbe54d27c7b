-- ===== src/Touchpad/Timers/Happenings.antt =====
-- Notifications of the keyboard and timers in any order.
use apple_ps2smart_touch_pad.Common.{
  ℕ, List, [], ◌∷◌, Option, none, some, refl, ◌==◌, if_holds, Holds, and_then, and_then-Holds,
}
use apple_ps2smart_touch_pad.Keyboard.Notices.{restore_touchpad}
use apple_ps2smart_touch_pad.Touchpad.{Touchpad}
use apple_ps2smart_touch_pad.Touchpad.Connect.{reconnect_touchpad}
use apple_ps2smart_touch_pad.Touchpad.Features.{Floats, Features}
use apple_ps2smart_touch_pad.Touchpad.Notified.{
  receive_quietly, receive_keyboard_notifications, restored, if_restored,
}
use apple_ps2smart_touch_pad.Touchpad.Timers.{
  process_features_toggle, release_buttons_and_drag, control_keyboard_back_light,
}

-- A notification at a time, by its number; a timer that fires.
pub data Happening : Type 0 where
  notice : ℕ → ℕ → Happening
  feature_timer button_drag_timer : Happening
  back_light_timer : ℕ → Happening

module _ {F : Type 0} (floats : Floats F) (fuel : ℕ) where
  unfoldable pub happen : Happening → Features F → Option (Features F)
  happen (notice now n) p = receive_keyboard_notifications floats fuel now n p
  happen feature_timer p = some (process_features_toggle p)
  happen button_drag_timer p = some (release_buttons_and_drag p)
  happen (back_light_timer now) p = some (control_keyboard_back_light now p)

  unfoldable pub happen_all : List Happening → Features F → Option (Features F)
  unfolding happen and_then
  happen_all [] p = some p
  happen_all (x ∷ xs) p = and_then (happen x p) (happen_all xs)

  -- What each handler keeps, all keep.
  module _ (P : Features F → Type 0)
      (quiet : (now n : ℕ) (p : Features F) → P p → P (receive_quietly floats now n p))
      (again : (now : ℕ) (t : Touchpad) (p : Features F) → P p → P (restored now t p))
      (toggles : (p : Features F) → P p → P (process_features_toggle p))
      (releases : (p : Features F) → P p → P (release_buttons_and_drag p))
      (lights : (now : ℕ) (p : Features F) → P p → P (control_keyboard_back_light now p)) where
    if_restored-Holds :
        (now : ℕ) (t : Option Touchpad) (p : Features F) → P p → Holds P (if_restored now t p)
    unfolding Holds if_restored
    if_restored-Holds now none p h = refl
    if_restored-Holds now (some t) p h = again now t p h

    happen-Holds : (x : Happening) (p : Features F) → P p → Holds P (happen x p)
    unfolding Holds happen receive_keyboard_notifications
    happen-Holds (notice now n) p h =
        if_holds (Holds P) (n == restore_touchpad) _ _
          (if_restored-Holds now (reconnect_touchpad fuel p.pad) p h) (quiet now n p h)
    happen-Holds feature_timer p h = toggles p h
    happen-Holds button_drag_timer p h = releases p h
    happen-Holds (back_light_timer now) p h = lights now p h

    pub happen_all-Holds : (xs : List Happening) (p : Features F) → P p → Holds P (happen_all xs p)
    unfolding happen_all Holds
    happen_all-Holds [] p h = h
    happen_all-Holds (x ∷ xs) p h =
        and_then-Holds P P (happen x p) (happen_all xs) (happen-Holds x p h) (happen_all-Holds xs)
