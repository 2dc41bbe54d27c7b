-- ===== src/Touchpad/Notified/Runs.antt =====
-- What every case of the handler of notifications keeps, the handler keeps.
use apple_ps2smart_touch_pad.Common.{ℕ, Bool, Option, none, some}
use apple_ps2smart_touch_pad.Keyboard.Combinations.{Cases, case_of-Cases}
use apple_ps2smart_touch_pad.Touchpad.Features.{Toggles, Floats, Features, toggle}
use apple_ps2smart_touch_pad.Touchpad.Notified.{
  Flips, receive_quietly, receive_event, toggle_or_event, toggle_of, event_cases,
}

module _ {F : Type 0} (floats : Floats F) (P : Features F → Type 0) where
  toggle_or_event-Holds :
      (o : Option Flips) (now n : ℕ) (p : Features F)
      → ((flip : Toggles → Toggles) (is_on : Toggles → Bool) → P (toggle flip is_on p))
      → Cases P (event_cases floats now p)
      → P p
      → P (toggle_or_event floats o now n p)
  unfolding toggle_or_event receive_event
  toggle_or_event-Holds (some (flip, is_on)) now n p toggles events same = toggles flip is_on
  toggle_or_event-Holds none now n p toggles events same =
      case_of-Cases P n (event_cases floats now p) p events same

  pub receive_quietly-Holds :
      (now n : ℕ) (p : Features F)
      → ((flip : Toggles → Toggles) (is_on : Toggles → Bool) → P (toggle flip is_on p))
      → Cases P (event_cases floats now p)
      → P p
      → P (receive_quietly floats now n p)
  unfolding receive_quietly
  receive_quietly-Holds now n = toggle_or_event-Holds (toggle_of n) now n
