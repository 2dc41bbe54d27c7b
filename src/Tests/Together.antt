-- ===== src/Tests/Together.antt =====
-- The two drivers, and the controller between them.
use apple_ps2smart_touch_pad.Common.{ℕ, ℤ, true, false, none, some, List, [], ◌∷◌, ◌≡◌, refl, arith}
use apple_ps2smart_touch_pad.Controller.State.{keyboard, mouse}
use apple_ps2smart_touch_pad.Controller.Notifications.{
  Handlers, Call, install, uninstall, run_calls, IsBalanced, run_calls-IsBalanced,
}
use apple_ps2smart_touch_pad.Drivers.{
  Handler, receive_touchpad_notifications, receive_keyboard_notifications, deliver,
}
use apple_ps2smart_touch_pad.Drivers.Closing.{switcher_closes}
use apple_ps2smart_touch_pad.Drivers.Typing.{
  Stroke, pressed_times, strike_all, strike_all-accidental_input,
}
use apple_ps2smart_touch_pad.Keyboard.State.{Keyboard}
use apple_ps2smart_touch_pad.Touchpad.Features.{Features}
use apple_ps2smart_touch_pad.Touchpad.Notified.Typing.{is_accidental}
use apple_ps2smart_touch_pad.Keyboard.Gestures.Held.{is_held}
use apple_ps2smart_touch_pad.Touchpad.Notified.{escape, receive_quietly}
use apple_ps2smart_touch_pad.Touchpad.Swipes.{dispatch_edge_swipe}
use apple_ps2smart_touch_pad.Touchpad.Timers.{release_buttons_and_drag}
use apple_ps2smart_touch_pad.Tests.Gestures.{integers, features, typing}
use apple_ps2smart_touch_pad.Tests.Keys.{board}

abbrev both_handlers : Handlers Handler
both_handlers = record {
  of_keyboard = some receive_touchpad_notifications;
  of_mouse = some receive_keyboard_notifications;
  retains = 2;
}

switcher_closes_example :
    let q = dispatch_edge_swipe 5 1 0 features in
    let by_timer = release_buttons_and_drag q in
    let by_escape = escape integers 9 q in
    ((is_held 55 (deliver both_handlers by_timer.outputs board) ≡ false)
      × (by_timer.is_app_switch_done ≡ false))
    × ((is_held 55 (deliver both_handlers by_escape.outputs board) ≡ false)
        × (by_escape.is_app_switch_done ≡ false))
unfolding is_held board
switcher_closes_example =
    switcher_closes both_handlers refl integers 5 0 9 55 board features refl refl

abbrev some_calls : List (Call ℕ)
some_calls = install keyboard 7 ∷ uninstall mouse ∷ install keyboard 8 ∷ install mouse 9 ∷ []

run_calls-IsBalanced_example :
    IsBalanced (run_calls some_calls (record { of_keyboard = none; of_mouse = none; retains = 0 }))
unfolding IsBalanced
run_calls-IsBalanced_example =
    run_calls-IsBalanced some_calls (record { of_keyboard = none; of_mouse = none; retains = 0 })
      refl

-- An enabled touchpad for the keyboard, and three keys of which one is still down.
abbrev typist : Keyboard
typist = record board { is_tpad_enabled = true }

abbrev three_keys : List Stroke
three_keys =
    (1, 0x1e, true) ∷ (2, 0x1f, true) ∷ (3, 0x1e, false) ∷ (4, 0x20, true) ∷ (5, 0x1f, false) ∷ []

strike_all-accidental_input_example :
    (q : Features ℤ) × (strike_all integers both_handlers 3 three_keys typist
        (receive_quietly integers 0 36 typing)
      ≡ some q)
    × (is_accidental q ≡ true)
unfolding board pressed_times
strike_all-accidental_input_example =
    strike_all-accidental_input integers both_handlers 3 refl three_keys 0 3 typist typing
      (record { enabled = refl; ordinary = refl }) refl refl (omega arith)
