-- ===== src/Drivers.antt =====
-- The two drivers together: the notifications that the touchpad driver sends and the messages of
-- ACPI reach the keyboard driver through the controller (ApplePS2MouseDevice.cpp and
-- ApplePS2KeyboardDevice.cpp pass each call on).
pub mod Switcher
pub mod Closing
pub mod Typing
use apple_ps2smart_touch_pad.Common.{ℕ, List, [], ◌∷◌, Option, none, some, if◌then◌else◌, ◌==◌}
use apple_ps2smart_touch_pad.Controller.State.{keyboard}
use apple_ps2smart_touch_pad.Controller.Notifications.{Handlers, dispatch_ps2_notification, message}
use apple_ps2smart_touch_pad.Keyboard.State.{Keyboard}
use apple_ps2smart_touch_pad.Keyboard.Functions
use apple_ps2smart_touch_pad.Touchpad.Features.{Output, notified}

-- The handlers of the drivers, as `installPS2Notification` was given them.
pub data Handler : Type 0 where
  receive_touchpad_notifications receive_keyboard_notifications : Handler

-- A call of a handler, as far as the keyboard driver is concerned.
unfoldable pub call : Option (Handler × ℕ) → Keyboard → Keyboard
call none k = k
call (some (receive_touchpad_notifications, n)) k = Functions.receive_touchpad_notifications n k
call (some (receive_keyboard_notifications, n)) k = k

-- `ApplePS2MouseDevice::dispatchPS2Notification`.
unfoldable pub notify_keyboard : Handlers Handler → ℕ → Keyboard → Keyboard
unfolding call dispatch_ps2_notification
notify_keyboard hs n k = call (dispatch_ps2_notification keyboard n hs) k

-- The keyboard driver behind what the touchpad driver put out.
unfoldable pub deliver : Handlers Handler → List Output → Keyboard → Keyboard
unfolding notify_keyboard
deliver hs [] k = k
deliver hs (notified n ∷ os) k = deliver hs os (notify_keyboard hs n k)
deliver hs (_ ∷ os) k = deliver hs os k

-- The keyboard driver behind an event of ACPI.
unfoldable pub acpi_message : Handlers Handler → ℕ → Keyboard → Keyboard
unfolding call message
acpi_message hs event k = call (message event hs) k
