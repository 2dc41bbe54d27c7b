-- ===== src/Controller/Notifications.antt =====
-- ApplePS2Controller.cpp: the handlers of notifications that the two drivers install, the
-- notifications that go to them, and the messages of ACPI, which go to the keyboard's.
--
-- A handler with its target is of any type; `retains` counts the references to targets. The
-- installed flag is whether there is a handler.
use apple_ps2smart_touch_pad.Common.{
  ℕ, ◌+◌, ◌-◌, List, [], ◌∷◌, Option, none, some, ◌==◌, ◌≡◌, if◌then◌else◌, arith,
}
use apple_ps2smart_touch_pad.Controller.State.{DeviceType, keyboard, mouse}
use apple_ps2smart_touch_pad.Keyboard.Notices.{brightness_down, brightness_up}

pub record Handlers (A : Type 0) : Type 0 where
  pub of_keyboard : Option A
  pub of_mouse : Option A
  pub retains : ℕ

module _ {A : Type 0} where
  -- The handler for a device.
  unfoldable pub handler : DeviceType → Handlers A → Option A
  handler keyboard h = h.of_keyboard
  handler mouse h = h.of_mouse

  unfoldable set_handler : DeviceType → Option A → Handlers A → Handlers A
  set_handler keyboard a h = record h { of_keyboard = a }
  set_handler mouse a h = record h { of_mouse = a }

  unfoldable install_if : Option A → DeviceType → A → Handlers A → Handlers A
  unfolding set_handler
  install_if none d a h = record (set_handler d (some a) h) { retains = h.retains + 1 }
  install_if (some b) d a h = h

  -- `installPS2Notification`: the first that is installed stays.
  unfoldable pub install_ps2_notification : DeviceType → A → Handlers A → Handlers A
  unfolding handler install_if
  install_ps2_notification d a h = install_if (handler d h) d a h

  unfoldable uninstall_if : Option A → DeviceType → Handlers A → Handlers A
  unfolding set_handler
  uninstall_if none d h = h
  uninstall_if (some b) d h = record (set_handler d none h) { retains = h.retains - 1 }

  -- `uninstallPS2NotificationAction`.
  unfoldable pub uninstall_ps2_notification_action : DeviceType → Handlers A → Handlers A
  unfolding handler uninstall_if
  uninstall_ps2_notification_action d h = uninstall_if (handler d h) d h

  unfoldable pub with_notice : Option A → ℕ → Option (A × ℕ)
  with_notice none notice = none
  with_notice (some a) notice = some (a, notice)

  -- `dispatchPS2Notification`: the handler that is called, and with what.
  unfoldable pub dispatch_ps2_notification : DeviceType → ℕ → Handlers A → Option (A × ℕ)
  unfolding handler with_notice
  dispatch_ps2_notification d notice h = with_notice (handler d h) notice

-- The notification for an event of ACPI: two have one of their own, any other is passed on as it is.
unfoldable pub notice_of : ℕ → ℕ
notice_of event =
    if event == 0x10 then brightness_up else if event == 0x20 then brightness_down else event

-- `message`.
unfoldable pub message : {A : Type 0} → ℕ → Handlers A → Option (A × ℕ)
unfolding notice_of dispatch_ps2_notification
message event h =
    if event == 0 then none else dispatch_ps2_notification keyboard (notice_of event) h

-- What the drivers ask of the table.
pub data Call (A : Type 0) : Type 0 where
  install : DeviceType → A → Call A
  uninstall : DeviceType → Call A

module _ {A : Type 0} where
  unfoldable pub run_calls : List (Call A) → Handlers A → Handlers A
  unfolding install_ps2_notification uninstall_ps2_notification_action
  run_calls [] h = h
  run_calls (install d a ∷ cs) h = run_calls cs (install_ps2_notification d a h)
  run_calls (uninstall d ∷ cs) h = run_calls cs (uninstall_ps2_notification_action d h)

  abbrev count : Option A → ℕ
  count none = 0
  count (some a) = 1

  -- Each handler that is there holds one reference to its target.
  unfoldable pub IsBalanced : Handlers A → Type 0
  IsBalanced h = h.retains ≡ count h.of_keyboard + count h.of_mouse

  install-IsBalanced :
      (d : DeviceType) (a : A) (h : Handlers A)
      → IsBalanced h
      → IsBalanced (install_ps2_notification d a h)
  unfolding IsBalanced install_ps2_notification handler install_if set_handler
  install-IsBalanced keyboard a h b = ground arith
  install-IsBalanced mouse a h b = ground arith

  uninstall-IsBalanced :
      (d : DeviceType) (h : Handlers A)
      → IsBalanced h
      → IsBalanced (uninstall_ps2_notification_action d h)
  unfolding IsBalanced uninstall_ps2_notification_action handler uninstall_if set_handler
  uninstall-IsBalanced keyboard h b = ground arith
  uninstall-IsBalanced mouse h b = ground arith

  -- However the drivers install and uninstall handlers, the controller holds one reference for each
  -- that is there.
  pub run_calls-IsBalanced :
      (cs : List (Call A)) (h : Handlers A) → IsBalanced h → IsBalanced (run_calls cs h)
  unfolding run_calls
  run_calls-IsBalanced [] h b = b
  run_calls-IsBalanced (install d a ∷ cs) h b =
      run_calls-IsBalanced cs (install_ps2_notification d a h) (install-IsBalanced d a h b)
  run_calls-IsBalanced (uninstall d ∷ cs) h b =
      run_calls-IsBalanced cs (uninstall_ps2_notification_action d h) (uninstall-IsBalanced d h b)
