-- ===== src/Drivers/Typing.antt =====
-- The notifications of the keyboard driver as the touchpad driver takes them, through the controller
-- (ApplePS2KeyboardDevice.cpp passes each call on); typing by the keys of the keyboard.
use apple_ps2smart_touch_pad.Common.{
  ◌&&◌, ℕ, Bool, true, false, ◌||◌, List, [], ◌∷◌, Option, none, some, ◌≡◌, ◌<◌, refl, ap, ◌∙◌, leb,
  length, and_then, if◌then◌else◌, if_holds,
}
use apple_ps2smart_touch_pad.Controller.State.{mouse}
use apple_ps2smart_touch_pad.Controller.Notifications.{
  Handlers, handler, with_notice, dispatch_ps2_notification,
}
use apple_ps2smart_touch_pad.Keyboard.Notices
use apple_ps2smart_touch_pad.Keyboard.State.{
  Keyboard, Event, key, notify, emit, dispatch_key, dispatch_notice,
}
use apple_ps2smart_touch_pad.Keyboard.Scan.{adb_code, normal_key}
use apple_ps2smart_touch_pad.Touchpad.Features.{Floats, Features}
use apple_ps2smart_touch_pad.Touchpad.Notified.{receive_quietly}
use apple_ps2smart_touch_pad.Touchpad.Notified
use apple_ps2smart_touch_pad.Touchpad.Notified.Typing.{
  is_accidental, type_keys, type_keys-accidental_input,
}
use apple_ps2smart_touch_pad.Drivers.{
  Handler, receive_touchpad_notifications, receive_keyboard_notifications,
}

-- A key at a time, pressed or released.
abbrev pub Stroke : Type 0
Stroke = ℕ × ℕ × Bool

-- The presses among some strokes.
unfoldable pub pressed_times : List Stroke → List ℕ
pressed_times [] = []
pressed_times ((now, code, down) ∷ ss) = if down then now ∷ pressed_times ss else pressed_times ss

-- Keys that are ordinary for the guard, while the touchpad is enabled.
pub record IsTyping (k : Keyboard) : Type 0 where
  pub enabled : k.is_tpad_enabled ≡ true
  pub ordinary : (k.is_acc_input_exception_key || k.is_num_pad_key) ≡ false

abbrev quiet : Keyboard → Keyboard
quiet k = record k { events = [] }

stroke-events :
    (code : ℕ) (k : Keyboard)
    → IsTyping k
    → (normal_key code true (quiet k)).events
      ≡ key (adb_code code k) true ∷ notify Notices.accidental_input ∷ []
unfolding normal_key
stroke-events code k t = rw (t.ordinary, t.enabled) refl

release-events :
    (code : ℕ) (k : Keyboard)
    → IsTyping k
    → (normal_key code false (quiet k)).events ≡ key (adb_code code k) false ∷ []
unfolding normal_key
release-events code k t = rw t.ordinary refl

-- An event keeps what the guard goes by.
emit-IsTyping : (es : List Event) (k : Keyboard) → IsTyping k → IsTyping (emit es k)
unfolding emit
emit-IsTyping es k t = record { enabled = t.enabled; ordinary = t.ordinary }

key-IsTyping :
    (code : ℕ) (down : Bool) (k : Keyboard) → IsTyping k → IsTyping (dispatch_key code down k)
unfolding dispatch_key emit
key-IsTyping code down k t = record { enabled = t.enabled; ordinary = t.ordinary }

stroke-IsTyping :
    (code : ℕ) (down : Bool) (k : Keyboard) → IsTyping k → IsTyping (normal_key code down (quiet k))
unfolding normal_key dispatch_notice
stroke-IsTyping code down k t =
    let quiet_k : IsTyping (quiet k) = record { enabled = t.enabled; ordinary = t.ordinary } in
    let k1 = dispatch_key (adb_code code (quiet k)) down (quiet k) in
    let t1 : IsTyping k1 = key-IsTyping (adb_code code (quiet k)) down (quiet k) quiet_k in
    if_holds IsTyping _ _ _ (emit-IsTyping (notify Notices.accidental_input ∷ []) k1 t1)
      (if_holds IsTyping _ _ k1 (emit-IsTyping (notify Notices.enable_touchpad ∷ []) k1 t1) t1)

module _ {F : Type 0} (floats : Floats F) (hs : Handlers Handler) (fuel : ℕ) where
  -- A call of a handler, as far as the touchpad driver is concerned.
  unfoldable pub call_touchpad : ℕ → Option (Handler × ℕ) → Features F → Option (Features F)
  call_touchpad now none p = some p
  call_touchpad now (some (receive_keyboard_notifications, n)) p =
      Notified.receive_keyboard_notifications floats fuel now n p
  call_touchpad now (some (receive_touchpad_notifications, n)) p = some p

  -- `ApplePS2KeyboardDevice::dispatchPS2Notification`.
  unfoldable pub notify_touchpad : ℕ → ℕ → Features F → Option (Features F)
  unfolding call_touchpad dispatch_ps2_notification
  notify_touchpad now n p = call_touchpad now (dispatch_ps2_notification mouse n hs) p

  -- The touchpad driver behind what the keyboard driver did.
  unfoldable pub hear : ℕ → List Event → Features F → Option (Features F)
  unfolding notify_touchpad and_then
  hear now [] p = some p
  hear now (notify n ∷ es) p = and_then (notify_touchpad now n p) (hear now es)
  hear now (_ ∷ es) p = hear now es p

  -- The keys come one after the other; the events of each go to the touchpad driver.
  unfoldable pub strike_all : List Stroke → Keyboard → Features F → Option (Features F)
  unfolding hear and_then normal_key
  strike_all [] k p = some p
  strike_all ((now, code, down) ∷ ss) k p =
      let k1 = normal_key code down (record k { events = [] }) in
      and_then (hear now k1.events p) (strike_all ss k1)

  module _ (there : hs.of_mouse ≡ some receive_keyboard_notifications) where
    hear-press :
        (now code : ℕ) (p : Features F)
        → hear now (key code true ∷ notify Notices.accidental_input ∷ []) p
          ≡ some (receive_quietly floats now Notices.accidental_input p)
    unfolding hear notify_touchpad call_touchpad dispatch_ps2_notification handler with_notice
        and_then Notified.receive_keyboard_notifications
    hear-press now code p = rw there refl

    hear-release : (now code : ℕ) (p : Features F) → hear now (key code false ∷ []) p ≡ some p
    unfolding hear
    hear-release now code p = refl

    -- The touchpad driver is told of the presses, each at its time.
    strike_all-type_keys :
        (ss : List Stroke) (k : Keyboard) (p : Features F)
        → IsTyping k
        → strike_all ss k p ≡ some (type_keys floats (pressed_times ss) p)
    unfolding strike_all type_keys pressed_times and_then
    strike_all-type_keys [] k p t = refl
    strike_all-type_keys ((now, code, true) ∷ ss) k p t =
        let k1 = normal_key code true (quiet k) in
        ap (λ (es : List Event). and_then (hear now es p) (strike_all ss k1))
          (stroke-events code k t)
        ∙ ap (λ (o : Option (Features F)). and_then o (strike_all ss k1))
            (hear-press now (adb_code code k) p)
        ∙ strike_all-type_keys ss k1 (receive_quietly floats now Notices.accidental_input p)
            (stroke-IsTyping code true k t)
    strike_all-type_keys ((now, code, false) ∷ ss) k p t =
        let k1 = normal_key code false (quiet k) in
        ap (λ (es : List Event). and_then (hear now es p) (strike_all ss k1))
          (release-events code k t)
        ∙ ap (λ (o : Option (Features F)). and_then o (strike_all ss k1))
            (hear-release now (adb_code code k) p)
        ∙ strike_all-type_keys ss k1 p (stroke-IsTyping code false k t)

    -- While ordinary keys are pressed and released, from the enabling of the touchpad on, with the guard
    -- on typing enabled and any threshold below 256, all notifications are dealt with, and the flag
    -- `accidentalInput` of the touchpad driver is set exactly when a key was pressed and at least as
    -- many were as the threshold says.
    pub strike_all-accidental_input :
        (ss : List Stroke) (now t : ℕ) (k : Keyboard) (p : Features F)
        → IsTyping k
        → p.pad.surroundings.is_type_mode_enabled ≡ true
        → p.acc_input_keys_count ≡ t
        → t < 256
        → (q : Features F) × (strike_all ss k (receive_quietly floats now Notices.enable_touchpad p)
            ≡ some q)
          × (is_accidental q
              ≡ (leb 1 (length (pressed_times ss)) && leb t (length (pressed_times ss))))
    strike_all-accidental_input ss now t k p typing on count hi =
        let p1 = receive_quietly floats now Notices.enable_touchpad p in
        (
          type_keys floats (pressed_times ss) p1,
          strike_all-type_keys ss k p1 typing,
          type_keys-accidental_input floats now t (pressed_times ss) p on count hi,
        )
