-- ===== src/Drivers/Closing.antt =====
-- How the touchpad driver closes the switcher of applications that a swipe opened.
use apple_ps2smart_touch_pad.Common.{
  ℕ, Bool, true, false, ◌&&◌, List, [], ◌∷◌, ◌++◌, some, ◌≡◌, refl, ap, ◌∙◌, append-nil, if_holds,
}
use apple_ps2smart_touch_pad.Controller.Notifications.{Handlers, handler, dispatch_ps2_notification}
use apple_ps2smart_touch_pad.Keyboard.Functions
use apple_ps2smart_touch_pad.Keyboard.Gestures.Held.{is_held}
use apple_ps2smart_touch_pad.Keyboard.State.{Keyboard}
use apple_ps2smart_touch_pad.Touchpad.Features.{
  Floats, Output, moved, placed, notified, light_timer, light_timer_cancelled, feature_timer,
  Features, report, set_buttons, set_app_switch_done, release_app_switch, click,
}
use apple_ps2smart_touch_pad.Touchpad.Notified.{
  escape, release_shift, release_drag, set_surroundings,
}
use apple_ps2smart_touch_pad.Touchpad.Swipes.{
  dispatch_edge_swipe, directed, begin_swipe, reset_pointer_to_middle,
}
use apple_ps2smart_touch_pad.Touchpad.Timers.{release_buttons_and_drag, let_go, is_due}
use apple_ps2smart_touch_pad.Drivers.{
  Handler, receive_touchpad_notifications, deliver, notify_keyboard, call,
}
use apple_ps2smart_touch_pad.Drivers.Switcher.{switcher_releases}

-- The notifications among some outputs.
unfoldable notices : List Output → List ℕ
notices [] = []
notices (notified n ∷ os) = n ∷ notices os
notices (_ ∷ os) = notices os

notices-append : (os ps : List Output) → notices (os ++ ps) ≡ notices os ++ notices ps
unfolding notices
notices-append [] ps = refl
notices-append (notified n ∷ os) ps = ap (λ (ns : List ℕ). n ∷ ns) (notices-append os ps)
notices-append (moved x y b ∷ os) ps = notices-append os ps
notices-append (placed x y b ∷ os) ps = notices-append os ps
notices-append (light_timer_cancelled ∷ os) ps = notices-append os ps
notices-append (light_timer n ∷ os) ps = notices-append os ps
notices-append (feature_timer n ∷ os) ps = notices-append os ps

unfoldable receive_all : List ℕ → Keyboard → Keyboard
receive_all [] k = k
receive_all (n ∷ ns) k = receive_all ns (Functions.receive_touchpad_notifications n k)

module _ (hs : Handlers Handler)
    (there : hs.of_keyboard ≡ some receive_touchpad_notifications) where
  notify_keyboard_lem :
      (n : ℕ) (k : Keyboard) → notify_keyboard hs n k ≡ Functions.receive_touchpad_notifications n k
  unfolding notify_keyboard dispatch_ps2_notification call handler
  notify_keyboard_lem n k = rw (there, notify_keyboard) refl

  -- Only the notifications reach the keyboard driver.
  deliver-notices : (os : List Output) (k : Keyboard) → deliver hs os k ≡ receive_all (notices os) k
  unfolding deliver notices receive_all
  deliver-notices [] k = refl
  deliver-notices (notified n ∷ os) k =
      ap (deliver hs os) (notify_keyboard_lem n k)
      ∙ deliver-notices os (Functions.receive_touchpad_notifications n k)
  deliver-notices (moved x y b ∷ os) k = deliver-notices os k
  deliver-notices (placed x y b ∷ os) k = deliver-notices os k
  deliver-notices (light_timer_cancelled ∷ os) k = deliver-notices os k
  deliver-notices (light_timer n ∷ os) k = deliver-notices os k
  deliver-notices (feature_timer n ∷ os) k = deliver-notices os k

module _ {F : Type 0} where
  -- What a driver has sent to the keyboard driver, with the switcher open or closed.
  unfoldable Sent : List ℕ → Bool → Features F → Type 0
  Sent ns open_now p = (notices p.outputs ≡ ns) × (p.is_app_switch_done ≡ open_now)

  report-notices :
      (os : List Output) (p : Features F)
      → notices (report os p).outputs ≡ notices p.outputs ++ notices os
  unfolding report
  report-notices os p = notices-append p.outputs os

  -- An output that is no notification.
  quiet-Sent :
      (os : List Output) (ns : List ℕ) (b : Bool) (p : Features F)
      → notices os ≡ []
      → Sent ns b p
      → Sent ns b (report os p)
  unfolding Sent report
  quiet-Sent os ns b p none_there s = (
    report-notices os p
        ∙ ap (λ ms. notices p.outputs ++ ms) none_there
        ∙ append-nil (notices p.outputs)
        ∙ s.0,
    s.1,
  )

  reset_pointer_to_middle-Sent :
      (ns : List ℕ) (b : Bool) (p : Features F)
      → Sent ns b p
      → Sent ns b (reset_pointer_to_middle p)
  unfolding reset_pointer_to_middle notices
  reset_pointer_to_middle-Sent ns b p s = quiet-Sent _ ns b p refl s

  swipe-Sent :
      (time direction : ℕ) (b : Bool) (p : Features F)
      → Sent [] b p
      → Sent (1 ∷ []) true (dispatch_edge_swipe time 1 direction p)
  unfolding dispatch_edge_swipe directed begin_swipe set_app_switch_done Sent notices report
  swipe-Sent time direction b p s =
      let p0 = set_app_switch_done true p in
      let p1 = record (report (notified 1 ∷ []) p0) { last_swipe_time = time } in
      let sent : Sent (1 ∷ []) true p1 =
        (report-notices (notified 1 ∷ []) p0 ∙ ap (λ ms. ms ++ 1 ∷ []) s.0, refl) in
      if_holds (Sent (1 ∷ []) true) (p1.reset_pointer_on_edge && true) _ p1
        (reset_pointer_to_middle-Sent (1 ∷ []) true p1 sent) sent

  release_app_switch-Sent :
      (ns : List ℕ) (p : Features F)
      → Sent ns true p
      → Sent (ns ++ 45 ∷ []) false (release_app_switch p)
  unfolding release_app_switch set_app_switch_done Sent notices report
  release_app_switch-Sent ns p s =
      rw (s.1, release_app_switch)
        (report-notices (notified 45 ∷ []) p ∙ ap (λ ms. ms ++ 45 ∷ []) s.0, refl)

  release_drag-Sent :
      (ns : List ℕ) (b : Bool) (p : Features F) → Sent ns b p → Sent ns b (release_drag p)
  unfolding release_drag set_buttons Sent notices report
  release_drag-Sent ns b p s =
      if_holds (Sent ns b) p.drag.is_dragging _ p (quiet-Sent (click 0 ∷ []) ns b p refl s) s

  let_go-Sent : (ns : List ℕ) (b : Bool) (p : Features F) → Sent ns b p → Sent ns b (let_go p)
  unfolding let_go set_buttons Sent notices report
  let_go-Sent ns b p s =
      if_holds (Sent ns b) (is_due p) _ p (quiet-Sent (click 0 ∷ []) ns b p refl s) s

  -- The two ways to close the switcher.
  timer-Sent :
      (p : Features F)
      → Sent (1 ∷ []) true p
      → Sent (1 ∷ 45 ∷ []) false (release_buttons_and_drag p)
  unfolding release_buttons_and_drag Sent
  timer-Sent p s =
      let_go-Sent (1 ∷ 45 ∷ []) false (release_app_switch p) (release_app_switch-Sent (1 ∷ []) p s)

  release_shift-Sent :
      (floats : Floats F) (ns : List ℕ) (b : Bool) (p : Features F)
      → Sent ns b p
      → Sent ns b (release_shift floats p)
  unfolding release_shift Sent
  release_shift-Sent floats ns b p s = if_holds (Sent ns b) p.is_toggle_key_on_hold _ p s s

  escape-Sent :
      (floats : Floats F) (now : ℕ) (p : Features F)
      → Sent (1 ∷ []) true p
      → Sent (1 ∷ 45 ∷ []) false (escape floats now p)
  unfolding escape set_surroundings Sent
  escape-Sent floats now p s =
      let p0 = record p { is_in_full_screen = false; tap_count = 0 } in
      let p1 = release_shift floats p0 in
      release_app_switch-Sent (1 ∷ []) (release_drag p1)
        (release_drag-Sent (1 ∷ []) true p1 (release_shift-Sent floats (1 ∷ []) true p0 s))

module _ (hs : Handlers Handler) (there : hs.of_keyboard ≡ some receive_touchpad_notifications)
    {F : Type 0} (floats : Floats F) where
  closes :
      (code : ℕ) (k : Keyboard) (p : Features F)
      → is_held code k ≡ false
      → Sent (1 ∷ 45 ∷ []) false p
      → (is_held code (deliver hs p.outputs k) ≡ false) × (p.is_app_switch_done ≡ false)
  unfolding Sent receive_all
  closes code k p up s = (
    ap (is_held code) (deliver-notices hs there p.outputs k)
        ∙ ap (λ ns. is_held code (receive_all ns k)) s.0
        ∙ switcher_releases code k up,
    s.1,
  )

  -- After a swipe that opens the switcher of applications, when the timer for buttons and drags
  -- fires or Escape is pressed, every key that was up before the swipe is up again, and the touchpad
  -- driver no longer takes the switcher for open.
  pub switcher_closes :
      (time direction now code : ℕ) (k : Keyboard) (p : Features F)
      → p.outputs ≡ []
      → is_held code k ≡ false
      → let q = dispatch_edge_swipe time 1 direction p in
        let by_timer = release_buttons_and_drag q in
        let by_escape = escape floats now q in
        ((is_held code (deliver hs by_timer.outputs k) ≡ false)
          × (by_timer.is_app_switch_done ≡ false))
        × ((is_held code (deliver hs by_escape.outputs k) ≡ false)
            × (by_escape.is_app_switch_done ≡ false))
  unfolding Sent notices
  switcher_closes time direction now code k p start up =
      let q = dispatch_edge_swipe time 1 direction p in
      let open_now : Sent (1 ∷ []) true q =
        swipe-Sent time direction p.is_app_switch_done p (ap notices start, refl) in
      (
        closes code k (release_buttons_and_drag q) up (timer-Sent q open_now),
        closes code k (escape floats now q) up (escape-Sent floats now q open_now),
      )
