-- ===== src/Touchpad/Swipes.antt =====
-- ApplePS2SmartTouchPad.cpp: what a swipe from an edge leads to, `Dispatch_edgeSwipe`, with
-- `Open_NC` and `ResetPointerToMiddle`. The wait between quick swipes and the log are left out.
use apple_ps2smart_touch_pad.Common.{
  ℕ, ◌+◌, ◌/◌, true, not, ◌&&◌, [], ◌∷◌, ◌==◌, if◌then◌else◌, ltb, ℤ, pos, sub_ℕ,
}
use apple_ps2smart_touch_pad.Keyboard.Notices.{
  gesture_app_switch, gesture_desktop_switch_left, gesture_desktop_switch_right,
}
use apple_ps2smart_touch_pad.Touchpad.Features.{
  placed, notified, feature_timer, Features, report, set_app_switch_done,
}

abbrev gesture_nc_workaround : ℕ
gesture_nc_workaround = 17

-- `NC_REL_TIME`.
abbrev nc_rel_time : ℕ
nc_rel_time = 350

-- The gesture that is dispatched: a swipe outwards switches to the desktop on the other side.
unfoldable pub directed : ℕ → ℕ → ℕ
directed action direction =
    if action == gesture_desktop_switch_left && direction == 1
    then gesture_desktop_switch_right
    else if action == gesture_desktop_switch_right && direction == 1
    then gesture_desktop_switch_left
    else action

module _ {F : Type 0} where
  -- `ResetPointerToMiddle`.
  unfoldable pub reset_pointer_to_middle : Features F → Features F
  unfolding report
  reset_pointer_to_middle p =
      let t = p.pad in
      let middle =
        placed (pos ((t.xmin + t.xmax) / 2)) (pos ((t.ymin + t.ymax) / 2)) p.button_state in
      report (middle ∷ middle ∷ []) p

  -- Where the button of the notification centre is, out of full screen mode and in it.
  unfoldable pub nc_x : Features F → ℤ
  nc_x p =
      let xmax = p.pad.xmax in
      if not p.is_in_full_screen
      then sub_ℕ xmax 10
      else if ltb p.osx_version 10 && not (p.pad.hw_version == 2)
      then sub_ℕ xmax 110
      else sub_ℕ xmax 60

  unfoldable pub nc_y : Features F → ℤ
  nc_y p = pos (p.pad.ymin + (if p.is_in_full_screen then 8 else 5))

  -- `Open_NC`.
  unfoldable pub open_nc : Features F → Features F
  unfolding nc_x nc_y report reset_pointer_to_middle
  open_nc p =
      let at = placed (nc_x p) (nc_y p) in
      let p1 = record (report (at 0 ∷ []) p) { is_nc_done = true } in
      if p.is_in_full_screen
      then report (feature_timer nc_rel_time ∷ []) p1
      else reset_pointer_to_middle (report (at 1 ∷ at 0 ∷ []) p1)

  -- The rest of the `switch`.
  unfoldable pub begin_swipe : ℕ → Features F → Features F
  unfolding open_nc set_app_switch_done
  begin_swipe action p =
      if action == gesture_nc_workaround
      then open_nc p
      else if action == gesture_app_switch
      then set_app_switch_done true p
      else p

  -- `Dispatch_edgeSwipe`, at the time of the gesture.
  unfoldable pub dispatch_edge_swipe : ℕ → ℕ → ℕ → Features F → Features F
  unfolding directed begin_swipe report reset_pointer_to_middle
  dispatch_edge_swipe gesture_time action direction p =
      let gesture = directed action direction in
      let p1 = record (report (notified gesture ∷ []) (begin_swipe action p)) {
        last_swipe_time = gesture_time;
      } in
      if p1.reset_pointer_on_edge && not (gesture == gesture_nc_workaround)
      then reset_pointer_to_middle p1
      else p1
