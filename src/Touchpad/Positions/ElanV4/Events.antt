-- ===== src/Touchpad/Positions/ElanV4/Events.antt =====
-- `Process_absolute_events_ELANv4AndFocalTech` of ApplePS2SmartTouchPad.cpp: its switch over the type
-- of a packet.
use apple_ps2smart_touch_pad.Common.{
  ℕ, ◌+◌, ◌%◌, Bool, true, false, not, ◌||◌, ◌&&◌, List, none, some, ◌==◌, if◌then◌else◌, ltb, leb,
  ℤ, sub_ℕ,
}
use apple_ps2smart_touch_pad.Touchpad.Packets.Signatures.{
  packet_status, packet_absolute, packet_relative,
}
use apple_ps2smart_touch_pad.Touchpad.Positions.{
  Hand, TouchMode, mode_palm, mode_buttons, Touch, fingers_change, touch_end, two_finger_edge_swipe,
  physical_buttons, single_finger_touch, multi_fingers_touch, two_fingers_touch,
  click_pad_virtual_buttons, click_pad_2f, byte, restarted, stopped, update, finger, finger_of,
  set_fingers, set_touch_mode, ◌+ℤ◌, moved_by,
}
use apple_ps2smart_touch_pad.Touchpad.Positions.ElanV2v3.{typing_mode, take_time, count_packet}
use apple_ps2smart_touch_pad.Touchpad.Positions.ElanV4.{
  head_pressure, is_palm_v4, fingers_of_mask, tap_in_move, packet_finger, read_finger, begin_finger,
  click_drag, find_button_area, weight, relative_id, same_finger, is_some, move_finger, set_start,
  signed, times, minus,
}

abbrev is_buttons_mode : TouchMode → Bool
is_buttons_mode mode_buttons = true
is_buttons_mode _ = false

module _ (gestures : Touch → Hand → Hand) where
  -- The last status packet of a touch: the buttons, and whether the touch has ended.
  unfoldable pub no_fingers : List ℕ → Hand → Hand
  unfolding count_packet
  no_fingers packet h =
      let h1 =
        if h.pad.is_click_pad
        then gestures (click_pad_virtual_buttons packet packet_status (some 0) 1) h
        else if h.disable_clicks
        then h
        else gestures (physical_buttons packet) (count_packet h) in
      if ltb 0 h1.last_fingers && not (is_buttons_mode h1.touch_mode) && not h1.show_press_width
      then gestures touch_end h1
      else gestures fingers_change h1

  -- The case `PACKET_STATUS`. A mask of fingers that is not known stays where the number was.
  unfoldable pub status_packet : List ℕ → Hand → Hand
  unfolding fingers_of_mask set_fingers no_fingers tap_in_move
  status_packet packet h =
      let mask = byte packet 1 % 32 in
      let h1 = set_fingers mask (record h { last_fingers = h.pad.gesture.fingers }) in
      elim (fingers_of_mask mask) as (λ x. Hand) [
        | none ↦ h1
        | some n ↦
            if n == 0
            then no_fingers packet h1
            else gestures fingers_change (set_fingers n (if mask == 2 then tap_in_move h1 else h1))
      ]

  unfoldable pub one_of_one : ℕ → List ℕ → Hand → Hand
  unfolding click_drag find_button_area
  one_of_one fid packet h =
      let h1 =
        if not h.pad.is_click_pad && not h.disable_clicks
        then gestures (physical_buttons packet) h
        else if ltb 0 h.pad.gesture.packets_count
        then click_drag (
            gestures (click_pad_virtual_buttons packet packet_absolute (some fid) 1)
              (find_button_area fid h))
        else h in
      gestures (single_finger_touch (finger fid h1).x (finger fid h1).y (some fid)) h1

  -- Two fingers that are no swipe from the edge start anew.
  unfoldable pub restart_two : Hand → Hand
  unfolding update restarted
  restart_two h =
      let h1 = if h.is_edge_gesture then h else gestures two_finger_edge_swipe h in
      if h1.is_edge_gesture then h1 else update h1.sid restarted (update h1.pid restarted h1)

  -- One of several fingers. The position that was just read is moved on by the way to it.
  unfoldable pub one_of_many : ℕ → List ℕ → Hand → Hand
  unfolding update moved_by
  one_of_many fid packet h =
      let n = h.pad.gesture.fingers in
      let h1 =
        if h.pad.is_click_pad
        then gestures (click_pad_virtual_buttons packet packet_absolute (some fid) n) h
        else h in
      let f = finger fid h1 in
      let dx = sub_ℕ f.x f.last_x in
      let dy = sub_ℕ f.y f.last_y in
      let h2 = update (some fid) (moved_by dx dy) h1 in
      let n2 = h2.pad.gesture.fingers in
      if n2 == 2 && is_some h2.pid && is_some h2.sid
      then (let p = finger_of h2.pid h2 in
          let s = finger_of h2.sid h2 in gestures (two_fingers_touch p.x s.x p.y s.y) h2)
      else if ltb 2 n2
      then gestures (multi_fingers_touch dx dy (some fid)) h2
      else h2

  -- The case `PACKET_ABSOLUTE`, for a finger with a number.
  unfoldable pub absolute_finger : ℕ → List ℕ → Hand → Hand
  unfolding update read_finger begin_finger one_of_one restart_two one_of_many stopped
  absolute_finger fid packet h =
      let h1 = begin_finger fid (update (some fid) (read_finger packet h) h) in
      let n = h1.pad.gesture.fingers in
      let h2 =
        if n == 1
        then one_of_one fid packet h1
        else if n == 2
        then one_of_many fid packet (restart_two h1)
        else if leb 3 n && leb n 5
        then one_of_many fid packet h1
        else h1 in
      update (some fid) stopped h2

  unfoldable pub absolute_packet : List ℕ → Hand → Hand
  unfolding packet_finger absolute_finger
  absolute_packet packet h = elim (packet_finger packet h) as (λ x. Hand) [
    | none ↦ h
    | some fid ↦ absolute_finger fid packet h
  ]

  -- Two fingers that moved; `d` are their movements.
  unfoldable pub moved_two : List ℕ → (ℤ × ℤ) → (ℤ × ℤ) → Hand → Hand
  unfolding update set_start
  moved_two packet dp ds h =
      if h.pad.is_click_pad
      then (let h1 =
            if h.pad.gesture.packets_count == 1 && not h.is_edge_gesture
            then update h.sid set_start (update h.pid set_start h)
            else h in
          gestures (click_pad_2f packet packet_relative dp.0 dp.1 ds.0 ds.1) h1)
      else (let p = finger_of h.pid h in
          let s = finger_of h.sid h in gestures (two_fingers_touch p.x s.x p.y s.y) h)

  unfoldable pub uncount_packet : Hand → Hand
  uncount_packet h = record h {
    pad = record h.pad {
      gesture = record h.pad.gesture { packets_count = (h.pad.gesture.packets_count + 255) % 256 };
    };
  }

  -- Two of several fingers that moved. The second counts as the same packet.
  unfoldable pub moved_many : List ℕ → (ℤ × ℤ) → (ℤ × ℤ) → Hand → Hand
  unfolding uncount_packet
  moved_many packet dp ds h =
      let h1 =
        if h.pad.is_click_pad
        then gestures (click_pad_virtual_buttons packet packet_relative h.pid h.pad.gesture.fingers)
            h
        else h in
      if not h1.is_dragging || h1.is_3f_drag
      then (let h2 = gestures (multi_fingers_touch dp.0 dp.1 h1.pid) h1 in
          if is_some h2.sid
          then gestures (multi_fingers_touch ds.0 ds.1 h2.sid) (uncount_packet h2)
          else h2)
      else h1

  -- The case `PACKET_RELATIVE`: two's complement, of two fingers. Of one finger with both numbers
  -- the second movement to the side counts, and the sum of both along.
  unfoldable pub relative_packet : List ℕ → Hand → Hand
  unfolding relative_id weight times signed minus ◌+ℤ◌ move_finger moved_two moved_many update
      stopped
  relative_packet packet h =
      let p = relative_id (byte packet 0) h in
      let s = relative_id (byte packet 3) h in
      let w = weight packet h in
      let dx = times w (signed (byte packet 1)) in
      let dy = minus (times w (signed (byte packet 2))) in
      let ex = times w (signed (byte packet 4)) in
      let own_ey = minus (times w (signed (byte packet 5))) in
      let same = same_finger p s in
      let ey = if same then dy +ℤ own_ey else own_ey in
      let h1 = move_finger s ex ey (move_finger p dx dy (record h { pid = p; sid = s })) in
      if not (is_some p && is_some s)
      then h1
      else let dp = if same then (ex, ey) else (dx, dy) in
        let n = h1.pad.gesture.fingers in
        let h2 =
          if n == 2
          then moved_two packet dp (ex, ey) h1
          else if leb 3 n && leb n 5
          then moved_many packet dp (ex, ey) h1
          else h1 in
        let h3 = update h2.pid stopped h2 in if is_some h3.sid then update h3.sid stopped h3 else h3

  -- A palm, or the pressure that is to be shown, is measured anew for one finger.
  unfoldable pub measure : List ℕ → Hand → Hand
  unfolding update head_pressure
  measure packet h =
      if h.pad.gesture.fingers == 1 then update (some 0) (head_pressure packet) h else h

  unfoldable pub note_palm : List ℕ → Hand → Hand
  unfolding measure set_touch_mode
  note_palm packet h =
      let h1 = measure packet h in
      set_touch_mode mode_palm (record h1 { palm = record h1.palm { detected = true } })

  -- The switch over the type.
  unfoldable pub switch_v4 : ℕ → List ℕ → Hand → Hand
  unfolding status_packet absolute_packet relative_packet
  switch_v4 kind packet h =
      if kind == packet_status
      then status_packet packet h
      else if kind == packet_absolute
      then absolute_packet packet h
      else if kind == packet_relative
      then relative_packet packet h
      else h

  -- Behind the palm.
  unfoldable pub process_touch_v4 : ℕ → ℕ → List ℕ → Hand → Hand
  unfolding typing_mode switch_v4 take_time
  process_touch_v4 now kind packet h =
      if h.pad.surroundings.accidental_input
        && h.pad.surroundings.tap_enable_touchpad
        && not (kind == packet_status)
      then typing_mode h
      else switch_v4 kind packet (take_time now h)

  -- `Process_absolute_events_ELANv4AndFocalTech`.
  unfoldable pub process_absolute_events_elan_v4_focaltech : ℕ → ℕ → List ℕ → Hand → Hand
  unfolding is_palm_v4 measure note_palm process_touch_v4
  process_absolute_events_elan_v4_focaltech now kind packet h =
      if h.show_press_width
      then process_touch_v4 now kind packet (measure packet h)
      else if is_palm_v4 h
      then (let h1 = note_palm packet h in
          if kind == packet_status then process_touch_v4 now kind packet h1 else h1)
      else process_touch_v4 now kind packet h
