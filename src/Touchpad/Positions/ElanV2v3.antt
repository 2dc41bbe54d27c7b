-- ===== src/Touchpad/Positions/ElanV2v3.antt =====
-- `Process_ELANv2v3_Checks` and `Process_absolute_events_ELANv2v3` of ApplePS2SmartTouchPad.cpp.
use apple_ps2smart_touch_pad.Common.{
  ℕ, ◌+◌, ◌-◌, ◌%◌, ◌^◌, Bool, true, not, ◌||◌, ◌&&◌, List, some, ◌==◌, if◌then◌else◌, ltb, leb,
  has, pos, sub_ℕ,
}
use apple_ps2smart_touch_pad.Touchpad.Packets.Signatures.{packet_head}
use apple_ps2smart_touch_pad.Touchpad.Positions.{
  Finger, Hand, mode_idle, mode_1_fing_tap, mode_palm, Touch, fingers_change, touch_end,
  two_finger_edge_swipe, physical_buttons, trackpoint, single_finger_touch, multi_fingers_touch,
  two_fingers_touch, byte, position, coarse_position, from_top, packet_pressure, packet_width,
  packet_fingers, restarted, stopped, followed, placed_at, update, finger, finger_of, set_fingers,
  set_touch_mode,
}

abbrev packet_trackpoint : ℕ
packet_trackpoint = 8

abbrev pub set_pressure : ℕ → ℕ → Finger → Finger
set_pressure p w f = record f { pressure = p; width = w }

-- The difference of two coordinates without its sign.
unfoldable pub distance : ℕ → ℕ → ℕ
distance a b = if leb b a then a - b else b - a

-- The palm, by the pressure and the width of the first finger.
unfoldable pub is_palm : Hand → Bool
is_palm h =
    let f = finger 0 h in
    let wide = ltb h.palm.min_width f.width in
    (h.palm.detected && ((f.pressure == 0 && wide) || not (f.pressure == 0)))
    || (h.palm.detection_enabled
        && h.pad.gesture.fingers == 1
        && wide
        && (f.pressure == 0 || ltb h.palm.min_pressure f.pressure))

-- The last packet of a touch, of version 2 and of version 3.
unfoldable pub is_end_v2 : List ℕ → Hand → Bool
is_end_v2 packet h =
    (byte packet 0 == 0x04 || byte packet 0 == 0x14 || byte packet 0 == 0x24)
    && h.pad.gesture.fingers == 0
    && h.pad.gesture.button_data == 0

unfoldable pub is_end_v3 : Hand → Bool
is_end_v3 h =
    (finger 0 h).pressure == 0 && h.pad.gesture.fingers == 0 && h.pad.gesture.button_data == 0

unfoldable pub is_trackpoint : ℕ → Hand → Bool
is_trackpoint kind h =
    h.pad.gesture.fingers == 0
    && h.last_fingers == 0
    && ltb 0 (finger 0 h).pressure
    && not h.disable_track_point
    && (kind == packet_trackpoint || kind == packet_head)

-- A touch while typing.
unfoldable pub typing_mode : Hand → Hand
unfolding set_touch_mode
typing_mode h =
    set_touch_mode (if ltb h.gesture_time h.click_timeout then mode_1_fing_tap else mode_idle) h

-- One finger, or three as one: where it is.
unfoldable pub place_one : List ℕ → Hand → Hand
unfolding update placed_at position from_top
place_one packet h =
    update (some 0)
      (placed_at (position (byte packet 1) (byte packet 2))
        (from_top h.pad.ymax (position (byte packet 4) (byte packet 5))))
      h

-- The first packets start the movement, later ones go on with it.
unfoldable pub start_or_follow : Finger → Finger
start_or_follow f = record (restarted f) { tdx = pos 0; tdy = pos 0 }

unfoldable pub follow_one : Hand → Hand
unfolding update start_or_follow followed
follow_one h =
    if leb h.pad.gesture.packets_count 1
    then update (some 0) start_or_follow h
    else update (some 0) followed h

-- Two fingers in one packet of version 2.
unfoldable pub place_two_v2 : List ℕ → Hand → Hand
unfolding update placed_at coarse_position from_top
place_two_v2 packet h =
    let ymax = h.pad.ymax in
    let x0 = coarse_position (has (byte packet 0) 0x10) (byte packet 1) in
    let y0 = coarse_position (has (byte packet 0) 0x20) (byte packet 2) in
    let x1 = coarse_position (has (byte packet 3) 0x10) (byte packet 4) in
    let y1 = coarse_position (has (byte packet 3) 0x20) (byte packet 5) in
    update (some 1) (λ f. set_pressure 127 7 (placed_at x1 (from_top ymax y1) f))
      (update (some 0) (λ f. set_pressure 127 7 (placed_at x0 (from_top ymax y0) f)) h)

-- One of two fingers, in a packet of version 3.
unfoldable pub place_of_two : ℕ → List ℕ → Hand → Hand
unfolding update placed_at position from_top
place_of_two i packet h =
    update (some i)
      (placed_at (position (byte packet 1) (byte packet 2))
        (from_top h.pad.ymax (position (byte packet 4) (byte packet 5))))
      h

-- A finger starts anew, unless it has a start that a swipe or a second finger goes on from.
unfoldable pub restart_unless_kept : ℕ → Hand → Hand
unfolding update restarted
restart_unless_kept i h =
    let f = finger i h in
    let kept = ltb h.swipe_direction 3 || (h.last_fingers == 1 && h.pad.gesture.fingers == 2) in
    if (f.start_x == 0 && f.start_y == 0) || not kept then update (some i) restarted h else h

-- The finger that was there first may be the second by its place.
unfoldable pub swap_fingers : Hand → Hand
unfolding update restarted distance
swap_fingers h =
    let f = finger 0 h in
    let g = finger 1 h in
    if h.last_fingers == 1 && ltb (distance g.x f.last_x) (distance f.x f.last_x)
    then update (some 0) restarted (
        update (some 1)
          (λ g. record g {
            start_x = f.start_x;
            start_y = f.start_y;
            last_x = f.last_x;
            last_y = f.last_y;
          })
          h)
    else h

unfoldable pub take_time : ℕ → Hand → Hand
take_time now h = record h {
  gesture_time =
      if ltb 0 h.pad.gesture.packets_count
      then (h.gesture_time + (now + 2 ^ 64 - h.last_data_time)) % 2 ^ 64
      else h.gesture_time;
  last_data_time = now;
}

unfoldable pub count_packet : Hand → Hand
count_packet h = record h {
  pad = record h.pad {
    gesture = record h.pad.gesture { packets_count = (h.pad.gesture.packets_count + 1) % 256 };
  };
}

module _ (gestures : Touch → Hand → Hand) where
  unfoldable pub change_fingers : ℕ → Hand → Hand
  unfolding set_fingers
  change_fingers n h =
      if h.pad.gesture.fingers == n
      then h
      else let h1 = set_fingers n (record h { last_fingers = h.pad.gesture.fingers }) in
        if ltb 0 n then gestures fingers_change h1 else h1

  -- `Process_ELANv2v3_Checks`, at a time.
  unfoldable pub process_elan_v2v3_checks : ℕ → List ℕ → Hand → Hand
  unfolding update packet_pressure packet_width packet_fingers change_fingers take_time count_packet
  process_elan_v2v3_checks now packet h =
      let h1 = update (some 0) (set_pressure (packet_pressure packet) (packet_width packet)) h in
      let h2 = take_time now (change_fingers (packet_fingers packet) h1) in
      if h2.disable_clicks
      then h2
      else gestures (physical_buttons packet)
          (if h2.pad.gesture.fingers == 0 then count_packet h2 else h2)

  -- The cases of one finger and of three.
  unfoldable pub one_finger : List ℕ → Hand → Hand
  unfolding place_one follow_one update stopped
  one_finger packet h =
      let h1 = place_one packet h in
      let f = finger 0 h1 in
      let first = leb h1.pad.gesture.packets_count 1 in
      let dx = if first then pos 0 else sub_ℕ f.x f.last_x in
      let dy = if first then pos 0 else sub_ℕ f.y f.last_y in
      let h2 = follow_one h1 in
      let n = h2.pad.gesture.fingers in
      let h3 =
        if n == 1
        then gestures (single_finger_touch f.x f.y (some 0)) h2
        else if n == 3 && not h2.is_dragging
        then gestures (multi_fingers_touch dx dy (some 0)) h2
        else h2 in
      update (some 0) stopped h3

  -- The first packet with both fingers.
  unfoldable pub first_two : Hand → Hand
  unfolding restart_unless_kept swap_fingers update restarted
  first_two h =
      let h1 =
        restart_unless_kept 1 (restart_unless_kept 0 (record h { pid = some 0; sid = some 1 })) in
      let h2 = if h1.is_edge_gesture then h1 else gestures two_finger_edge_swipe h1 in
      if h2.is_edge_gesture
      then swap_fingers h2
      else update h2.sid restarted (update h2.pid restarted h2)

  unfoldable pub both_fingers : Hand → Hand
  unfolding first_two update followed stopped
  both_fingers h =
      let h1 =
        if leb h.pad.gesture.packets_count 1
        then first_two h
        else update (some 1) followed (update (some 0) followed h) in
      let f = finger_of h1.pid h1 in
      let g = finger_of h1.sid h1 in
      let h2 = gestures (two_fingers_touch f.x g.x f.y g.y) h1 in
      update h2.sid stopped (update h2.pid stopped h2)

  unfoldable pub two_fingers : ℕ → List ℕ → Hand → Hand
  unfolding place_two_v2 place_of_two both_fingers
  two_fingers kind packet h =
      if h.pad.hw_version == 2
      then both_fingers (place_two_v2 packet h)
      else if kind == packet_head
      then place_of_two 0 packet h
      else both_fingers (place_of_two 1 packet h)

  -- The switch over the number of fingers. Version 2 tells four fingers by a bit of their own.
  unfoldable pub move_fingers : ℕ → List ℕ → Hand → Hand
  unfolding one_finger two_fingers set_fingers
  move_fingers kind packet h =
      let n = h.pad.gesture.fingers in
      if n == 1
      then one_finger packet h
      else if n == 2
      then two_fingers kind packet h
      else if n == 3
      then one_finger packet
          (if h.pad.hw_version == 2 && has (byte packet 3) 0x80 then set_fingers 4 h else h)
      else h

  -- Behind the checks and the palm.
  unfoldable pub process_touch : ℕ → List ℕ → Hand → Hand
  unfolding is_end_v2 is_end_v3 is_trackpoint typing_mode move_fingers
  process_touch kind packet h =
      if h.pad.hw_version == 2 && is_end_v2 packet h
      then gestures touch_end h
      else if h.pad.hw_version == 3 && is_trackpoint kind h
      then gestures (trackpoint kind packet) h
      else if h.pad.hw_version == 3 && is_end_v3 h
      then gestures touch_end h
      else if h.pad.surroundings.accidental_input && h.pad.surroundings.tap_enable_touchpad
      then typing_mode h
      else move_fingers kind packet h

  -- `Process_absolute_events_ELANv2v3`.
  unfoldable pub process_absolute_events_elan_v2v3 : ℕ → ℕ → List ℕ → Hand → Hand
  unfolding process_elan_v2v3_checks is_palm process_touch set_touch_mode
  process_absolute_events_elan_v2v3 now kind packet h =
      let h1 = process_elan_v2v3_checks now packet h in
      if not h1.show_press_width && is_palm h1
      then set_touch_mode mode_palm (record h1 { palm = record h1.palm { detected = true } })
      else process_touch kind packet h1
