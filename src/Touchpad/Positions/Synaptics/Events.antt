-- ===== src/Touchpad/Positions/Synaptics/Events.antt =====
-- `Synaptics_report_absolute` and `Process_passthrough_events_Synaptics` of ApplePS2SmartTouchPad.cpp:
-- the gestures that the fingers are handed to, and the whole handler of a packet.
--
-- The handler runs on fuel for the two loops of the middle button; `none` is a loop that goes on.
use apple_ps2smart_touch_pad.Common.{
  ℕ, ◌+◌, ◌%◌, Bool, true, false, not, ◌||◌, ◌&&◌, List, Option, none, some, ◌==◌, if◌then◌else◌,
  ltb, leb, bit_and, has, ℤ, sub_ℕ, and_then,
}
use apple_ps2smart_touch_pad.Touchpad.Positions.{
  Finger, Hand, Touch, touch_end, two_finger_edge_swipe, physical_buttons, single_finger_touch,
  multi_fingers_touch, two_fingers_touch, click_pad_virtual_buttons, click_pad_2f, byte, finger_of,
  update, restarted, stopped, followed, placed_at,
}
use apple_ps2smart_touch_pad.Touchpad.Positions.ElanV2v3.{typing_mode, take_time}
use apple_ps2smart_touch_pad.Touchpad.Positions.ElanV4.{click_drag}
use apple_ps2smart_touch_pad.Touchpad.Positions.Synaptics.{
  SynapticsReport, Decoded, position_at, dealt_with, on_hand, decode_packet, unwrapped, stored,
}
use apple_ps2smart_touch_pad.Touchpad.Positions.Synaptics.Scroll.{middle_scroll}
use apple_ps2smart_touch_pad.Touchpad.Positions.Synaptics.Placing.{
  fingers, place_fingers, looks_like_palm, mark_palm, is_accident,
}

-- A packet of the track stick or of its buttons.
unfoldable pub is_pass_through : List ℕ → SynapticsReport → Bool
is_pass_through packet r =
    has r.hand.pad.syn_capabilities 0x80
    && has r.ext_cap_10 0x010000
    && bit_and (byte packet 0) 0xfc == 0x84
    && bit_and (byte packet 3) 0xcc == 0xc4

abbrev is_some : Option ℕ → Bool
is_some none = false
is_some (some i) = true

abbrev is_pad_finger : Option ℕ → Bool
is_pad_finger none = false
is_pad_finger (some i) = ltb i 5

-- The end of a touch.
unfoldable pub is_touch_end : ℕ → SynapticsReport → Bool
is_touch_end pressure r =
    not r.touch_ended
    && pressure == 0
    && fingers r == 0
    && r.hand.pad.gesture.button_data == 0
    && (is_pad_finger r.hand.pid || is_some r.hand.sid)

unfoldable pub on_button_area : Hand → Hand
on_button_area h = record h {
  is_fing_on_btn_area = ltb h.pad.ymax ((finger_of h.pid h).y + h.click_pad_v_btn_area);
}

unfoldable pub uncount_first : Hand → Hand
uncount_first h = record h {
  pad = record h.pad {
    gesture = record h.pad.gesture { packets_count = (h.pad.gesture.packets_count + 255) % 256 };
  };
}

-- Both fingers at once.
unfoldable pub both : (Finger → Finger) → Hand → Hand
unfolding update
both change h = let h1 = update h.pid change h in update h1.sid change h1

module _ (gestures : Touch → SynapticsReport → SynapticsReport) where
  unfoldable pub process_passthrough_events_synaptics :
      List ℕ → ℤ → ℤ → SynapticsReport → SynapticsReport
  unfolding on_hand update placed_at stopped stored
  process_passthrough_events_synaptics packet x y r =
      let r1 = gestures (physical_buttons packet) r in
      if byte packet 2 == 0 && byte packet 4 == 0 && byte packet 5 == 0
      then r1
      else let r2 =
          on_hand
            (λ h. update (some 5) (placed_at (stored x) (stored y)) (record h { pid = some 5 }))
            r1 in
        let r3 = gestures (single_finger_touch (stored x) (stored y) (some 5)) r2 in
        on_hand (λ h. update h.pid stopped h) r3

  -- One finger: the buttons of the touchpad, those of a click pad, the pointer. To read a finger that
  -- is not there is a fault.
  unfoldable pub one_touch : List ℕ → SynapticsReport → SynapticsReport
  unfolding on_hand update on_button_area click_drag stopped
  one_touch packet r =
      let pad = r.hand.pad in
      let r1 =
        if not pad.is_click_pad && not r.hand.disable_clicks
        then gestures (physical_buttons packet) r
        else if ltb 0 pad.gesture.packets_count
        then (let r2 = on_hand (λ h. on_button_area (update h.pid (λ f. f) h)) r in
            on_hand click_drag (gestures (click_pad_virtual_buttons packet 0 r2.hand.pid 1) r2))
        else r in
      let r3 = on_hand (λ h. update h.pid (λ f. f) h) r1 in
      let f = finger_of r3.hand.pid r3.hand in
      on_hand (λ h. update h.pid stopped h) (gestures (single_finger_touch f.x f.y r3.hand.pid) r3)

  -- The first packets of two fingers start anew, unless they swipe from an edge.
  unfoldable pub first_touches : SynapticsReport → SynapticsReport
  unfolding on_hand both restarted
  first_touches r =
      let r1 = if r.hand.is_edge_gesture then r else gestures two_finger_edge_swipe r in
      if r1.hand.is_edge_gesture then r1 else on_hand (both restarted) r1

  unfoldable pub two_touches : List ℕ → SynapticsReport → SynapticsReport
  unfolding first_touches on_hand both stopped
  two_touches packet r =
      let r1 = if leb r.hand.pad.gesture.packets_count 1 then first_touches r else r in
      let r2 = on_hand (both (λ f. f)) r1 in
      let f = finger_of r2.hand.pid r2.hand in
      let g = finger_of r2.hand.sid r2.hand in
      let moved =
        click_pad_2f packet 1 (sub_ℕ f.x f.last_x) (sub_ℕ f.y f.last_y) (sub_ℕ g.x g.last_x)
          (sub_ℕ g.y g.last_y) in
      let touch =
        if r2.hand.pad.is_click_pad && ltb 1 r2.hand.pad.gesture.packets_count
        then moved
        else two_fingers_touch f.x g.x f.y g.y in
      on_hand (both stopped) (gestures touch r2)

  -- The movement of one of many fingers.
  unfoldable pub move_one :
      Option ℕ → (SynapticsReport → Option ℕ) → SynapticsReport → SynapticsReport
  unfolding on_hand update followed stopped
  move_one i number r =
      let f = finger_of i r.hand in
      let r1 = on_hand (update i followed) r in
      let r2 = gestures (multi_fingers_touch (sub_ℕ f.x f.last_x) (sub_ℕ f.y f.last_y) i) r1 in
      on_hand (λ h. update (number r2) stopped h) r2

  unfoldable pub many_touches : List ℕ → SynapticsReport → SynapticsReport
  unfolding move_one on_hand uncount_first
  many_touches packet r =
      let r1 = if is_some r.hand.pid then move_one r.hand.pid (λ s. s.hand.pid) r else r in
      if is_some r1.hand.pid && is_some r1.hand.sid
      then (let r2 =
            if r1.hand.pad.is_click_pad
            then gestures (click_pad_virtual_buttons packet 1 (some 0) (fingers r1)) r1
            else r1 in
          move_one r2.hand.sid (λ s. s.hand.sid) (on_hand uncount_first r2))
      else r1

  -- The switch over the number of fingers.
  unfoldable pub process_fingers : List ℕ → SynapticsReport → SynapticsReport
  unfolding one_touch two_touches many_touches
  process_fingers packet r =
      let n = fingers r in
      if n == 1
      then one_touch packet r
      else if n == 2
      then two_touches packet r
      else if leb 3 n && leb n 5
      then many_touches packet r
      else r

  -- Behind the placing of the fingers: the palm, typing, the gestures.
  unfoldable pub process_report : ℕ → List ℕ → ℕ → SynapticsReport → SynapticsReport
  unfolding looks_like_palm mark_palm is_accident on_hand take_time is_touch_end process_fingers
      typing_mode
  process_report now packet pressure r =
      let palm = looks_like_palm pressure r in
      if palm && fingers r == 1 && ltb 1 r.hand.last_fingers
      then r
      else if palm && not r.hand.show_press_width
      then on_hand mark_palm r
      else if is_accident pressure r
      then on_hand typing_mode r
      else let r1 = on_hand (take_time now) r in
        if is_touch_end pressure r1 then gestures touch_end r1 else process_fingers packet r1

  -- What is done with a position.
  unfoldable pub report_position :
      ℕ → ℕ → List ℕ → ℤ → ℤ → ℕ → SynapticsReport → Option SynapticsReport
  unfolding middle_scroll and_then is_pass_through process_passthrough_events_synaptics
      place_fingers process_report
  report_position fuel now packet x y pressure r =
      if not (r.m_scroll == 0)
      then and_then (middle_scroll fuel r.m_scroll) (λ m. some (record r { m_scroll = m }))
      else if is_pass_through packet r
      then some (process_passthrough_events_synaptics packet x y r)
      else some (process_report now packet pressure (place_fingers gestures packet x y pressure r))

  unfoldable pub handled : ℕ → ℕ → List ℕ → Decoded → Option SynapticsReport
  unfolding unwrapped report_position
  handled fuel now packet (dealt_with r) = some r
  handled fuel now packet (position_at x y pressure r) =
      report_position fuel now packet (unwrapped x) (unwrapped y) pressure r

  -- `Synaptics_report_absolute`.
  unfoldable pub synaptics_report_absolute :
      ℕ → ℕ → List ℕ → SynapticsReport → Option SynapticsReport
  unfolding decode_packet handled
  synaptics_report_absolute fuel now packet r =
      handled fuel now packet (decode_packet gestures packet r)
