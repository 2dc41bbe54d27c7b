-- ===== src/Touchpad/Positions/Synaptics/Placing.antt =====
-- `Synaptics_report_absolute` of ApplePS2SmartTouchPad.cpp: from a position to the fingers that it is
-- of, and the palm.
use apple_ps2smart_touch_pad.Common.{
  ℕ, ◌+◌, ◌%◌, Bool, true, false, not, ◌||◌, ◌&&◌, List, none, some, ◌==◌, if◌then◌else◌, ltb, leb,
  has, ℤ,
}
use apple_ps2smart_touch_pad.Touchpad.Positions.{
  Finger, Hand, Touch, physical_buttons, finger, finger_of, update, restarted, placed_at, mode_palm,
  set_touch_mode,
}
use apple_ps2smart_touch_pad.Touchpad.Positions.ElanV2v3.{distance}
use apple_ps2smart_touch_pad.Touchpad.Positions.Synaptics.{
  SynapticsReport, tells_fingers, on_hand, stop_enhancing, count_fingers, change_count, stored,
}

abbrev pub fingers : SynapticsReport → ℕ
fingers r = r.hand.pad.gesture.fingers

abbrev set_width : ℕ → Finger → Finger
set_width w f = record f { width = w }

abbrev set_pressure : ℕ → Finger → Finger
set_pressure p f = record f { pressure = p }

-- A width of 4 and above: the palm is told apart by it, if the touchpad can.
unfoldable pub set_primary_width : SynapticsReport → SynapticsReport
unfolding on_hand update
set_primary_width r = elim r.hand.pid [
  | none ↦ on_hand (λ h. record h { pid = some 0; sid = none }) r
  | some i ↦
      let wide = if has r.hand.pad.syn_capabilities 0x01 then r.w else 5 in
      on_hand (update (some i) (set_width wide)) r
]

unfoldable pub clear_primary_width : Hand → Hand
unfolding update
clear_primary_width h = elim h.pid [ none ↦ h | some i ↦ update (some i) (set_width 0) h ]

-- Whether a finger starts with this packet.
unfoldable pub starts_here : Hand → Finger → Bool
starts_here h f =
    h.pad.gesture.packets_count == 0
    && (not (ltb h.swipe_direction 3 || (h.last_fingers == 1 && h.pad.gesture.fingers == 2))
        || (f.start_x == 0 && f.start_y == 0))

unfoldable pub place : ℕ → ℕ → ℕ → Hand → Finger → Finger
unfolding placed_at starts_here restarted
place x y pressure h f =
    let f1 = set_pressure pressure (placed_at x y f) in
    if starts_here h f1 then restarted f1 else f1

unfoldable pub place_primary : ℤ → ℤ → ℕ → Hand → Hand
unfolding place update stored
place_primary x y pressure h = elim h.pid [
  | none ↦ h
  | some i ↦
      if ltb 0 pressure
      then update (some i) (place (stored x) (stored y) pressure h) h
      else update (some i) (set_pressure 0) h
]

-- One finger moved far from where it started, while the other one did not.
unfoldable pub is_exchanged : Finger → Finger → Bool
unfolding distance
is_exchanged f g =
    (ltb 120 (distance f.start_x f.x) && ltb (distance g.start_x g.x) 120)
    || (ltb 120 (distance f.start_y f.y) && ltb (distance g.start_y g.y) 120)

-- The start of the second finger, when the first one's number went to another finger.
unfoldable pub second_start : Finger → Finger → Finger
unfolding distance
second_start f g =
    if ltb 120 (distance f.start_x g.x) || ltb 120 (distance f.start_y g.y)
    then record g { start_x = g.x; start_y = g.y }
    else record g { start_x = f.start_x; start_y = f.start_y }

-- From one finger to two: the starts are put right. Reading a finger that is not there is a fault.
unfoldable pub fix_starts : ℕ → Hand → Hand
unfolding is_exchanged second_start update
fix_starts j h =
    if ltb h.pad.gesture.packets_count 2 && h.last_fingers == 1 && h.pad.gesture.fingers == 2
    then (let h1 = update h.pid (λ f. f) h in
        let f = finger_of h1.pid h1 in
        if is_exchanged f (finger j h1)
        then update h1.pid (λ f. record f { start_x = f.x; start_y = f.y })
            (update (some j) (second_start f) h1)
        else h1)
    else h

unfoldable pub place_secondary : SynapticsReport → SynapticsReport
unfolding on_hand place fix_starts update
place_secondary r = elim r.hand.sid [
  | none ↦ r
  | some j ↦
      if ltb 0 r.secondary_pressure
      then on_hand
          (λ h. fix_starts j (
            update (some j)
              (place (r.secondary_x % 65536) (r.secondary_y % 65536) r.secondary_pressure h) h))
          r
      else on_hand (update (some j) (set_pressure 0)) r
]

-- The palm, by the first finger.
unfoldable pub looks_like_palm : ℕ → SynapticsReport → Bool
looks_like_palm pressure r =
    let f = finger 0 r.hand in
    let palm = r.hand.palm in
    let wide = ltb palm.min_width f.width in
    let hard = ltb palm.min_pressure f.pressure in
    (palm.detection_enabled
      && ((fingers r == 1 && wide && hard)
          || (ltb (fingers r) 3 && hard)
          || (palm.detected && not (fingers r == 0 && pressure == 0))))
    || r.hand.show_press_width
    || (fingers r == 1 && ltb 1 r.hand.last_fingers && wide)

unfoldable pub mark_palm : Hand → Hand
unfolding set_touch_mode
mark_palm h = set_touch_mode mode_palm (record h { palm = record h.palm { detected = true } })

-- A touch while typing, other than the end of one.
unfoldable pub is_accident : ℕ → SynapticsReport → Bool
is_accident pressure r =
    r.hand.pad.surroundings.accidental_input
    && r.hand.pad.surroundings.tap_enable_touchpad
    && not (fingers r == 0 && pressure == 0)

module _ (gestures : Touch → SynapticsReport → SynapticsReport) where
  -- The number of fingers by `w`, while the touchpad is touched.
  unfoldable pub count_touching : SynapticsReport → SynapticsReport
  unfolding change_count set_primary_width
  count_touching r =
      if not (has r.hand.pad.syn_capabilities 0x800000)
      then r
      else if r.w == 0 || (r.w == 1 && leb (fingers r) 3)
      then (if has r.hand.pad.syn_capabilities 0x02 then change_count gestures (r.w + 2) r else r)
      else if leb 4 r.w
      then set_primary_width (change_count gestures 1 r)
      else r

  -- Nothing touches.
  unfoldable pub count_none : List ℕ → SynapticsReport → SynapticsReport
  unfolding stop_enhancing count_fingers on_hand clear_primary_width
  count_none packet r =
      let r1 = if fingers r == 0 then r else stop_enhancing (count_fingers 0 r) in
      let r2 = on_hand clear_primary_width r1 in
      if not r2.hand.pad.is_click_pad && not r2.hand.disable_clicks
      then gestures (physical_buttons packet) r2
      else r2

  unfoldable pub place_fingers : List ℕ → ℤ → ℤ → ℕ → SynapticsReport → SynapticsReport
  unfolding count_touching count_none tells_fingers on_hand place_primary place_secondary
  place_fingers packet x y pressure r =
      let r1 = if ltb 0 pressure then count_touching r else count_none packet r in
      let r2 = record r1 {
        secondary_wait = if tells_fingers r1 then false else r1.secondary_wait;
      } in
      place_secondary (on_hand (place_primary x y pressure) r2)
