-- ===== src/Tests/Reports.antt =====
-- A Synaptics touchpad: its packets, the fingers, the middle button.
use apple_ps2smart_touch_pad.Common.{
  ℕ, ◌+◌, ◌^◌, true, false, some, none, List, [], ◌∷◌, ◌≡◌, refl, arith, pos, has, and_then,
}
use apple_ps2smart_touch_pad.Touchpad.Positions.{Touch, byte, finger}
use apple_ps2smart_touch_pad.Touchpad.Positions.Synaptics.{
  SynapticsReport, new_w, new_x, new_y, tells_fingers, extended_packet, on_hand, stored,
}
use apple_ps2smart_touch_pad.Touchpad.Positions.Synaptics.Placing.{place_primary, place_secondary}
use apple_ps2smart_touch_pad.Touchpad.Positions.Synaptics.Events.{synaptics_report_absolute}
use apple_ps2smart_touch_pad.Touchpad.Positions.Synaptics.Hangs.{
  TellsPosition, ScrollsMiddle, even_scroll-hangs, odd_scroll-hangs,
  synaptics_report_absolute-returns,
}
use apple_ps2smart_touch_pad.Touchpad.Positions.Synaptics.Fields.{new_packet, new_packet-fields}
use apple_ps2smart_touch_pad.Touchpad.Positions.Synaptics.Bounds.{finger_state-memory_faults}
use apple_ps2smart_touch_pad.Touchpad.Positions.Changes.{
  Change, no_motion, before_clearing, clears, first_cleared, process_fingers_change, update_slots,
  stop_timers, end_drag, clear_fingers, next_touch,
}
use apple_ps2smart_touch_pad.Touchpad.Positions.Changes.Starts.{
  StartsAt, process_fingers_change-place,
}
use apple_ps2smart_touch_pad.Tests.Gestures.{hand}

-- Packets of the new kind, a middle button.
abbrev report : SynapticsReport
report = record {
  hand = record hand { pad = record hand.pad { syn_capabilities = 0x840002; ymax = 5000 } };
  model_id = 0x80;
  ext_cap = 0;
  ext_cap_10 = 0;
  ext_buttons = 0;
  w = 0;
  secondary_x = 0;
  secondary_y = 0;
  secondary_pressure = 0;
  secondary_wait = false;
  m_scroll = 0;
  touch_ended = false;
  p_dx = pos 0;
  p_dy = pos 0;
  p_continuous_move = false;
  pointer_timer_is_set = false;
}

-- The gestures are left out.
abbrev no_gestures : Touch → SynapticsReport → SynapticsReport
no_gestures touch r = r

-- The middle button, by an even and by an odd amount, and a finger.
abbrev even_scroll : List ℕ
even_scroll = new_packet 2 0 2048 0

abbrev odd_scroll : List ℕ
odd_scroll = new_packet 2 0 2304 0

abbrev single_touch : List ℕ
single_touch = new_packet 5 60 2000 3000

even_scroll-TellsPosition : TellsPosition even_scroll report
unfolding new_packet new_w new_x tells_fingers has
even_scroll-TellsPosition = record { is_new = refl; is_primary = refl; is_valid = refl }

odd_scroll-TellsPosition : TellsPosition odd_scroll report
unfolding new_packet new_w new_x tells_fingers has
odd_scroll-TellsPosition = record { is_new = refl; is_primary = refl; is_valid = refl }

single_touch-TellsPosition : TellsPosition single_touch report
unfolding new_packet new_w new_x tells_fingers has
single_touch-TellsPosition = record { is_new = refl; is_primary = refl; is_valid = refl }

even_scroll-ScrollsMiddle : ScrollsMiddle even_scroll report
unfolding new_packet new_w has
even_scroll-ScrollsMiddle = record { is_scroll = refl; no_click_pad = refl; has_middle = refl }

odd_scroll-ScrollsMiddle : ScrollsMiddle odd_scroll report
unfolding new_packet new_w has
odd_scroll-ScrollsMiddle = record { is_scroll = refl; no_click_pad = refl; has_middle = refl }

even_scroll-hangs_example : synaptics_report_absolute no_gestures 1000 7 even_scroll report ≡ none
unfolding new_packet
even_scroll-hangs_example =
    even_scroll-hangs no_gestures 1000 7 even_scroll report even_scroll-TellsPosition
      even_scroll-ScrollsMiddle refl (omega arith)

odd_scroll-hangs_example :
    (r1 : SynapticsReport) × (synaptics_report_absolute no_gestures (2 ^ 32 + 1) 7 odd_scroll report
      ≡ some r1)
    × (synaptics_report_absolute no_gestures 1000 8 single_touch r1 ≡ none)
unfolding new_packet new_w
odd_scroll-hangs_example =
    odd_scroll-hangs no_gestures 7 8 1000 odd_scroll single_touch report odd_scroll-TellsPosition
      odd_scroll-ScrollsMiddle refl single_touch-TellsPosition refl

abbrev plain : SynapticsReport
plain = record report {
  hand = record report.hand { pad = record report.hand.pad { syn_capabilities = 0x800002 } };
}

synaptics_report_absolute-returns_example :
    (r1 : SynapticsReport) × (synaptics_report_absolute no_gestures 0 7 single_touch plain
      ≡ some r1)
unfolding has
synaptics_report_absolute-returns_example =
    synaptics_report_absolute-returns no_gestures 7 single_touch plain refl refl

new_packet-fields_example :
    (new_w (new_packet 5 60 2000 3000) ≡ 5)
    × (byte (new_packet 5 60 2000 3000) 2 ≡ 60)
    × (new_x (new_packet 5 60 2000 3000) ≡ 2000)
    × (new_y (new_packet 5 60 2000 3000) ≡ 3000)
new_packet-fields_example =
    new_packet-fields 5 60 2000 3000 (omega arith) (omega arith) (omega arith)

-- The primary finger is the ninth.
abbrev ninth : List ℕ
ninth = 0x84 ∷ 0 ∷ 8 ∷ 0xc0 ∷ 1 ∷ 0x20 ∷ []

finger_state-memory_faults_example :
    (place_primary
      (pos 2000)
      (pos 3000)
      60
      (extended_packet no_gestures ninth report).hand).memory_faults
    ≡ 1
finger_state-memory_faults_example =
    finger_state-memory_faults no_gestures ninth (pos 2000) (pos 3000) 60 report refl refl refl
      (omega arith)

abbrev first_place : SynapticsReport → ℕ × ℕ
first_place r = ((finger 0 r.hand).x, (finger 0 r.hand).y)

-- The second packet of a touch places the finger, from the top.
second_packet_places :
    and_then (synaptics_report_absolute no_gestures 0 7 single_touch plain) (λ r.
      and_then
        (synaptics_report_absolute no_gestures 0 8 single_touch r)
        (λ s. some (first_place s)))
    ≡ some (2000, 2000)
unfolding synaptics_report_absolute and_then has new_packet
second_packet_places = refl

-- Two fingers touch at once, after none.
abbrev two_fingers : Change
two_fingers = record {
  hand = record hand {
    pid = some 0;
    sid = some 1;
    is_dragging = true;
    pad = record hand.pad { gesture = record { fingers = 2; button_data = 1; packets_count = 9 } };
  };
  w = 0;
  is_tap_drag = true;
  do_timer_job = true;
  button_drag_timer_is_set = true;
  p_continuous_move = true;
  pointer_timer_is_set = true;
  touch_ended = true;
  scroll = record {
    do_cont = false;
    do_auto = true;
    do_sling = true;
    inertia_delta_x = pos 0;
    inertia_delta_y = pos 4;
    timer_is_set = true;
  };
  rotate = record {
    is_rotate_gesture = true;
    is_rotate_mode = true;
    max_cf_delta = 100;
    min_c_fing_idle_time = 7;
  };
  motion = no_motion;
  scroll_sums = [];
  samples = [];
}

abbrev both_told : SynapticsReport
both_told = record report {
  hand = (process_fingers_change two_fingers).hand;
  secondary_x = 4000;
  secondary_y = 3500;
  secondary_pressure = 40;
}

process_fingers_change-place_example :
    let h = (place_secondary (on_hand (place_primary (pos 2000) (pos 3000) 60) both_told)).hand in
    StartsAt 2000 3000 (finger 0 h) × StartsAt 4000 3500 (finger 1 h)
unfolding process_fingers_change before_clearing update_slots stop_timers end_drag clear_fingers
    next_touch clears first_cleared stored
process_fingers_change-place_example =
    process_fingers_change-place two_fingers 0 1 (pos 2000) (pos 3000) 60 both_told refl refl refl
      refl (omega arith) (omega arith) refl refl refl refl refl (omega arith) (omega arith)
