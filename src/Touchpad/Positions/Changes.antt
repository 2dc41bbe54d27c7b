-- ===== src/Touchpad/Positions/Changes.antt =====
-- `Process_fingers_change` of ApplePS2SmartTouchPad.cpp: what starts anew when the number of fingers
-- changes.
pub mod Starts
use apple_ps2smart_touch_pad.Common.{
  ℕ, zero, suc, ◌+◌, Bool, true, false, not, ◌||◌, ◌&&◌, List, [], ◌∷◌, ◌++◌, Option, none, some,
  ◌==◌, if◌then◌else◌, ltb, leb, has, ℤ, pos, negsuc, length,
}
use apple_ps2smart_touch_pad.Touchpad.{is_synaptics}
use apple_ps2smart_touch_pad.Touchpad.Positions.{
  Finger, Hand, TouchMode, mode_idle, mode_1_fing_tap, mode_2_fing_tap, mode_3_fing_tap,
  mode_4_fing_tap, mode_5_fing_tap, mode_vscroll, mode_hscroll, mode_edge_vscroll,
  mode_edge_hscroll, mode_cont_scroll, finger_of,
}

-- `Delta_samples`, without its pressure and the skipped movement.
pub record Sample : Type 0 where
  pub last_dx1 : ℤ
  pub last_dx2 : ℤ
  pub last_dy1 : ℤ
  pub last_dy2 : ℤ
  pub last_sdx : ℕ
  pub last_sdy : ℕ

-- The sums and samples of a movement that are reset together.
pub record Motion : Type 0 where
  pub max_press_dtd : ℕ
  pub c_sample : ℕ
  pub skip_sample : ℕ
  pub p_smooth_x : ℤ
  pub p_smooth_y : ℤ
  pub p_dx : ℤ
  pub p_dy : ℤ
  pub p_last_dx : ℤ
  pub p_last_dy : ℤ
  pub z_dx : ℤ
  pub z_dy : ℤ
  pub total_dx : ℕ
  pub total_dy : ℕ

abbrev pub no_motion : Motion
no_motion = record {
  max_press_dtd = 0;
  c_sample = 0;
  skip_sample = 0;
  p_smooth_x = pos 0;
  p_smooth_y = pos 0;
  p_dx = pos 0;
  p_dy = pos 0;
  p_last_dx = pos 0;
  p_last_dy = pos 0;
  z_dx = pos 0;
  z_dy = pos 0;
  total_dx = 0;
  total_dy = 0;
}

-- `_scroll`: what `StopScrollEnhanceTimer` ends.
pub record Scroll : Type 0 where
  pub do_cont : Bool
  pub do_auto : Bool
  pub do_sling : Bool
  pub inertia_delta_x : ℤ
  pub inertia_delta_y : ℤ
  pub timer_is_set : Bool

-- `_rotate`.
pub record Rotate : Type 0 where
  pub is_rotate_gesture : Bool
  pub is_rotate_mode : Bool
  pub max_cf_delta : ℕ
  pub min_c_fing_idle_time : ℕ

-- The fingers, and the members that only this method of the modelled ones changes. The sums `sdx` and
-- `sdy` of the fingers stand in a list of their own.
pub record Change : Type 0 where
  pub hand : Hand
  pub w : ℕ
  pub is_tap_drag : Bool
  pub do_timer_job : Bool
  pub button_drag_timer_is_set : Bool
  pub p_continuous_move : Bool
  pub pointer_timer_is_set : Bool
  pub touch_ended : Bool
  pub scroll : Scroll
  pub rotate : Rotate
  pub motion : Motion
  pub scroll_sums : List (ℤ × ℤ)
  pub samples : List Sample

-- Whether the touchpad tells two fingers of many.
unfoldable pub has_slots : Change → Bool
has_slots c =
    is_synaptics c.hand.pad.vendor
    && (has c.hand.pad.syn_ext_cap_0c 0x080000 || has c.hand.pad.syn_ext_cap_0c 0x000800)

-- The numbers of the two fingers that are told.
unfoldable pub update_slots : Change → Change
unfolding has_slots
update_slots c =
    let told = has_slots c && (ltb c.w 2 || leb 4 c.w) in
    record c {
      hand = record c.hand {
        pid = if told then some 0 else c.hand.pid;
        sid =
            if told
            then if c.w == 0 then some 1 else if c.w == 1 then some 2 else none
            else c.hand.sid;
      };
    }

abbrev is_zero : ℤ → Bool
is_zero (pos n) = n == 0
is_zero (negsuc n) = false

-- `StopScrollEnhanceTimer`.
unfoldable pub stop_scroll_enhance_timer : Scroll → Scroll
stop_scroll_enhance_timer s = record {
  do_cont = false;
  do_auto = false;
  do_sling = s.do_cont && s.do_sling;
  inertia_delta_x = pos 0;
  inertia_delta_y = pos 0;
  timer_is_set = false;
}

-- The timers that the last touch left.
unfoldable pub stop_timers : Change → Change
unfolding stop_scroll_enhance_timer
stop_timers c =
    let s = c.scroll in
    let stops =
      c.do_timer_job
      || s.do_cont
      || not (is_zero s.inertia_delta_x)
      || not (is_zero s.inertia_delta_y) in
    let moves = c.p_continuous_move in
    record c {
      do_timer_job = if stops then false else c.do_timer_job;
      button_drag_timer_is_set = if stops then false else c.button_drag_timer_is_set;
      scroll = if stops then stop_scroll_enhance_timer s else s;
      p_continuous_move = false;
      pointer_timer_is_set = if moves then false else c.pointer_timer_is_set;
    }

-- `_fing[i].tdx < limit`.
abbrev is_below : ℤ → ℕ → Bool
is_below (pos n) limit = ltb n limit
is_below (negsuc n) limit = true

abbrev is_missing : Option ℕ → List Finger → Bool
is_missing none fs = true
is_missing (some i) fs = leb (length fs) i

-- Whether a drag ends with this number of fingers.
unfoldable pub ends_drag : Change → Bool
ends_drag c =
    let h = c.hand in
    let f = finger_of h.pid h in
    let n = h.pad.gesture.fingers in
    (c.is_tap_drag
      || (h.is_hold_drag
          && (is_below f.tdx c.rotate.max_cf_delta || is_below f.tdy c.rotate.max_cf_delta)))
    && ((ltb 2 n && not h.is_3f_drag) || n == 0)

-- The movement of a finger that is not there is a fault.
unfoldable pub end_drag : Change → Change
unfolding ends_drag
end_drag c =
    let h = c.hand in
    let ends = ends_drag c in
    let faults = not c.is_tap_drag && h.is_hold_drag && is_missing h.pid h.fing in
    record c {
      is_tap_drag = if ends then false else c.is_tap_drag;
      hand = record h {
        is_dragging = if ends then false else h.is_dragging;
        is_hold_drag = if ends then false else h.is_hold_drag;
        is_3f_drag = if ends then false else h.is_3f_drag;
        button_state = if ends then 0 else h.button_state;
        pad = record h.pad {
          gesture = record h.pad.gesture {
            button_data = if ends then 0 else h.pad.gesture.button_data;
          };
        };
        clicks = if ends then h.clicks ++ 0 ∷ [] else h.clicks;
        memory_faults = if faults then h.memory_faults + 1 else h.memory_faults;
      };
    }

-- Whether data of fingers are cleared, and from which finger on.
unfoldable pub clears : Hand → Bool
clears h =
    let n = h.pad.gesture.fingers in
    h.last_fingers == 0
    || ltb n h.last_fingers
    || (ltb h.last_fingers n && ltb 3 h.pad.gesture.packets_count)

unfoldable pub first_cleared : Hand → ℕ
first_cleared h =
    let n = h.pad.gesture.fingers in
    if h.is_3f_drag
    then 0
    else if ltb n h.last_fingers
    then n
    else if ltb h.last_fingers n
    then h.last_fingers
    else 0

abbrev is_number : ℕ → Option ℕ → Bool
is_number i none = false
is_number i (some j) = i == j

-- Whether the position goes too: the two fingers that are told keep theirs.
unfoldable pub clears_position : Hand → ℕ → Bool
clears_position h i =
    (ltb 0 h.pad.gesture.packets_count && not (is_number i h.sid) && not (is_number i h.pid))
    || h.last_fingers == 0
    || ltb 2 h.pad.gesture.fingers

unfoldable pub cleared : Hand → ℕ → Finger → Finger
unfolding clears_position
cleared h i f =
    let goes = clears_position h i in
    record f {
      tdx = pos 0;
      tdy = pos 0;
      start_x = 0;
      start_y = 0;
      x = if goes then 0 else f.x;
      y = if goes then 0 else f.y;
      last_x = if goes then 0 else f.last_x;
      last_y = if goes then 0 else f.last_y;
    }

-- The loop over the fingers: those from `first` on are changed.
unfoldable pub change_from {ℓ} : {A : Type ℓ} → (ℕ → A → A) → ℕ → ℕ → List A → List A
change_from change first i [] = []
change_from change first i (f ∷ fs) =
    (if leb first i then change i f else f) ∷ change_from change first (suc i) fs

unfoldable pub clear_fingers : Change → Change
unfolding clears first_cleared cleared change_from
clear_fingers c =
    let h = c.hand in
    record c {
      hand = record h {
        fing = if clears h then change_from (cleared h) (first_cleared h) 0 h.fing else h.fing;
      };
      scroll_sums =
          if clears h
          then change_from (λ i s. (pos 0, pos 0)) (first_cleared h) 0 c.scroll_sums
          else c.scroll_sums;
      motion = no_motion;
      touch_ended = false;
    }

-- A change of the first elements only.
unfoldable pub change_first {ℓ} : {A : Type ℓ} → (A → A) → ℕ → List A → List A
change_first change zero fs = fs
change_first change (suc n) [] = []
change_first change (suc n) (f ∷ fs) = change f ∷ change_first change n fs

abbrev is_scrolling : TouchMode → Bool
is_scrolling mode_vscroll = true
is_scrolling mode_hscroll = true
is_scrolling mode_edge_vscroll = true
is_scrolling mode_edge_hscroll = true
is_scrolling mode_cont_scroll = true
is_scrolling _ = false

abbrev is_tap : TouchMode → Bool
is_tap mode_1_fing_tap = true
is_tap mode_2_fing_tap = true
is_tap mode_3_fing_tap = true
is_tap mode_4_fing_tap = true
is_tap mode_5_fing_tap = true
is_tap _ = false

-- A sample; those of scrolling stay in a mode that scrolls.
unfoldable pub clear_sample : TouchMode → Sample → Sample
clear_sample mode s = record {
  last_dx1 = pos 0;
  last_dx2 = pos 0;
  last_dy1 = pos 0;
  last_dy2 = pos 0;
  last_sdx = if is_scrolling mode then s.last_sdx else 0;
  last_sdy = if is_scrolling mode then s.last_sdy else 0;
}

-- The mode, once the fingers became more or the rotation is over.
unfoldable pub next_touch_mode : Hand → Rotate → TouchMode
next_touch_mode h r =
    let n = h.pad.gesture.fingers in
    let mode =
      if leb h.last_fingers n && ltb 1 n && is_tap h.touch_mode then mode_idle else h.touch_mode in
    if r.is_rotate_gesture && ((n == 2 && not (h.last_fingers == 2)) || (leb 3 n && leb n 5))
    then mode_idle
    else mode

unfoldable pub next_rotate : Hand → Rotate → Rotate
next_rotate h r =
    let n = h.pad.gesture.fingers in
    let over = r.is_rotate_gesture && leb 3 n && leb n 5 in
    let begins = n == 2 && h.last_fingers == 1 && ltb r.min_c_fing_idle_time h.gesture_time in
    record r {
      is_rotate_gesture = not over && r.is_rotate_gesture;
      is_rotate_mode = if over then false else begins || r.is_rotate_mode;
    }

-- The modes and the counts of the touch. With no finger left the counts go on, for the buttons.
unfoldable pub next_touch : Change → Change
unfolding clear_sample change_first next_touch_mode next_rotate
next_touch c =
    let h = c.hand in
    let n = h.pad.gesture.fingers in
    let edge_ends = not (n == 1) && not (n == 2) && h.is_edge_gesture in
    record c {
      samples = change_first (clear_sample h.touch_mode) 10 c.samples;
      rotate = next_rotate h c.rotate;
      hand = record h {
        touch_mode = next_touch_mode h c.rotate;
        is_edge_gesture = not edge_ends && h.is_edge_gesture;
        swipe_direction = if edge_ends then 0 else h.swipe_direction;
        gesture_time = if n == 0 then h.gesture_time else 0;
        hold_time = if n == 0 then h.hold_time else 0;
        pad = record h.pad {
          gesture = record h.pad.gesture {
            packets_count = if n == 0 then h.pad.gesture.packets_count else 0;
          };
        };
      };
    }

-- Before the data of fingers are cleared.
unfoldable pub before_clearing : Change → Change
unfolding update_slots stop_timers end_drag
before_clearing c = end_drag (stop_timers (update_slots c))

-- `Process_fingers_change`.
unfoldable pub process_fingers_change : Change → Change
unfolding before_clearing clear_fingers next_touch
process_fingers_change c = next_touch (clear_fingers (before_clearing c))
