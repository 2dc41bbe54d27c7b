-- ===== src/Touchpad/Buttons.antt =====
-- ApplePS2SmartTouchPad.cpp: the physical buttons (`Process_Physical_Buttons`).
pub mod Released
use apple_ps2smart_touch_pad.Common.{
  ℕ, Bool, true, false, ℤ, pos, List, [], ◌∷◌, ◌%◌, ◌==◌, ◌&&◌, ◌||◌, bit_and, bit_or, has,
  if◌then◌else◌,
}
use apple_ps2smart_touch_pad.Touchpad.{is_synaptics}
use apple_ps2smart_touch_pad.Touchpad.Features.{
  Features, report, set_buttons, release_app_switch, click,
}
use apple_ps2smart_touch_pad.Touchpad.Positions.{TouchMode, mode_buttons, byte}

-- What the buttons are about, beside the features: `_button`, the mode of touching, and what
-- `StopPointerEnhanceTimer` resets.
pub record Buttons (F : Type 0) : Type 0 where
  pub features : Features F
  pub disable_clicks : Bool
  pub enable_middle : Bool
  pub right_click : Bool
  pub triggered : Bool
  pub touch_mode : TouchMode
  pub ext_cap_10 : ℕ
  pub p_dx : ℤ
  pub p_dy : ℤ
  pub p_continuous_move : Bool
  pub pointer_timer_is_set : Bool

module _ {F : Type 0} where
  -- Where a packet carries the buttons of the trackpoint, and else its own two.
  unfoldable pub button_bits : List ℕ → Buttons F → ℕ
  button_bits packet b =
      if is_synaptics b.features.pad.vendor
        && bit_and (byte packet 0) 0xfc == 0x84
        && bit_and (byte packet 3) 0xcc == 0xc4
        && has b.ext_cap_10 0x010000
      then byte packet 1 % 8
      else byte packet 0 % 4

  unfoldable pub stop_pointer_enhance_timer : Buttons F → Buttons F
  stop_pointer_enhance_timer b = record b {
    p_dx = pos 0;
    p_dy = pos 0;
    p_continuous_move = false;
    pointer_timer_is_set = false;
  }

  -- A button is down: the cases of the left, the right and the middle button.
  unfoldable pub press : ℕ → Buttons F → Buttons F
  unfolding report set_buttons
  press data_bits b =
      let p = b.features in
      record b {
        triggered = true;
        touch_mode = mode_buttons;
        features =
            report (click data_bits ∷ [])
              (set_buttons data_bits (bit_or p.button_state data_bits) p);
      }

  -- The buttons and the drag end, and the application switcher with them.
  unfoldable pub end_click : ℕ → Buttons F → Buttons F
  unfolding report set_buttons release_app_switch
  end_click data_bits b =
      let p = report (click data_bits ∷ click 0 ∷ []) (set_buttons data_bits 0 b.features) in
      record b {
        right_click = false;
        features = release_app_switch (record p {
          hold_time = 0;
          drag = record p.drag {
            is_dragging = false;
            is_tap_drag = false;
            is_hold_drag = false;
            is_3f_drag = false;
          };
        });
      }

  -- The case of no button, which is the default too.
  unfoldable pub release : ℕ → Buttons F → Buttons F
  unfolding end_click set_buttons stop_pointer_enhance_timer
  release data_bits b =
      let b1 = if b.triggered || b.right_click then end_click data_bits b else b in
      let b2 = record b1 {
        triggered = false;
        features = set_buttons 0 b1.features.button_state b1.features;
      } in
      if b2.p_continuous_move then stop_pointer_enhance_timer b2 else b2

  unfoldable pub switch_buttons : ℕ → Buttons F → Buttons F
  unfolding press release
  switch_buttons data_bits b =
      if data_bits == 4 || data_bits == 3
      then press (if b.enable_middle then 4 else 0) b
      else if data_bits == 1
      then press 1 b
      else if data_bits == 2
      then record (press 2 b) { right_click = true }
      else release data_bits b

  -- `Process_Physical_Buttons`.
  unfoldable pub process_physical_buttons : List ℕ → Buttons F → Buttons F
  unfolding button_bits switch_buttons set_buttons
  process_physical_buttons packet b =
      let data_bits = button_bits packet b in
      let b1 = record b { features = set_buttons data_bits b.features.button_state b.features } in
      if b.disable_clicks
      then b
      else if b.features.button_state == data_bits
      then b1
      else switch_buttons data_bits b1

  unfoldable pub process_all_buttons : List (List ℕ) → Buttons F → Buttons F
  unfolding process_physical_buttons
  process_all_buttons [] b = b
  process_all_buttons (packet ∷ packets) b =
      process_all_buttons packets (process_physical_buttons packet b)
