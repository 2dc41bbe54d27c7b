-- ===== src/Touchpad/Features.antt =====
-- SmartTouchpadFeatures.h: the members of the touchpad driver that the notifications of the keyboard
-- and the timers read and change, and what the driver reports.
--
-- A scroll factor is a `float`. Its arithmetic is not the driver's: it is a parameter, with the four
-- operations the driver uses.
use apple_ps2smart_touch_pad.Common.{
  ℕ, Bool, false, List, [], ◌∷◌, ◌++◌, ℤ, pos, negsuc, if◌then◌else◌,
}
use apple_ps2smart_touch_pad.Keyboard.Notices.{release_cmd_key}
use apple_ps2smart_touch_pad.Touchpad.{Touchpad}

-- `0 - x`, `x * 2`, `x / 2` and `x < 0`.
pub record Floats (F : Type 0) : Type 0 where
  pub minus : F → F
  pub twice : F → F
  pub half : F → F
  pub is_negative : F → Bool

-- Calls out of the driver.
pub data Output : Type 0 where
  -- `dispatchRelativePointerPosition`, `dispatchAbsolutePointerEvent`, with the buttons.
  moved : ℤ → ℤ → ℕ → Output
  placed : ℤ → ℤ → ℕ → Output
  -- `_device->dispatchPS2Notification`.
  notified : ℕ → Output
  -- `cancelTimeout` and `setTimeoutMS` of `_kBackLightTimer`.
  light_timer_cancelled : Output
  light_timer : ℕ → Output
  -- `setTimeoutMS` of `_featureTimer`.
  feature_timer : ℕ → Output

-- The features that a key or a tap turns on and off.
pub record Toggles : Type 0 where
  pub has_edge_auto : Bool
  pub has_2f_auto : Bool
  pub has_edge_inertia : Bool
  pub has_2f_inertia : Bool
  pub has_edge_cont : Bool
  pub has_2f_cont : Bool
  pub has_edge_scroll : Bool
  pub has_edge_c_scroll : Bool
  pub has_edge_swipes : Bool
  pub has_3f_swipes : Bool
  pub has_4f_swipes : Bool
  pub rotate_enabled : Bool
  pub zoom_enabled : Bool
  pub has_mul_f_double_taps : Bool
  pub click_pad_has_v_buttons : Bool

pub record Drag : Type 0 where
  pub is_dragging : Bool
  pub is_quick_tap : Bool
  pub check_tap_drag : Bool
  pub is_hold_drag : Bool
  pub is_tap_drag : Bool
  pub is_3f_drag : Bool

pub record Features (F : Type 0) : Type 0 where
  pub pad : Touchpad
  pub toggles : Toggles
  pub drag : Drag
  pub scroll_factor : F
  pub do_auto : Bool
  pub accel_mode_2f : ℕ
  pub accel_mode_edge : ℕ
  pub p_accel_custom : ℕ
  pub is_ctrl_scroll_swipe : Bool
  pub is_in_full_screen : Bool
  pub is_app_switch_done : Bool
  pub is_nc_done : Bool
  pub reset_pointer_on_edge : Bool
  pub last_swipe_time : ℕ
  pub tap_zoom_done : Bool
  pub is_tap_swap_enabled : Bool
  pub is_drag_lock_enabled : Bool
  pub do_timer_job : Bool
  pub tap_count : ℕ
  pub fingers_count : ℕ
  pub hold_time : ℕ
  pub button_state : ℕ
  pub is_toggle_key_on_hold : Bool
  pub alt_function : Bool
  pub show_press_width : Bool
  pub acc_input_keys_count : ℕ
  pub is_kb_light_off : Bool
  pub kb_light_auto_off_timeout : ℕ
  pub last_kb_light_trigger_time : ℕ
  pub osx_version : ℕ
  pub outputs : List Output

-- The buttons are reported where the pointer is.
abbrev pub click : ℕ → Output
click buttons = moved (pos 0) (pos 0) buttons

module _ {F : Type 0} where
  unfoldable pub report : List Output → Features F → Features F
  report os p = record p { outputs = p.outputs ++ os }

  unfoldable pub set_toggles : Toggles → Features F → Features F
  set_toggles t p = record p { toggles = t }

  unfoldable pub set_buttons : ℕ → ℕ → Features F → Features F
  set_buttons data_bits state p = record p {
    button_state = state;
    pad = record p.pad { gesture = record p.pad.gesture { button_data = data_bits } };
  }

  unfoldable pub set_app_switch_done : Bool → Features F → Features F
  set_app_switch_done b p = record p { is_app_switch_done = b }

  -- The pointer moves a little to show that a feature was toggled: up for on, down for off.
  unfoldable pub nudge : Bool → Features F → Features F
  unfolding report
  nudge on p = report (moved (pos 0) (if on then negsuc 49 else pos 50) p.button_state ∷ []) p

  -- A feature is toggled and the pointer nudged.
  unfoldable pub toggle : (Toggles → Toggles) → (Toggles → Bool) → Features F → Features F
  unfolding nudge set_toggles
  toggle flip is_on p = let t = flip p.toggles in nudge (is_on t) (set_toggles t p)

  -- The command key is let go of if the application switcher holds it.
  unfoldable pub release_app_switch : Features F → Features F
  unfolding report set_app_switch_done
  release_app_switch p =
      if p.is_app_switch_done
      then set_app_switch_done false (report (notified release_cmd_key ∷ []) p)
      else p
