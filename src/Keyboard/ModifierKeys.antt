-- ===== src/Keyboard/ModifierKeys.antt =====
-- The notifications about the modifier keys in `dispatchKeyboardEventWithScancode` of
-- ApplePS2Keyboard.cpp: a state machine on `_modifierKeystate`.
pub mod Sticky
use apple_ps2smart_touch_pad.Common.{
  ℕ, Bool, true, false, not, ◌&&◌, ◌||◌, List, [], ◌∷◌, ◌++◌, Option, none, some, ◌==◌,
  if◌then◌else◌, bit_and, bit_or, has,
}
use apple_ps2smart_touch_pad.Keyboard.State.{Keyboard, dispatch_notice}
use apple_ps2smart_touch_pad.Keyboard.Notices.{
  alt_funtion_on, alt_funtion_off, cntrl_feature_on, cntrl_feature_off, cmd_key_down, cmd_key_up,
  cntrl_key_down, cntrl_key_up,
}
use apple_ps2smart_touch_pad.Keyboard.Codes.{command_down, control_down, alt_down}

-- Which of the command, control and Alt keys are down.
pub record Down : Type 0 where
  pub cmd : Bool
  pub ctl : Bool
  pub alt : Bool

-- The notification of a branch, if one is taken, and the state behind it.
unfoldable pub modifier_step : Down → ℕ → Option ℕ × ℕ
modifier_step d s =
    if not (has s 0x80) && d.cmd && d.ctl && d.alt
    then (some cntrl_feature_on, bit_or (bit_and s 0xbf) 0x80)
    else if has s 0x80 && (not d.cmd || not d.ctl || not d.alt)
    then (some cntrl_feature_off, bit_and s 0x7f)
    else if not (has s 0x60) && d.cmd && d.alt
    then (some alt_funtion_on, bit_or s 0x60)
    else if has s 0x80 && not d.cmd && not d.alt
    then (some alt_funtion_off, bit_and s 0xbf)
    else if not (has s 0x01) && d.cmd
    then (some cmd_key_down, bit_or s 0x01)
    else if has s 0x01 && not d.cmd
    then (some cmd_key_up, bit_and s 0xfe)
    else if not (has s 0x02) && d.ctl
    then (some cntrl_key_down, bit_or s 0x02)
    else if has s 0x02 && not d.ctl
    then (some cntrl_key_up, bit_and s 0xfd)
    else (none, s)

-- The flags that go with four of the notifications.
abbrev with_flags : ℕ → Keyboard → Keyboard
with_flags n k = record k {
  controlling_feature =
      if n == cntrl_feature_on
      then true
      else if n == cntrl_feature_off
      then false
      else k.controlling_feature;
  alt_function_enabled =
      if n == alt_funtion_on
      then true
      else if n == alt_funtion_off
      then false
      else k.alt_function_enabled;
}

unfoldable pub set_modifier_keystate : ℕ → Keyboard → Keyboard
set_modifier_keystate s k = record k { modifier_keystate = s }

unfoldable pub notify_modifiers : Keyboard → Keyboard
unfolding modifier_step set_modifier_keystate dispatch_notice
notify_modifiers k =
    let d : Down = record { cmd = command_down k; ctl = control_down k; alt = alt_down k } in
    let (notice, s) = modifier_step d k.modifier_keystate in
    elim notice as (λ x. Keyboard) [
      | none ↦ k
      | some n ↦ with_flags n (set_modifier_keystate s (dispatch_notice n k))
    ]
