-- ===== src/Touchpad/Synaptics/Modes.antt =====
-- What the touchpad is sent when its mode is set.
use apple_ps2smart_touch_pad.Common.{ℕ, false, List, [], ◌∷◌, ◌++◌, ◌≡◌, subst, arith}
use apple_ps2smart_touch_pad.Interface.{sliced_bytes, send_sliced_ps2_cmd, send_ps2_cmd}
use apple_ps2smart_touch_pad.Interface.Device.{Host, failed}
use apple_ps2smart_touch_pad.Interface.Settled.{
  HasSent, HasJustSent-HasSent, HasSent-send_ps2_cmd, HasSent-send_sliced_ps2_cmd,
  send_sliced_ps2_cmd-HasJustSent, send_ps2_cmd-HasJustSent,
}
use apple_ps2smart_touch_pad.Touchpad.{Touchpad}
use apple_ps2smart_touch_pad.Touchpad.Elan.Access.{any_fails}
use apple_ps2smart_touch_pad.Touchpad.Connect.{
  synaptics_mode_cmd, synaptics_mode, synaptics_set_absolute_mode,
  synaptics_set_advanced_gesture_mode,
}

-- The bytes that set a mode: the mode in four slices of two bits behind `0xe6`, each behind `0xe8`,
-- then `0xf3 0x14`.
abbrev pub mode_bytes : ℕ → List ℕ
mode_bytes mode = (sliced_bytes mode ++ (0xf3 ∷ [])) ++ (0x14 ∷ [])

synaptics_mode_cmd-HasSent :
    (mode : ℕ) (h : Host)
    → failed (synaptics_mode_cmd mode h).0 ≡ false
    → HasSent (mode_bytes mode) (synaptics_mode_cmd mode h).1
unfolding synaptics_mode_cmd any_fails
synaptics_mode_cmd-HasSent mode h e =
    let x1 = send_sliced_ps2_cmd mode h in
    let x2 = send_ps2_cmd 0xf3 x1.1 in
    let x3 = send_ps2_cmd 0x14 x2.1 in
    let e1 : failed x1.0 ≡ false = ground (arith, e) in
    let e2 : failed x2.0 ≡ false = ground (arith, e, e1) in
    let e3 : failed x3.0 ≡ false = ground (arith, e, e1, e2) in
    let t1 = send_sliced_ps2_cmd-HasJustSent mode h e1 in
    let t2 = send_ps2_cmd-HasJustSent (sliced_bytes mode) 0xf3 x1.1 t1 e2 in
    let t3 = send_ps2_cmd-HasJustSent (sliced_bytes mode ++ (0xf3 ∷ [])) 0x14 x2.1 t2 e3 in
    subst (HasSent (mode_bytes mode)) (ground (arith, e1, e2, e3))
      (HasJustSent-HasSent (mode_bytes mode) x3.1 t3)

gesture_mode-HasSent :
    (bs : List ℕ) (t : Touchpad)
    → HasSent bs t.host
    → HasSent bs (synaptics_set_advanced_gesture_mode t).1.host
unfolding synaptics_set_advanced_gesture_mode any_fails
gesture_mode-HasSent bs t s =
    let x1 = send_sliced_ps2_cmd 0x03 t.host in
    let x2 = send_ps2_cmd 0xf3 x1.1 in
    let s1 = HasSent-send_sliced_ps2_cmd bs 0x03 t.host s in
    let s2 = HasSent-send_ps2_cmd bs 0xf3 x1.1 s1 in
    let s3 = HasSent-send_ps2_cmd bs 0xc8 x2.1 s2 in ground (arith, s, s1, s2, s3)

-- When the mode is set without an error, the touchpad has been sent the mode that the driver records.
pub synaptics_set_absolute_mode-HasSent :
    (t : Touchpad)
    → failed (synaptics_set_absolute_mode t).0 ≡ false
    → HasSent (mode_bytes (synaptics_mode t)) (synaptics_set_absolute_mode t).1.host
unfolding synaptics_set_absolute_mode
synaptics_set_absolute_mode-HasSent t e =
    let mode = synaptics_mode t in
    let x = synaptics_mode_cmd mode t.host in
    let t1 : Touchpad = record t { host = x.1; syn_mode = mode } in
    let ok : failed x.0 ≡ false = ground (arith, e) in
    let s = synaptics_mode_cmd-HasSent mode t.host ok in
    let s2 = gesture_mode-HasSent (mode_bytes mode) t1 s in ground (arith, ok, s, s2)
