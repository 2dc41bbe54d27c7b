-- ===== src/Touchpad/Connect/Frame.antt =====
-- What connecting the touchpad leaves of the packet buffer.
use apple_ps2smart_touch_pad.Common.{ℕ, zero, suc, ◌≤◌, Bool, true, [], ◌∷◌, ◌≡◌, arith, some}
use apple_ps2smart_touch_pad.Interface.{initialize_mouse, reset_mouse, send, dp_reset}
use apple_ps2smart_touch_pad.Interface.Device.{submit, free_request, new_request}
use apple_ps2smart_touch_pad.Touchpad.{Touchpad}
use apple_ps2smart_touch_pad.Touchpad.Elan.Mode.{write_mode, set_absolute_mode}
use apple_ps2smart_touch_pad.Touchpad.Connect.{
  judge_knock, detect_touchpad, detect_tries, set_vendor_mode, synaptics_set_absolute_mode,
  synaptics_set_advanced_gesture_mode, enable_touchpad, reconnect_touchpad,
}

-- The packet buffer is as it was, or its count is set back.
pub record SameBuffer (t u : Touchpad) : Type 0 where
  pub same_buffer : u.packet_buffer ≡ t.packet_buffer
  pub same_size : u.packet_size ≡ t.packet_size
  pub not_more : u.packet_byte_count ≤ t.packet_byte_count
  pub same_tries : u.mode_set_tries ≡ t.mode_set_tries

judge_knock-SameBuffer : (t : Touchpad) → SameBuffer t (detect_touchpad t).1
unfolding detect_touchpad judge_knock
judge_knock-SameBuffer t = ground arith

detect_tries-SameBuffer : (n : ℕ) (t : Touchpad) → SameBuffer t (detect_tries n t).1
unfolding detect_tries
detect_tries-SameBuffer zero t = ground arith
detect_tries-SameBuffer (suc n) t =
    ground (arith, judge_knock-SameBuffer t, detect_tries-SameBuffer n (detect_touchpad t).1)

write_mode-SameBuffer : (t : Touchpad) → SameBuffer t (write_mode t).1
unfolding write_mode
write_mode-SameBuffer t = ground arith

set_absolute_mode-SameBuffer : (t : Touchpad) → SameBuffer t (set_absolute_mode t).1
unfolding set_absolute_mode
set_absolute_mode-SameBuffer t =
    let (r, h) = submit (new_request (send dp_reset ∷ [])) t.host in
    ground (arith, write_mode-SameBuffer (record t { host = (free_request r h).1 }))

set_vendor_mode-SameBuffer : (t : Touchpad) → SameBuffer t (set_vendor_mode t).1
unfolding set_vendor_mode synaptics_set_absolute_mode synaptics_set_advanced_gesture_mode
set_vendor_mode-SameBuffer t = ground (arith, set_absolute_mode-SameBuffer t)

enable_touchpad-SameBuffer :
    (fuel : ℕ) (on : Bool) (t u : Touchpad) → enable_touchpad fuel on t ≡ some u → SameBuffer t u
unfolding enable_touchpad
enable_touchpad-SameBuffer fuel on t u e = ground arith

pub reconnect_touchpad-SameBuffer :
    (fuel : ℕ) (t u : Touchpad) → reconnect_touchpad fuel t ≡ some u → SameBuffer t u
unfolding reconnect_touchpad
reconnect_touchpad-SameBuffer fuel t u e =
    let (ret0, h0) = reset_mouse t.host in
    let t0 : Touchpad = record t { host = h0 } in
    let (found, t1) = detect_tries 3 t0 in
    let (ret1, h1) = initialize_mouse t1.sample_rate t1.resolution t1.scaling t1.host in
    let t2 : Touchpad = record t1 { host = h1 } in
    let t3 = (set_vendor_mode t2).1 in
    ground (
      arith,
      detect_tries-SameBuffer 3 t0,
      set_vendor_mode-SameBuffer t2,
      enable_touchpad-SameBuffer fuel true (record t3 { packet_byte_count = 0 }) u,
    )
