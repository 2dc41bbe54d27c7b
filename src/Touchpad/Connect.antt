-- ===== src/Touchpad/Connect.antt =====
-- ApplePS2SmartTouchPad.cpp: detecting, enabling and reconnecting the touchpad, with the methods of
-- the FocalTech and Synaptics hardware that do so.
--
-- Allocating a request succeeds here. `fuel` bounds the rounds of `setCommandByte`, whose loop does
-- not end on a controller that does not answer; `none` is a run that has not ended by then.
pub mod Frame
use apple_ps2smart_touch_pad.Common.{
  ℕ, zero, suc, ◌*◌, ◌/◌, ◌%◌, Bool, true, false, not, List, [], ◌∷◌, ◌==◌, ◌||◌, ◌&&◌, Option,
  none, some, if◌then◌else◌, bit_or, has, leb,
}
use apple_ps2smart_touch_pad.Controller.State.{
  cb_enable_mouse_irq, cb_disable_mouse_clock, dp_set_defaults_and_disable,
}
use apple_ps2smart_touch_pad.Interface.{
  send, sends, read_port, done, send_sliced_ps2_cmd, send_ps2_cmd, get_mouse_information,
  initialize_mouse, reset_mouse, set_command_byte, dp_set_mouse_scaling_1_to_1,
  dp_set_mouse_resolution, dp_get_mouse_information, dp_set_mouse_sample_rate, dp_enable,
}
use apple_ps2smart_touch_pad.Interface.Device.{
  IoReturn, success, error, io_error, Host, Params, failed, new_request, fill, submit, free_request,
  answer_at,
}
use apple_ps2smart_touch_pad.Touchpad.{
  Touchpad, std_mouse, std_elan_tech, std_focal_tech, std_synaptics,
}
use apple_ps2smart_touch_pad.Touchpad.Elan.Access.{any_fails, no_params}
use apple_ps2smart_touch_pad.Touchpad.Elan.Mode.{set_absolute_mode}

abbrev dp_set_all_make_release : ℕ
dp_set_all_make_release = 0xf8

abbrev syn_ps_set_mode2 : ℕ
syn_ps_set_mode2 = 0x14

abbrev syn_que_model : ℕ
syn_que_model = 0x03

-- A request of mouse commands, submitted and freed: whether all of it was done.
unfoldable pub send_all : ℕ → List ℕ → Host → Bool × Host
send_all n bytes h =
    let (r, h1) = submit (new_request (sends bytes)) h in (done n r, (free_request r h1).1)

-- `Focaltech_read_reg`.
unfoldable pub focaltech_read_reg : ℕ → Params → Host → IoReturn × Params × Host
focaltech_read_reg reg param h =
    let (sent, h1) =
      send_all 9
        (dp_set_mouse_scaling_1_to_1 ∷ dp_set_mouse_resolution ∷ 0 ∷ dp_set_mouse_resolution ∷ 0
          ∷ dp_set_mouse_resolution ∷ 0 ∷ dp_set_mouse_resolution ∷ reg ∷ [])
        h in
    let (ret, param', h2) = get_mouse_information param h1 in
    (if not sent || failed ret then io_error else success, param', h2)

-- `Focaltech_set_absolute_mode`.
unfoldable pub focaltech_set_absolute_mode : Host → IoReturn × Host
focaltech_set_absolute_mode h =
    let (sent, h1) =
      send_all 9
        (dp_set_all_make_release ∷ 0 ∷ dp_set_all_make_release ∷ 0 ∷ dp_set_all_make_release ∷ 0
          ∷ dp_set_all_make_release ∷ 1 ∷ dp_set_mouse_scaling_1_to_1 ∷ [])
        h in
    (if sent then success else io_error, h1)

-- `Focaltech_setup_touchpad`.
unfoldable pub focaltech_setup_touchpad : Touchpad → Bool × Touchpad
focaltech_setup_touchpad t =
    let (ret, param, h1) = focaltech_read_reg 2 no_params t.host in
    let t1 = record t { host = h1 } in
    if failed ret
    then (false, t1)
    else let x = param.p1 * 128 % 65536 in
      let y = param.p2 * 128 % 65536 in
      let (ret', h2) = focaltech_set_absolute_mode h1 in
      (
        not (failed ret'),
        record t1 { host = h2; xmax = x; ymax = y; xcenter = x / 2; ycenter = y / 2 },
      )

-- `Synaptics_detect`.
unfoldable pub synaptics_detect : Host → IoReturn × Host
synaptics_detect h =
    let (ret, param, h1) = focaltech_read_reg 0 no_params h in
    (if failed ret || not (param.p1 == 0x47) then io_error else success, h1)

-- `Synaptics_mode_cmd`.
unfoldable pub synaptics_mode_cmd : ℕ → Host → IoReturn × Host
synaptics_mode_cmd mode h =
    let (fails, h1) =
      any_fails
        (send_sliced_ps2_cmd mode
          ∷ send_ps2_cmd dp_set_mouse_sample_rate
          ∷ send_ps2_cmd syn_ps_set_mode2
          ∷ [])
        h in
    (if fails then error else success, h1)

-- `Synaptics_set_advanced_gesture_mode`.
unfoldable pub synaptics_set_advanced_gesture_mode : Touchpad → IoReturn × Touchpad
synaptics_set_advanced_gesture_mode t =
    if has t.syn_ext_cap_0c 0x080000 || has t.syn_ext_cap_0c 0x000800
    then (let (fails, h) =
          any_fails
            (send_sliced_ps2_cmd syn_que_model
              ∷ send_ps2_cmd dp_set_mouse_sample_rate
              ∷ send_ps2_cmd 0xc8
              ∷ [])
            t.host in
        if fails
        then (error, record t { host = h })
        else (success, record t { host = h; syn_capabilities = bit_or t.syn_capabilities 2 }))
    else (success, t)

-- The mode byte of `Synaptics_set_absolute_mode`.
unfoldable pub synaptics_mode : Touchpad → ℕ
synaptics_mode t =
    bit_or
      (bit_or
        (bit_or (if t.syn_absolute_mode then 0x80 else 0)
          (if t.syn_disable_gesture then 0x04 else 0))
        (if leb 80 t.sample_rate then 0x40 else 0))
      (if has t.syn_capabilities 0x800000 then 0x01 else 0)

unfoldable pub synaptics_set_absolute_mode : Touchpad → IoReturn × Touchpad
synaptics_set_absolute_mode t =
    let mode = synaptics_mode t in
    let (ret, h) = synaptics_mode_cmd mode t.host in
    let t1 = record t { host = h; syn_mode = mode } in
    if failed ret
    then (error, t1)
    else if t1.syn_absolute_mode
    then (let (ret', t2) = synaptics_set_advanced_gesture_mode t1 in
        (if failed ret' then error else success, t2))
    else (success, t1)

-- Whether a magic knock was answered as ELAN hardware does, and as FocalTech hardware does.
unfoldable pub is_elan_knock : Params → Bool
is_elan_knock param = param.p0 == 0x3c && param.p1 == 0x03 && (param.p2 == 0xc8 || param.p2 == 0x00)

unfoldable pub is_focal_knock : Params → Bool
is_focal_knock param =
    param.p0 == 0x3c && param.p1 == 0xf0 && (param.p2 == 0xc8 || param.p2 == 0x00)

-- The switch at the end of `Detect_touchpad`.
unfoldable pub judge_knock : IoReturn → Params → Touchpad → IoReturn × Touchpad
judge_knock ret param t = elim t.vendor [
  | std_focal_tech ↦ (if is_focal_knock param then ret else error, t)
  | _ ↦
      if is_elan_knock param
      then (ret, record t { vendor = std_elan_tech })
      else let (ret', h) = synaptics_detect t.host in
        (ret, record t { host = h; vendor = if failed ret' then std_mouse else std_synaptics })
]

-- `Detect_touchpad`.
unfoldable pub detect_touchpad : Touchpad → IoReturn × Touchpad
detect_touchpad t =
    let (r, h1) = submit (new_request (send dp_set_defaults_and_disable ∷ [])) t.host in
    if done 1 r
    then (let (r1, h2) =
          fill
            (send dp_set_mouse_scaling_1_to_1
              ∷ send dp_set_mouse_scaling_1_to_1
              ∷ send dp_set_mouse_scaling_1_to_1
              ∷ send dp_get_mouse_information
              ∷ read_port
              ∷ read_port
              ∷ read_port
              ∷ [])
            r h1 in
        let (r2, h3) = submit r1 h2 in
        let param : Params = record {
          p0 = answer_at r2 4;
          p1 = answer_at r2 5;
          p2 = answer_at r2 6;
        } in
        judge_knock (if done 7 r2 then success else io_error) param
          (record t { host = (free_request r2 h3).1 }))
    else (io_error, record t { host = (free_request r h1).1 })

-- `Enable_touchpad`.
unfoldable pub enable_touchpad : ℕ → Bool → Touchpad → Option Touchpad
enable_touchpad fuel enable t =
    elim (if enable
      then set_command_byte fuel cb_enable_mouse_irq cb_disable_mouse_clock t.host
      else some t.host) [
        | none ↦ none
        | some h ↦
            let command : ℕ = if enable then dp_enable else dp_set_defaults_and_disable in
            some (record t { host = (send_all 1 (command ∷ []) h).1 })
      ]

-- The loop of `Reconnect_touchpad` that detects the touchpad; false if no try went well.
unfoldable pub detect_tries : ℕ → Touchpad → Bool × Touchpad
detect_tries zero t = (false, t)
detect_tries (suc tries) t =
    let (ret, t1) = detect_touchpad t in
    elim (failed ret) [ true ↦ detect_tries tries t1 | false ↦ (true, t1) ]

-- The absolute mode, by vendor.
unfoldable pub set_vendor_mode : Touchpad → IoReturn × Touchpad
set_vendor_mode t = elim t.vendor [
  | std_focal_tech ↦
      let (ret, h) = focaltech_set_absolute_mode t.host in (ret, record t { host = h })
  | std_elan_tech ↦ set_absolute_mode t
  | std_synaptics ↦ synaptics_set_absolute_mode t
  | std_mouse ↦ (success, t)
]

-- `Reconnect_touchpad`.
unfoldable pub reconnect_touchpad : ℕ → Touchpad → Option Touchpad
reconnect_touchpad fuel t =
    let (ret0, h0) = reset_mouse t.host in
    let (found, t1) = detect_tries 3 (record t { host = h0 }) in
    if found
    then (let (ret1, h1) = initialize_mouse t1.sample_rate t1.resolution t1.scaling t1.host in
        if failed ret1
        then some (record t1 { host = h1 })
        else let (ret2, t2) = set_vendor_mode (record t1 { host = h1 }) in
          if failed ret2
          then some t2
          else enable_touchpad fuel true (record t2 { packet_byte_count = 0 }))
    else some t1
