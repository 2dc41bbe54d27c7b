-- ===== src/Touchpad/Synaptics.antt =====
-- ApplePS2SmartTouchPad.cpp, `Synaptics_setup_touchpad`: the queries that tell what a Synaptics
-- touchpad is and can do, and what the driver keeps of their answers, with the bit tests of Synaptics.h.
pub mod Fields
pub mod Setup
pub mod Modes
use apple_ps2smart_touch_pad.Common.{
  ℕ, ◌+◌, ◌*◌, ◌/◌, ◌%◌, Bool, true, false, not, List, [], ◌∷◌, ◌==◌, ◌||◌, ◌&&◌, if◌then◌else◌,
  bit_or, bit_and, has, leb, ltb,
}
use apple_ps2smart_touch_pad.Interface.{send_synaptics_cmd}
use apple_ps2smart_touch_pad.Interface.Device.{Host, Params, failed}
use apple_ps2smart_touch_pad.Touchpad.{Touchpad}
use apple_ps2smart_touch_pad.Touchpad.Elan.Access.{no_params}
use apple_ps2smart_touch_pad.Touchpad.Connect.{synaptics_set_absolute_mode, synaptics_mode_cmd}

-- The touchpad, and the members of `_synTPad` that only the set-up writes.
pub record Synaptics : Type 0 where
  pub pad : Touchpad
  pub identity : ℕ
  pub model_id : ℕ
  pub firmware_id : ℕ
  pub board_id : ℕ
  pub ext_cap : ℕ
  pub ext_cap_10 : ℕ
  pub x_res : ℕ
  pub y_res : ℕ

-- The three bytes of an answer as a number.
unfoldable pub word : Params → ℕ
word id = bit_or (bit_or (id.p0 * 65536) (id.p1 * 256)) id.p2

-- `SYN_ID_MAJOR`, `SYN_ID_MINOR`, `SYN_ID_FULL`, `SYN_ID_IS_SYNAPTICS`.
unfoldable pub id_major : ℕ → ℕ
id_major i = i % 16

unfoldable pub id_minor : ℕ → ℕ
id_minor i = i / 65536 % 256

unfoldable pub id_full : ℕ → ℕ
id_full i = bit_or (id_major i * 256) (id_minor i)

unfoldable pub id_is_synaptics : ℕ → Bool
id_is_synaptics i = i / 256 % 256 == 0x47

-- `SYN_CAP_SUBMODEL_ID`, `SYN_EXT_CAP_REQUESTS`, `SYN_CAP_MULTI_BUTTON_NO`.
unfoldable pub cap_submodel_id : ℕ → ℕ
cap_submodel_id c = c / 256 % 256

unfoldable pub ext_cap_requests : ℕ → ℕ
ext_cap_requests c = c / 1048576 % 8

unfoldable pub cap_multi_button_no : ℕ → ℕ
cap_multi_button_no ec = ec / 4096 % 16

-- More than eight buttons are taken for none: the four digits are cleared by `& 0xff0fff`.
unfoldable pub valid_ext_cap : ℕ → ℕ
valid_ext_cap ec =
    if ltb 8 (cap_multi_button_no ec) then ec / 65536 % 256 * 65536 + ec % 4096 else ec

-- The coordinates in an answer: the low four digits of each stand in the middle byte.
unfoldable pub coordinate_x : Params → ℕ
coordinate_x resp = bit_or (resp.p0 * 32) (resp.p1 % 16 * 2)

unfoldable pub coordinate_y : Params → ℕ
coordinate_y resp = bit_or (resp.p2 * 32) (resp.p1 / 16 % 16 * 2)

unfoldable pub query : ℕ → Synaptics → Bool × Params × Synaptics
query cmd s =
    let (ret, param, h) = send_synaptics_cmd cmd no_params s.pad.host in
    (failed ret, param, record s { pad = record s.pad { host = h } })

unfoldable pub set_capabilities : ℕ → Touchpad → Touchpad
set_capabilities c t = record t { syn_capabilities = c }

-- The steps of the set-up, each with whether it goes on.
unfoldable pub identify : Synaptics → Bool × Synaptics
identify s =
    let (fails, id, s1) = query 0x00 s in
    if fails then (false, s1) else (id_is_synaptics (word id), record s1 { identity = word id })

unfoldable pub find_model : Synaptics → Bool × Synaptics
find_model s =
    let (fails, id, s1) = query 0x03 s in
    if fails then (false, s1) else (true, record s1 { model_id = word id })

unfoldable pub find_firmware : Synaptics → Bool × Synaptics
find_firmware s =
    let (fails, id, s1) = query 0x0a s in
    if fails then (false, s1) else (true, record s1 { firmware_id = word id })

unfoldable pub find_board : Synaptics → Bool × Synaptics
find_board s =
    let (fails, id, s1) = query 0x01 s in
    if fails
    then (false, s1)
    else (true, record s1 { board_id = bit_or (bit_and id.p0 0xfc * 64) id.p1 })

-- Older firmware has the submodel 0x47. Without the extended bit no other capability counts.
unfoldable pub find_capabilities : Synaptics → Bool × Synaptics
find_capabilities s =
    let (fails, cap, s1) = query 0x02 s in
    if fails
    then (false, s1)
    else let caps = word cap in
      let s2 = record s1 {
        ext_cap = 0;
        ext_cap_10 = 0;
        pad = record s1.pad { syn_capabilities = caps; syn_ext_cap_0c = 0 };
      } in
      if ltb (id_full s1.identity) 0x705 && not (cap_submodel_id caps == 0x47)
      then (false, s2)
      else (
        true,
        record s2 { pad = set_capabilities (if has caps 0x800000 then caps else 0) s2.pad },
      )

unfoldable pub find_ext_cap : Synaptics → Bool × Synaptics
find_ext_cap s =
    if leb 1 (ext_cap_requests s.pad.syn_capabilities)
    then (let (fails, cap, s1) = query 0x09 s in
        (true, if fails then s1 else record s1 { ext_cap = valid_ext_cap (word cap) }))
    else (true, s)

unfoldable pub find_ext_cap_0c : Synaptics → Bool × Synaptics
find_ext_cap_0c s =
    if leb 4 (ext_cap_requests s.pad.syn_capabilities)
    then (let (fails, cap, s1) = query 0x0c s in
        (
          true,
          if fails then s1 else record s1 { pad = record s1.pad { syn_ext_cap_0c = word cap } },
        ))
    else (true, s)

unfoldable pub find_resolution : Synaptics → Bool × Synaptics
find_resolution s =
    if ltb (id_major s.identity) 4
    then (true, s)
    else let (fails, resp, s1) = query 0x08 s in
      (
        true,
        if not fails && not (resp.p0 == 0) && has resp.p1 0x80 && not (resp.p2 == 0)
            then record s1 { x_res = resp.p0; y_res = resp.p2 }
            else s1,
      )

-- The capabilities tell whether the touchpad can be asked for its largest, or smallest, coordinates.
unfoldable pub tells_coordinates : ℕ → Synaptics → Bool
tells_coordinates mask s =
    not (ltb (id_major s.identity) 4)
    && (leb 5 (ext_cap_requests s.pad.syn_capabilities) && has s.pad.syn_ext_cap_0c mask)

unfoldable pub find_max : Synaptics → Bool × Synaptics
find_max s =
    if tells_coordinates 0x020000 s
    then (let (fails, resp, s1) = query 0x0d s in
        (
          true,
          if fails then s1 else record s1 {
            pad = record s1.pad { xmax = coordinate_x resp; ymax = coordinate_y resp };
          },
        ))
    else (true, s)

unfoldable pub find_min : Synaptics → Bool × Synaptics
find_min s =
    if tells_coordinates 0x002000 s
    then (let (fails, resp, s1) = query 0x0f s in
        (
          true,
          if fails then s1 else record s1 {
            pad = record s1.pad { xmin = coordinate_x resp; ymin = coordinate_y resp };
          },
        ))
    else (true, s)

-- Gestures are disabled where that is supported, and the touchpad is put into the absolute mode.
unfoldable pub go_absolute : Synaptics → Bool × Synaptics
go_absolute s =
    let (ret, t) = synaptics_set_absolute_mode (record s.pad {
      syn_disable_gesture = leb 4 (id_major s.identity) || s.pad.syn_disable_gesture;
      syn_absolute_mode = true;
    }) in
    if failed ret then (false, record s { pad = t }) else (
      true,
      record s { pad = record t { syn_packet_type = if has s.model_id 0x80 then 0 else 3 } },
    )

unfoldable pub find_pass_through : Synaptics → Bool × Synaptics
find_pass_through s =
    if has s.pad.syn_capabilities 0x80
    then (let (fails, cap, s1) = query 0x10 s in
        (true, if fails then s1 else record s1 { ext_cap_10 = word cap }))
    else (true, s)

unfoldable pub find_click_pad : Synaptics → Bool × Synaptics
find_click_pad s =
    (true, record s { pad = record s.pad { is_click_pad = has s.pad.syn_ext_cap_0c 0x100000 } })

-- Steps one after the other, up to the first that does not go on.
unfoldable pub steps : List (Synaptics → Bool × Synaptics) → Synaptics → Bool × Synaptics
steps [] s = (true, s)
steps (step ∷ rest) s =
    let (goes_on, s1) = step s in elim goes_on [ false ↦ (false, s1) | true ↦ steps rest s1 ]

-- `Synaptics_setup_touchpad`.
unfoldable pub synaptics_setup_touchpad : Synaptics → Bool × Synaptics
synaptics_setup_touchpad = steps (
    identify ∷ find_model ∷ find_firmware ∷ find_board ∷ find_capabilities ∷ find_ext_cap
    ∷ find_ext_cap_0c ∷ find_resolution ∷ find_max ∷ find_min ∷ go_absolute ∷ find_pass_through
    ∷ find_click_pad ∷ [])

-- `Synaptics_reset`: back to the relative mode, gestures enabled.
unfoldable pub synaptics_reset : Touchpad → Touchpad
synaptics_reset t = record t { host = (synaptics_mode_cmd 0 t.host).1 }
