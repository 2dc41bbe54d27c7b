-- ===== src/Touchpad/Elan.antt =====
-- ApplePS2SmartTouchPad.cpp, the `Elantech_` methods: registers, absolute mode, properties, ranges
-- and the setup that calls them.
--
-- `IOSleep` and the log are left out. A register access refused for its number returns -1 in one of
-- the two methods; callers only test for success, and it is `error` here.
pub mod Access
pub mod Mode
pub mod Versions
pub mod Ranges
pub mod Registers
pub mod Properties
pub mod Parity
pub mod Setup
use apple_ps2smart_touch_pad.Common.{
  ℕ, zero, suc, ◌+◌, ◌-◌, ◌*◌, ◌/◌, ◌%◌, Bool, true, false, not, List, [], ◌∷◌, ◌==◌, ◌||◌, ◌&&◌,
  if◌then◌else◌, bit_and, bit_or, bit_xor, has, ltb, leb, get_or, set, replicate,
}
use apple_ps2smart_touch_pad.Interface.{
  send, send_sliced_ps2_cmd, send_synaptics_cmd, send_elantech_cmd, send_elantech_ps2_cmd,
  send_ps2_cmd, get_mouse_information, dp_set_mouse_scaling_1_to_1, dp_reset,
  etd_ps2_custom_command,
}
use apple_ps2smart_touch_pad.Interface.Device.{
  IoReturn, success, error, no_device, Host, Params, failed, new_request, submit, free_request,
}
use apple_ps2smart_touch_pad.Touchpad.{Touchpad}
use Access.{
  etd_register_read, etd_register_write, etd_register_readwrite, Call, any_fails, no_params,
  refused, write_reg_calls, write_reg, read_reg_calls, read_reg,
}
use Mode.{etd_read_back_tries, etd_r10_absolute_mode, read_back, write_mode, set_absolute_mode}
use Versions.{ic_version, hw_version_of, set_flags, set_properties}
use Ranges.{
  times_64, times_half, etd_fw_id_query, etd_sample_query, range_x, range_y, queried_range,
  reported_range, set_traces, range_of, set_range,
}

-- The query of the capabilities and that of the firmware.
abbrev pub etd_capabilities_query : ℕ
etd_capabilities_query = 2

abbrev pub etd_fw_version_query : ℕ
etd_fw_version_query = 1

-- The capabilities, by version.
unfoldable pub query_capabilities : Touchpad → IoReturn × Touchpad
query_capabilities t =
    let (ret, param, h) =
      if t.hw_version == 1 || t.hw_version == 2
      then send_synaptics_cmd etd_capabilities_query t.elan_capabs t.host
      else send_elantech_cmd etd_capabilities_query t.host in
    (ret, record t { elan_capabs = param; host = h })

-- The rates in `Elantech_is_signatures_valid`.
abbrev pub rates : List ℕ
rates = 200 ∷ 100 ∷ 80 ∷ 60 ∷ 40 ∷ 20 ∷ 10 ∷ []

unfoldable pub is_none_of : List ℕ → ℕ → Bool
is_none_of [] x = true
is_none_of (r ∷ rs) x = if x == r then false else is_none_of rs x

unfoldable pub is_signatures_valid : Params → Bool
is_signatures_valid param =
    if param.p0 == 0
    then false
    else if param.p1 == 0
    then true
    else if bit_and param.p1 0xef == 0x0f && ltb param.p2 40
    then true
    else is_none_of rates param.p2

-- `Elantech_setup_touchpad` behind the version checks.
unfoldable pub configure : Touchpad → Bool × Touchpad
configure t =
    let (ret, t1) = query_capabilities t in
    if failed ret
    then (false, t1)
    else let (ret1, t2) = set_absolute_mode t1 in
      if failed ret1
      then (false, t2)
      else let (ret2, t3) = set_range t2 in
        if failed ret2
        then (false, t3)
        else (true, record t3 { supports_track_point = bit_and t3.elan_capabs.p0 0x80 == 0x80 })

unfoldable pub setup_touchpad : Touchpad → Bool × Touchpad
setup_touchpad t =
    let (ret, param, h) = send_synaptics_cmd etd_fw_version_query no_params t.host in
    let t1 = record t { host = h } in
    if failed ret
    then (false, t1)
    else if is_signatures_valid param
    then (let t2 = record t1 {
      fw_version = bit_or (bit_or (param.p0 * 65536) (param.p1 * 256)) param.p2;
    } in
        let (ret1, t3) = set_properties t2 in
        if failed ret1
        then (false, t3)
        else let t4 = record t3 {
          is_click_pad = ltb 3 t3.hw_version && has t3.fw_version 0x1000;
        } in
          if ltb t4.hw_version 2 then (false, t4) else configure t4)
    else (false, t1)

-- `for (i = 1; i < 256; i++)` in `start`, which fills `parityBit` from its first entry on.
unfoldable pub parity_loop : ℕ → ℕ → List ℕ → List ℕ
parity_loop zero i bits = bits
parity_loop (suc left) i bits =
    parity_loop left (i + 1) (set bits i (bit_xor (get_or bits (bit_and i (i - 1)) 0) 1))

unfoldable pub parity_bit : List ℕ
parity_bit = parity_loop 255 1 (set (replicate 256 0) 0 1)
