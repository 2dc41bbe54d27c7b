-- ===== src/Touchpad/Elan/Ranges.antt =====
-- ApplePS2SmartTouchPad.cpp, `Elantech_set_range`.
use apple_ps2smart_touch_pad.Common.{
  ℕ, ◌+◌, ◌-◌, ◌*◌, ◌/◌, ◌%◌, Bool, true, false, ◌==◌, ◌||◌, ◌&&◌, if◌then◌else◌, bit_and, bit_or,
  has, ltb, leb,
}
use apple_ps2smart_touch_pad.Interface.{send_synaptics_cmd, send_elantech_cmd}
use apple_ps2smart_touch_pad.Interface.Device.{IoReturn, success, error, Params, failed}
use apple_ps2smart_touch_pad.Touchpad.{Touchpad}
use apple_ps2smart_touch_pad.Touchpad.Elan.Access.{no_params}

-- `(UInt16)((c - i) * 64)` and `(UInt16)((c - i) * p / 2)` on `int`, where the quotient is cut off
-- towards 0.
unfoldable pub times_64 : ℕ → ℕ → ℕ
times_64 c i = (c + 65536 - i) * 64 % 65536

unfoldable pub times_half : ℕ → ℕ → ℕ → ℕ
times_half c i p = if leb i c then (c - i) * p / 2 % 65536 else (65536 - (i - c) * p / 2) % 65536

abbrev pub etd_fw_id_query : ℕ
etd_fw_id_query = 0

abbrev pub etd_sample_query : ℕ
etd_sample_query = 3

-- `(0x0f & p[0]) << 8 | p[1]` and `(0xf0 & p[0]) << 4 | p[2]`.
unfoldable pub range_x : Params → ℕ
range_x param = bit_or (bit_and 0x0f param.p0 * 256) param.p1

unfoldable pub range_y : Params → ℕ
range_y param = bit_or (bit_and 0xf0 param.p0 * 16) param.p2

-- The ranges of version 2 that its firmware does not fix; false is an error.
unfoldable pub queried_range : Touchpad → Bool × Touchpad
queried_range t =
    let i = if ltb 0x020800 t.fw_version && ltb t.fw_version 0x020900 then 1 else 2 in
    let (ret, param, h) = send_synaptics_cmd etd_fw_id_query no_params t.host in
    let t1 = record t { host = h } in
    if failed ret
    then (false, t1)
    else if t.fw_version / 65536 == 0x14 && has param.p1 0x10
    then (let (ret', param', h') = send_synaptics_cmd etd_sample_query param h in
        let t2 = record t { host = h' } in
        if failed ret' then (false, t2) else (
          true,
          record t2 {
            xmax = times_half t.elan_capabs.p1 i param'.p1;
            ymax = times_half t.elan_capabs.p2 i param'.p2;
          },
        ))
    else if t.fw_version == 0x040216
    then (true, record t1 { xmax = 819; ymax = 405 })
    else if t.fw_version == 0x040219 || t.fw_version == 0x040215
    then (true, record t1 { xmax = 900; ymax = 500 })
    else (
      true,
      record t1 { xmax = times_64 t.elan_capabs.p1 i; ymax = times_64 t.elan_capabs.p2 i },
    )

-- The ranges of versions 3 and 4, as the firmware reports them; false is an error.
unfoldable pub reported_range : Touchpad → Bool × Touchpad
reported_range t =
    let (ret, param, h) = send_elantech_cmd etd_fw_id_query t.host in
    if failed ret then (false, record t { host = h }) else (
      true,
      record t { host = h; xmin = 0; ymin = 0; xmax = range_x param; ymax = range_y param },
    )

-- The division by `traces - 1`, stored in a `UInt8`, behind its guard.
unfoldable pub set_traces : Touchpad → Bool × Touchpad
set_traces t =
    let traces = t.elan_capabs.p1 in
    if ltb traces 2 || ltb t.xmax traces
    then (false, t)
    else (true, record t { traces_width = t.xmax / (traces - 1) % 256 })

unfoldable pub range_of : Touchpad → Bool × Touchpad
range_of t =
    if t.hw_version == 1
    then (true, record t { xmin = 32; ymin = 32; xmax = 544; ymax = 352 })
    else if t.hw_version == 2
    then (if t.fw_version == 0x020800 || t.fw_version == 0x020b00 || t.fw_version == 0x020030
        then (true, record t { xmin = 0; ymin = 0; xmax = 1152; ymax = 768 })
        else queried_range t)
    else if t.hw_version == 3
    then reported_range t
    else if t.hw_version == 4
    then (let (found, t1) = reported_range t in if found then set_traces t1 else (false, t1))
    else (true, t)

unfoldable pub set_range : Touchpad → IoReturn × Touchpad
set_range t =
    let (found, t1) = range_of t in
    if found
    then (success, record t1 { xcenter = t1.xmax / 2; ycenter = t1.ymax / 2 })
    else (error, t1)
