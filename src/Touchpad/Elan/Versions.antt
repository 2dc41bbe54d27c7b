-- ===== src/Touchpad/Elan/Versions.antt =====
-- ApplePS2SmartTouchPad.cpp, `Elantech_set_properties`.
use apple_ps2smart_touch_pad.Common.{
  ℕ, ◌/◌, true, false, ◌==◌, ◌||◌, ◌&&◌, if◌then◌else◌, bit_and, ltb, leb,
}
use apple_ps2smart_touch_pad.Interface.Device.{IoReturn, success, no_device}
use apple_ps2smart_touch_pad.Touchpad.{Touchpad}

-- The version of the IC body, and the hardware version that goes with it; 0 where the switch has no
-- case.
unfoldable pub ic_version : ℕ → ℕ
ic_version fw = bit_and fw 0x0f0000 / 65536

unfoldable pub hw_version_of : ℕ → ℕ
hw_version_of ver =
    if ver == 2 || ver == 4
    then 2
    else if ver == 5
    then 3
    else if ver == 6 || ver == 7 || ver == 8 || ver == 9 || ver == 10 || ver == 13 || ver == 14
    then 4
    else 0

-- What follows the switch in `Elantech_set_properties`.
unfoldable pub set_flags : Touchpad → Touchpad
set_flags t = record t {
  is_click_pad = if ltb t.hw_version 4 then false else t.is_click_pad;
  parity_check = true;
  jumpy_cursor = t.fw_version == 0x020022 || t.fw_version == 0x020600;
  reports_pressure =
      if ltb 1 t.hw_version && leb 0x020800 t.fw_version then true else t.reports_pressure;
  crc_enabled = bit_and t.fw_version 0x4000 == 0x4000;
}

unfoldable pub set_properties : Touchpad → IoReturn × Touchpad
set_properties t =
    let ver = ic_version t.fw_version in
    if ltb t.fw_version 0x020030 || t.fw_version == 0x020600
    then (success, set_flags (record t { hw_version = 1 }))
    else if hw_version_of ver == 0
    then (if ltb 14 t.hw_version then (success, set_flags t) else (no_device, t))
    else (success, set_flags (record t { hw_version = hw_version_of ver }))
