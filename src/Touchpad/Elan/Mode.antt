-- ===== src/Touchpad/Elan/Mode.antt =====
-- ApplePS2SmartTouchPad.cpp, `Elantech_set_absolute_mode`. The sleep between two tries is left out.
use apple_ps2smart_touch_pad.Common.{
  ℕ, zero, suc, true, false, not, [], ◌∷◌, ◌==◌, ◌||◌, ◌&&◌, if◌then◌else◌, has,
}
use apple_ps2smart_touch_pad.Interface.{send, dp_reset}
use apple_ps2smart_touch_pad.Interface.Device.{
  IoReturn, success, error, Host, failed, new_request, submit, free_request,
}
use apple_ps2smart_touch_pad.Touchpad.{Touchpad}
use apple_ps2smart_touch_pad.Touchpad.Elan.Access.{any_fails, write_reg, read_reg}

-- The loop that reads back register 0x10: how often it tries.
abbrev pub etd_read_back_tries : ℕ
etd_read_back_tries = 5

abbrev pub etd_r10_absolute_mode : ℕ
etd_r10_absolute_mode = 0x04

-- The last result and value of that loop.
unfoldable pub read_back : ℕ → ℕ → ℕ → Host → IoReturn × ℕ × Host
read_back zero hw val h = (error, val, h)
read_back (suc tries) hw val h =
    let (ret, val', h') = read_reg hw 0x10 val h in
    elim (failed ret) [ true ↦ read_back tries hw val' h' | false ↦ (success, val', h') ]

-- The registers as `Elantech_set_absolute_mode` writes them, by version.
unfoldable pub write_mode : Touchpad → IoReturn × Touchpad
write_mode t =
    if t.hw_version == 1
    then (let (fails, h) = any_fails (write_reg 1 0x10 0x16 ∷ write_reg 1 0x11 0x8f ∷ []) t.host in
        (if fails then error else success, record t { reg_10 = 0x16; reg_11 = 0x8f; host = h }))
    else if t.hw_version == 2
    then (let (fails, h) =
          any_fails (write_reg 2 0x10 0x54 ∷ write_reg 2 0x11 0x88 ∷ write_reg 2 0x21 0x60 ∷ [])
            t.host in
        (
          if fails then error else success,
          record t { reg_10 = 0x54; reg_11 = 0x88; reg_21 = 0x60; host = h },
        ))
    else if t.hw_version == 3
    then (let (ret, h) = write_reg 3 0x10 0x0b t.host in
        if failed ret
        then (let (ret', h') = write_reg 3 0x10 0x03 h in
            (
              if failed ret' then error else success,
              record t { v3_elan_legacy_mode = true; reg_10 = 0x03; host = h' },
            ))
        else (success, record t { reg_10 = 0x0b; host = h }))
    else if t.hw_version == 4
    then (let (ret, h) = write_reg 4 0x07 0x01 t.host in
        (if failed ret then error else success, record t { reg_07 = 0x01; host = h }))
    else (success, t)

-- `Elantech_set_absolute_mode`; the outcome of the reset is not looked at.
unfoldable pub set_absolute_mode : Touchpad → IoReturn × Touchpad
set_absolute_mode t =
    let (r, h) = submit (new_request (send dp_reset ∷ [])) t.host in
    let (ret, t1) = write_mode (record t { host = (free_request r h).1 }) in
    if t1.hw_version == 4 || failed ret
    then (ret, t1)
    else let (ret', val, h') = read_back etd_read_back_tries t1.hw_version 0 t1.host in
      let t2 = record t1 { host = h' } in
      if failed ret'
      then (ret', t2)
      else if t1.hw_version == 1 && not (has val etd_r10_absolute_mode)
      then (error, t2)
      else (success, t2)
