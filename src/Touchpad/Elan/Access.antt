-- ===== src/Touchpad/Elan/Access.antt =====
-- ApplePS2SmartTouchPad.cpp: access to the registers of ELAN hardware.
--
-- An access that is refused for its number returns -1 in one of the two methods; callers only test
-- for success, and it is `error` here.
use apple_ps2smart_touch_pad.Common.{
  ℕ, Bool, true, false, List, [], ◌∷◌, ◌==◌, ◌||◌, ◌&&◌, if◌then◌else◌, ltb,
}
use apple_ps2smart_touch_pad.Interface.{
  send_sliced_ps2_cmd, send_elantech_ps2_cmd, send_ps2_cmd, get_mouse_information,
  dp_set_mouse_scaling_1_to_1, etd_ps2_custom_command,
}
use apple_ps2smart_touch_pad.Interface.Device.{IoReturn, success, error, Host, Params, failed}

abbrev pub etd_register_read : ℕ
etd_register_read = 0x10

abbrev pub etd_register_write : ℕ
etd_register_write = 0x11

abbrev pub etd_register_readwrite : ℕ
etd_register_readwrite = 0

-- A call of PS2Interface.cpp.
abbrev pub Call : Type 0
Call = Host → IoReturn × Host

-- `call || call || …`: whether one of them failed; those behind it are not made.
unfoldable pub any_fails : List Call → Host → Bool × Host
any_fails [] h = (false, h)
any_fails (c ∷ cs) h =
    let (ret, h') = c h in elim (failed ret) [ true ↦ (true, h') | false ↦ any_fails cs h' ]

abbrev pub no_params : Params
no_params = record { p0 = 0; p1 = 0; p2 = 0 }

-- The two guards at the head of `Elantech_write_reg` and of `Elantech_read_reg`.
unfoldable pub refused : ℕ → Bool
refused reg = (ltb reg 0x07 || ltb 0x26 reg) || (ltb 0x11 reg && ltb reg 0x20)

abbrev pub write_reg_calls : ℕ → ℕ → ℕ → List Call
write_reg_calls hw reg val =
    if hw == 1
    then send_sliced_ps2_cmd etd_register_write
      ∷ send_sliced_ps2_cmd reg
      ∷ send_sliced_ps2_cmd val
      ∷ send_ps2_cmd dp_set_mouse_scaling_1_to_1
      ∷ []
    else if hw == 2
    then send_elantech_ps2_cmd etd_ps2_custom_command
      ∷ send_elantech_ps2_cmd etd_register_write
      ∷ send_elantech_ps2_cmd etd_ps2_custom_command
      ∷ send_elantech_ps2_cmd reg
      ∷ send_elantech_ps2_cmd etd_ps2_custom_command
      ∷ send_elantech_ps2_cmd val
      ∷ send_elantech_ps2_cmd dp_set_mouse_scaling_1_to_1
      ∷ []
    else if hw == 3
    then send_elantech_ps2_cmd etd_ps2_custom_command
      ∷ send_elantech_ps2_cmd etd_register_readwrite
      ∷ send_elantech_ps2_cmd etd_ps2_custom_command
      ∷ send_elantech_ps2_cmd reg
      ∷ send_elantech_ps2_cmd etd_ps2_custom_command
      ∷ send_elantech_ps2_cmd val
      ∷ send_elantech_ps2_cmd dp_set_mouse_scaling_1_to_1
      ∷ []
    else if hw == 4
    then send_elantech_ps2_cmd etd_ps2_custom_command
      ∷ send_elantech_ps2_cmd etd_register_readwrite
      ∷ send_elantech_ps2_cmd etd_ps2_custom_command
      ∷ send_elantech_ps2_cmd reg
      ∷ send_elantech_ps2_cmd etd_ps2_custom_command
      ∷ send_elantech_ps2_cmd etd_register_readwrite
      ∷ send_elantech_ps2_cmd etd_ps2_custom_command
      ∷ send_elantech_ps2_cmd val
      ∷ send_elantech_ps2_cmd dp_set_mouse_scaling_1_to_1
      ∷ []
    else []

unfoldable pub write_reg : ℕ → ℕ → ℕ → Host → IoReturn × Host
write_reg hw reg val h =
    if refused reg
    then (error, h)
    else let (fails, h') = any_fails (write_reg_calls hw reg val) h in
      (if fails then error else success, h')

abbrev pub read_reg_calls : ℕ → ℕ → List Call
read_reg_calls hw reg =
    if hw == 1
    then send_sliced_ps2_cmd etd_register_read ∷ send_sliced_ps2_cmd reg ∷ []
    else if hw == 2
    then send_elantech_ps2_cmd etd_ps2_custom_command
      ∷ send_elantech_ps2_cmd etd_register_read
      ∷ send_elantech_ps2_cmd etd_ps2_custom_command
      ∷ send_elantech_ps2_cmd reg
      ∷ []
    else send_elantech_ps2_cmd etd_ps2_custom_command
      ∷ send_elantech_ps2_cmd etd_register_readwrite
      ∷ send_elantech_ps2_cmd etd_ps2_custom_command
      ∷ send_elantech_ps2_cmd reg
      ∷ []

-- The result, what is stored through `val` (which holds `old` before), and the host.
unfoldable pub read_reg : ℕ → ℕ → ℕ → Host → IoReturn × ℕ × Host
read_reg hw reg old h =
    if refused reg
    then (error, old, h)
    else if ltb hw 1 || ltb 4 hw
    then (success, 0, h)
    else let (fails, h1) = any_fails (read_reg_calls hw reg) h in
      if fails
      then (error, old, h1)
      else let (ret, param, h2) = get_mouse_information no_params h1 in
        if failed ret
        then (error, old, h2)
        else (success, if hw == 4 then param.p1 else param.p0, h2)
