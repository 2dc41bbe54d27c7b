-- ===== src/Controller/Mux.antt =====
-- Reset and active multiplexing in ApplePS2Controller.cpp: `resetPS2Controller`, `setMuxMode`,
-- `detectMuxModeSupport`.
pub mod Detection
pub mod Clients
use apple_ps2smart_touch_pad.Common.{
  ℕ, zero, suc, ◌+◌, Bool, true, false, ◌==◌, if◌then◌else◌, clear_bits, bit_or,
}
use apple_ps2smart_touch_pad.Controller.State.{
  DeviceType, keyboard, mouse, Controller, cp_get_command_byte, cp_set_command_byte,
  cp_write_mouse_output_buffer, cp_transmit_to_mouse, dp_set_defaults_and_disable,
  rp_routing_prefix_aux_port, cb_enable_mouse_irq, cb_disable_mouse_clock, sc_acknowledge,
}
use apple_ps2smart_touch_pad.Controller.Port.{
  write_command_port, write_data_port, clear_input_streams,
}
use apple_ps2smart_touch_pad.Controller.Read.{read_data_port}

-- The byte that `resetPS2Controller` writes back.
unfoldable pub reset_command_byte : ℕ → ℕ
reset_command_byte b = clear_bits b (bit_or cb_enable_mouse_irq cb_disable_mouse_clock)

unfoldable pub reset_ps2_controller : Controller → Controller
reset_ps2_controller c =
    let (b, c1) = read_data_port keyboard (write_command_port cp_get_command_byte c) in
    let c2 = write_data_port (reset_command_byte b) (write_command_port cp_set_command_byte c1) in
    let c3 = (read_data_port keyboard (write_command_port cp_get_command_byte c2)).1 in
    let c4 = (read_data_port keyboard (write_data_port dp_set_defaults_and_disable c3)).1 in
    let c5 =
      write_data_port dp_set_defaults_and_disable (write_command_port cp_transmit_to_mouse c4) in
    clear_input_streams (read_data_port mouse c5).1

-- A byte of the activation sequence and the answer to it.
unfoldable pub loop_back : ℕ → Controller → ℕ × Controller
loop_back val c =
    read_data_port mouse (write_data_port val (write_command_port cp_write_mouse_output_buffer c))

-- The search for the port of the touchpad: `left` ports from `i` on.
unfoldable pub find_aux_port : ℕ → ℕ → Controller → Bool × Controller
find_aux_port zero i c = (false, c)
find_aux_port (suc left) i c =
    let prefix = rp_routing_prefix_aux_port + i in
    let (res, c') = read_data_port mouse (write_data_port 0xf8 (write_command_port prefix c)) in
    elim (res == sc_acknowledge) [
      | true ↦ (true, record c' { mux_route_prefix = prefix })
      | false ↦ find_aux_port left (i + 1) c'
    ]

unfoldable pub set_mux_mode : Bool → Controller → Bool × Controller
set_mux_mode enable c =
    let (r1, c1) = loop_back 0xf0 c in
    let v2 : ℕ = if enable then 0x56 else 0xf6 in
    let (r2, c2) = loop_back v2 c1 in
    let v3 : ℕ = if enable then 0xa4 else 0xa5 in
    let (r3, c3) = loop_back v3 c2 in
    if r1 == 0xf0
    then (if r2 == v2
        then (if r3 == v3 then (false, c3) else find_aux_port 4 0 c3)
        else (false, c2))
    else (false, c1)

unfoldable pub detect_mux_mode_support : Controller → Controller
detect_mux_mode_support c =
    let (found, c') = set_mux_mode true (record c { uses_mux_mode = false }) in
    clear_input_streams (
      if found
      then record (write_data_port cb_disable_mouse_clock
          (write_command_port cp_set_command_byte c')) { uses_mux_mode = true }
      else c')
