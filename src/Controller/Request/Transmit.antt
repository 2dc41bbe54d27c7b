-- ===== src/Controller/Request/Transmit.antt =====
-- The composite mouse command beside the sequence of commands that its comment spells out.
use apple_ps2smart_touch_pad.Common.{
  ℕ, true, false, List, [], ◌∷◌, ◌≡◌, ◌≢◌, arith, none, some, if◌then◌else◌, ◌==◌,
}
use apple_ps2smart_touch_pad.Controller.State.{
  DeviceType, keyboard, mouse, Controller, sc_acknowledge, cp_transmit_to_mouse,
}
use apple_ps2smart_touch_pad.Controller.Read.{read_data_port_expecting}
use apple_ps2smart_touch_pad.Controller.Port.{write_data_port, write_command_port}
use apple_ps2smart_touch_pad.Controller.Request.Commands.{
  Ps2Command, Cursor, run_commands, run_command, c_read_data_port_and_compare, c_write_data_port,
  c_write_command_port, c_send_mouse_command_and_compare_ack, mouse_route,
}

abbrev pub composite : ℕ → List Ps2Command
composite b = record { command = c_send_mouse_command_and_compare_ack; in_or_out = b } ∷ []

-- `kPS2C_WriteCommandPort(route)`, `kPS2C_WriteDataPort(b)`,
-- `kPS2C_ReadDataPortAndCompare(kSC_Acknowledge)`.
abbrev pub spelled_out : ℕ → ℕ → List Ps2Command
spelled_out route b =
    record { command = c_write_command_port; in_or_out = route }
    ∷ record { command = c_write_data_port; in_or_out = b }
    ∷ record { command = c_read_data_port_and_compare; in_or_out = sc_acknowledge }
    ∷ []

-- Without multiplexing the composite command does what the three commands do: the controller ends
-- in the same state, the next read goes to the same stream, and one fails exactly if the other
-- does.
pub composite_lem :
    (b : ℕ) (m : DeviceType) (c : Controller)
    → c.uses_mux_mode ≡ false
    → let k : Cursor = record { device_mode = m; transmit_to_mouse = false } in
      let one = run_commands 1 0 (composite b) k c in
      let three = run_commands 3 0 (spelled_out cp_transmit_to_mouse b) k c in
      (one.ctl ≡ three.ctl)
      × (one.cursor ≡ three.cursor)
      × (one.failed_at ≡ (
          if (read_data_port_expecting mouse sc_acknowledge
              (write_data_port b (write_command_port cp_transmit_to_mouse c))).0
            == sc_acknowledge
          then none
          else some 0))
      × (three.failed_at ≡ (
          if (read_data_port_expecting mouse sc_acknowledge
              (write_data_port b (write_command_port cp_transmit_to_mouse c))).0
            == sc_acknowledge
          then none
          else some 2))
unfolding run_commands run_command mouse_route
composite_lem b m c h = ground arith

-- With multiplexing they differ: after the composite command the next read goes to the mouse, after
-- the three commands with the routing prefix it goes to the keyboard, and so did the one that
-- compares the acknowledgement.
pub composite_mux :
    (b : ℕ) (m : DeviceType) (c : Controller)
    → c.uses_mux_mode ≡ true
    → c.mux_route_prefix ≢ cp_transmit_to_mouse
    → let k : Cursor = record { device_mode = m; transmit_to_mouse = false } in
      let sent = write_data_port b (write_command_port c.mux_route_prefix c) in
      let one = run_commands 1 0 (composite b) k c in
      let three = run_commands 3 0 (spelled_out c.mux_route_prefix b) k c in
      (one.ctl ≡ (read_data_port_expecting mouse sc_acknowledge sent).1)
      × (three.ctl ≡ (read_data_port_expecting keyboard sc_acknowledge sent).1)
      × (one.cursor.device_mode ≡ mouse)
      × (three.cursor.device_mode ≡ keyboard)
unfolding run_commands run_command mouse_route
composite_mux b m c h p = ground arith
