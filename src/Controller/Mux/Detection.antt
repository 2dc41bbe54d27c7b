-- ===== src/Controller/Mux/Detection.antt =====
-- What the detection of active multiplexing leaves in the controller.
use apple_ps2smart_touch_pad.Common.{
  if◌then◌else◌, ℕ, zero, suc, ◌+◌, ◌≤◌, ◌<◌, Bool, true, false, List, [], ◌∷◌, ◌≡◌, arith,
}
use apple_ps2smart_touch_pad.Controller.State.{
  mouse, Controller, cp_write_mouse_output_buffer, rp_routing_prefix_aux_port,
  cb_disable_mouse_clock, cp_set_command_byte,
}
use apple_ps2smart_touch_pad.Controller.Port.{
  write_command_port, write_data_port, clear_input_streams, drain, rest_of,
}
use apple_ps2smart_touch_pad.Controller.Read.{read_data_port}
use apple_ps2smart_touch_pad.Controller.Read.Frame.{read_data_port-SameDriver}
use apple_ps2smart_touch_pad.Controller.Mux.{
  loop_back, find_aux_port, set_mux_mode, detect_mux_mode_support,
}

-- What draining the input and writing to a port leave alone.
drain_mux :
    (ss : List ℕ) (c : Controller)
    → ((drain ss c).uses_mux_mode ≡ c.uses_mux_mode)
      × ((drain ss c).mux_route_prefix ≡ c.mux_route_prefix)
      × ((drain ss c).hardware_offline ≡ c.hardware_offline)
      × ((drain ss c).outs ≡ c.outs)
unfolding drain
drain_mux [] c = ground arith
drain_mux (s ∷ ss) c = ground (arith, drain_mux ss (record c { data_in = rest_of c.data_in }))

loop_back_mux :
    (val : ℕ) (c : Controller)
    → ((loop_back val c).1.uses_mux_mode ≡ c.uses_mux_mode)
      × ((loop_back val c).1.mux_route_prefix ≡ c.mux_route_prefix)
unfolding loop_back write_data_port write_command_port
loop_back_mux val c = ground (
  arith,
  read_data_port-SameDriver mouse
      (write_data_port val (write_command_port cp_write_mouse_output_buffer c)),
)

find_aux_port_lem :
    (left i : ℕ) (c : Controller)
    → let (found, c') = find_aux_port left i c in
      (c'.uses_mux_mode ≡ c.uses_mux_mode)
      × (found ≡ false → c'.mux_route_prefix ≡ c.mux_route_prefix)
      × (found ≡ true
          → (rp_routing_prefix_aux_port + i ≤ c'.mux_route_prefix)
            × (c'.mux_route_prefix < rp_routing_prefix_aux_port + i + left))
unfolding find_aux_port write_data_port write_command_port
find_aux_port_lem zero i c = ground arith
find_aux_port_lem (suc left) i c =
    let sent = write_data_port 0xf8 (write_command_port (rp_routing_prefix_aux_port + i) c) in
    ground (
      arith,
      read_data_port-SameDriver mouse sent,
      find_aux_port_lem left (i + 1) (read_data_port mouse sent).1,
    )

set_mux_mode_lem :
    (enable : Bool) (c : Controller)
    → let (found, c') = set_mux_mode enable c in
      (c'.uses_mux_mode ≡ c.uses_mux_mode)
      × (found ≡ false → c'.mux_route_prefix ≡ c.mux_route_prefix)
      × (found ≡ true → (0x90 ≤ c'.mux_route_prefix) × (c'.mux_route_prefix ≤ 0x93))
unfolding set_mux_mode
set_mux_mode_lem enable c =
    let c1 = (loop_back 0xf0 c).1 in
    let v2 : ℕ = if enable then 0x56 else 0xf6 in
    let c2 = (loop_back v2 c1).1 in
    let v3 : ℕ = if enable then 0xa4 else 0xa5 in
    ground (
      arith,
      loop_back_mux 0xf0 c,
      loop_back_mux v2 c1,
      loop_back_mux v3 c2,
      find_aux_port_lem 4 0 (loop_back v3 c2).1,
    )

clear_input_streams_mux :
    (c : Controller)
    → ((clear_input_streams c).uses_mux_mode ≡ c.uses_mux_mode)
      × ((clear_input_streams c).mux_route_prefix ≡ c.mux_route_prefix)
unfolding clear_input_streams
clear_input_streams_mux c = let d = drain_mux c.status_in c in (d.0, d.1)

-- After the detection the controller works with multiplexing exactly if the activation succeeded,
-- then with the prefix of one of the four ports, and otherwise with the prefix that it had.
pub detect_mux_mode_support_lem :
    (c : Controller)
    → let found = (set_mux_mode true (record c { uses_mux_mode = false })).0 in
      let c' = detect_mux_mode_support c in
      (c'.uses_mux_mode ≡ found)
      × (found ≡ false → c'.mux_route_prefix ≡ c.mux_route_prefix)
      × (found ≡ true → (0x90 ≤ c'.mux_route_prefix) × (c'.mux_route_prefix ≤ 0x93))
unfolding detect_mux_mode_support write_data_port write_command_port
detect_mux_mode_support_lem c =
    let start : Controller = record c { uses_mux_mode = false } in
    let c' = (set_mux_mode true start).1 in
    let on : Controller =
      record (write_data_port cb_disable_mouse_clock (write_command_port cp_set_command_byte c')) {
        uses_mux_mode = true;
      } in
    ground
      (arith, set_mux_mode_lem true start, clear_input_streams_mux c', clear_input_streams_mux on)
