-- ===== src/Controller/Mux/Clients.antt =====
-- The commands that reset the controller and look for multiplexing do not touch the clients'
-- registrations or the power state.
use apple_ps2smart_touch_pad.Common.{
  if◌then◌else◌, ℕ, zero, suc, ◌+◌, Bool, true, false, List, [], ◌∷◌, ◌≡◌, arith,
}
use apple_ps2smart_touch_pad.Controller.State.{
  DeviceType, keyboard, mouse, Controller, rp_routing_prefix_aux_port, cp_write_mouse_output_buffer,
  cp_get_command_byte, cp_set_command_byte, dp_set_defaults_and_disable, cp_transmit_to_mouse,
  cb_disable_mouse_clock,
}
use apple_ps2smart_touch_pad.Controller.Port.{
  write_command_port, write_data_port, clear_input_streams, drain, rest_of,
}
use apple_ps2smart_touch_pad.Controller.Read.{read_data_port}
use apple_ps2smart_touch_pad.Controller.Read.Frame.{read_data_port-SameDriver}
use apple_ps2smart_touch_pad.Controller.Mux.{
  loop_back, find_aux_port, set_mux_mode, detect_mux_mode_support, reset_ps2_controller,
  reset_command_byte,
}

pub record SameClients (c c' : Controller) : Type 0 where
  pub notified : c'.notified ≡ c.notified
  pub keyboard_power : c'.power_installed_keyboard ≡ c.power_installed_keyboard
  pub mouse_power : c'.power_installed_mouse ≡ c.power_installed_mouse
  pub power_state : c'.current_power_state ≡ c.current_power_state
  pub offline : c'.hardware_offline ≡ c.hardware_offline

pub SameClients-refl : (c : Controller) → SameClients c c
SameClients-refl c = ground arith

pub SameClients-trans : {a b c : Controller} → SameClients a b → SameClients b c → SameClients a c
SameClients-trans p q = ground arith

pub write_data_port-SameClients : (b : ℕ) (c : Controller) → SameClients c (write_data_port b c)
unfolding write_data_port
write_data_port-SameClients b c = ground arith

pub write_command_port-SameClients :
    (b : ℕ) (c : Controller) → SameClients c (write_command_port b c)
unfolding write_command_port
write_command_port-SameClients b c = ground arith

pub read_data_port-SameClients :
    (d : DeviceType) (c : Controller) → SameClients c (read_data_port d c).1
read_data_port-SameClients d c = ground (arith, read_data_port-SameDriver d c)

drain-SameClients : (ss : List ℕ) (c : Controller) → SameClients c (drain ss c)
unfolding drain
drain-SameClients [] c = ground arith
drain-SameClients (s ∷ ss) c =
    ground (arith, drain-SameClients ss (record c { data_in = rest_of c.data_in }))

pub clear_input_streams-SameClients : (c : Controller) → SameClients c (clear_input_streams c)
unfolding clear_input_streams
clear_input_streams-SameClients c = drain-SameClients c.status_in c

-- A command, its data byte, and the read of an answer.
pub exchange :
    (p b : ℕ) (d : DeviceType) (c : Controller)
    → SameClients c (read_data_port d (write_data_port b (write_command_port p c))).1
exchange p b d c =
    SameClients-trans
      (SameClients-trans (write_command_port-SameClients p c)
        (write_data_port-SameClients b (write_command_port p c)))
      (read_data_port-SameClients d (write_data_port b (write_command_port p c)))

-- A command to the controller whose answer comes on the keyboard stream.
pub ask :
    (p : ℕ) (c : Controller) → SameClients c (read_data_port keyboard (write_command_port p c)).1
ask p c =
    SameClients-trans (write_command_port-SameClients p c)
      (read_data_port-SameClients keyboard (write_command_port p c))

find_aux_port-SameClients : (left i : ℕ) (c : Controller) → SameClients c (find_aux_port left i c).1
unfolding find_aux_port
find_aux_port-SameClients zero i c = SameClients-refl c
find_aux_port-SameClients (suc left) i c =
    let prefix = rp_routing_prefix_aux_port + i in
    ground (
      arith,
      exchange prefix 0xf8 mouse c,
      find_aux_port-SameClients left (i + 1)
          (read_data_port mouse (write_data_port 0xf8 (write_command_port prefix c))).1,
    )

loop_back-SameClients : (val : ℕ) (c : Controller) → SameClients c (loop_back val c).1
unfolding loop_back
loop_back-SameClients val c = exchange cp_write_mouse_output_buffer val mouse c

set_mux_mode-SameClients :
    (enable : Bool) (c : Controller) → SameClients c (set_mux_mode enable c).1
unfolding set_mux_mode
set_mux_mode-SameClients enable c =
    let c1 = (loop_back 0xf0 c).1 in
    let v2 : ℕ = if enable then 0x56 else 0xf6 in
    let c2 = (loop_back v2 c1).1 in
    let v3 : ℕ = if enable then 0xa4 else 0xa5 in
    ground (
      arith,
      loop_back-SameClients 0xf0 c,
      loop_back-SameClients v2 c1,
      loop_back-SameClients v3 c2,
      find_aux_port-SameClients 4 0 (loop_back v3 c2).1,
    )

pub detect_mux_mode_support-SameClients :
    (c : Controller) → SameClients c (detect_mux_mode_support c)
unfolding detect_mux_mode_support
detect_mux_mode_support-SameClients c =
    let start : Controller = record c { uses_mux_mode = false } in
    let c' = (set_mux_mode true start).1 in
    let sent = write_data_port cb_disable_mouse_clock (write_command_port cp_set_command_byte c') in
    ground (
      arith,
      set_mux_mode-SameClients true start,
      write_command_port-SameClients cp_set_command_byte c',
      write_data_port-SameClients cb_disable_mouse_clock
          (write_command_port cp_set_command_byte c'),
      clear_input_streams-SameClients c',
      clear_input_streams-SameClients (record sent { uses_mux_mode = true }),
    )

pub reset_ps2_controller-SameClients : (c : Controller) → SameClients c (reset_ps2_controller c)
unfolding reset_ps2_controller
reset_ps2_controller-SameClients c =
    let asked = read_data_port keyboard (write_command_port cp_get_command_byte c) in
    let b = reset_command_byte asked.0 in
    let c2 = write_data_port b (write_command_port cp_set_command_byte asked.1) in
    let c3 = (read_data_port keyboard (write_command_port cp_get_command_byte c2)).1 in
    let c4 = (read_data_port keyboard (write_data_port dp_set_defaults_and_disable c3)).1 in
    let c5 =
      (read_data_port mouse (
        write_data_port dp_set_defaults_and_disable
          (write_command_port cp_transmit_to_mouse c4))).1 in
    ground (
      arith,
      ask cp_get_command_byte c,
      write_command_port-SameClients cp_set_command_byte asked.1,
      write_data_port-SameClients b (write_command_port cp_set_command_byte asked.1),
      ask cp_get_command_byte c2,
      write_data_port-SameClients dp_set_defaults_and_disable c3,
      read_data_port-SameClients keyboard (write_data_port dp_set_defaults_and_disable c3),
      exchange cp_transmit_to_mouse dp_set_defaults_and_disable mouse c4,
      clear_input_streams-SameClients c5,
    )
