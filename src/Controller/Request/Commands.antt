-- ===== src/Controller/Request/Commands.antt =====
-- The commands of a request, and their execution one after the other.
use apple_ps2smart_touch_pad.Common.{
  ℕ, zero, suc, ◌+◌, Bool, true, false, not, List, [], ◌∷◌, Option, none, some, ◌==◌, if◌then◌else◌,
}
use apple_ps2smart_touch_pad.Controller.State.{
  DeviceType, keyboard, mouse, Controller, sc_acknowledge, cp_transmit_to_mouse,
}
use apple_ps2smart_touch_pad.Controller.Port.{write_data_port, write_command_port}
use apple_ps2smart_touch_pad.Controller.Read.{read_data_port, read_data_port_expecting}

-- `PS2CommandEnum`.
pub data CommandKind : Type 0 where
  c_read_data_port c_read_mouse_data_port c_read_data_port_and_compare : CommandKind
  c_write_data_port c_write_command_port c_send_mouse_command_and_compare_ack : CommandKind

-- `PS2Command`.
pub record Ps2Command : Type 0 where
  pub command : CommandKind
  pub in_or_out : ℕ

-- The local variables of `processRequest` beside the controller: the stream that the next read
-- goes to, and whether the next byte written goes to the mouse.
pub record Cursor : Type 0 where
  pub device_mode : DeviceType
  pub transmit_to_mouse : Bool

pub record Ran : Type 0 where
  pub command : Ps2Command
  pub failed : Bool
  pub cursor : Cursor
  pub ctl : Controller

-- `writeCommandPort` of the route to the mouse.
unfoldable pub mouse_route : Controller → ℕ
mouse_route c = if c.uses_mux_mode then c.mux_route_prefix else cp_transmit_to_mouse

-- The cases of the `switch`, given `inOrOut`.
unfoldable pub run_command : CommandKind → ℕ → Cursor → Controller → Ran
unfolding mouse_route
run_command c_read_data_port b k c =
    let (r, c') = read_data_port k.device_mode c in
    record {
      command = record { command = c_read_data_port; in_or_out = r };
      failed = false;
      cursor = k;
      ctl = c';
    }
run_command c_read_mouse_data_port b k c =
    let (r, c') = read_data_port mouse c in
    record {
      command = record { command = c_read_mouse_data_port; in_or_out = r };
      failed = false;
      cursor = record k { device_mode = mouse };
      ctl = c';
    }
run_command c_read_data_port_and_compare b k c =
    let (r, c') = read_data_port_expecting k.device_mode b c in
    record {
      command = record { command = c_read_data_port_and_compare; in_or_out = b };
      failed = not (r == b);
      cursor = k;
      ctl = c';
    }
run_command c_write_data_port b k c = record {
  command = record { command = c_write_data_port; in_or_out = b };
  failed = false;
  cursor =
      if k.transmit_to_mouse
      then record { device_mode = mouse; transmit_to_mouse = false }
      else record k { device_mode = keyboard };
  ctl = write_data_port b c;
}
run_command c_write_command_port b k c = record {
  command = record { command = c_write_command_port; in_or_out = b };
  failed = false;
  cursor = if b == cp_transmit_to_mouse then record k { transmit_to_mouse = true } else k;
  ctl = write_command_port b c;
}
run_command c_send_mouse_command_and_compare_ack b k c =
    let (r, c') =
      read_data_port_expecting mouse sc_acknowledge
        (write_data_port b (write_command_port (mouse_route c) c)) in
    record {
      command = record { command = c_send_mouse_command_and_compare_ack; in_or_out = b };
      failed = not (r == sc_acknowledge);
      cursor = record k { device_mode = mouse };
      ctl = c';
    }

-- The loop over the commands: the commands with what was read into them, the index of the one
-- that failed, and where the loop stands.
pub record Executed : Type 0 where
  pub commands : List Ps2Command
  pub failed_at : Option ℕ
  pub cursor : Cursor
  pub ctl : Controller

-- `n` commands are left from `index` on. No request has more commands than its array holds.
unfoldable pub run_commands : ℕ → ℕ → List Ps2Command → Cursor → Controller → Executed
run_commands zero index cs k c = record { commands = cs; failed_at = none; cursor = k; ctl = c }
run_commands (suc n) index [] k c = record { commands = []; failed_at = none; cursor = k; ctl = c }
run_commands (suc n) index (x ∷ xs) k c =
    let r = run_command x.command x.in_or_out k c in
    elim r.failed [
      | true ↦ record {
        commands = r.command ∷ xs;
        failed_at = some index;
        cursor = r.cursor;
        ctl = r.ctl;
      }
      | false ↦
          let rest = run_commands n (index + 1) xs r.cursor r.ctl in
          record {
            commands = r.command ∷ rest.commands;
            failed_at = rest.failed_at;
            cursor = rest.cursor;
            ctl = rest.ctl;
          }
    ]

abbrev pub start_cursor : Cursor
start_cursor = record { device_mode = keyboard; transmit_to_mouse = false }
