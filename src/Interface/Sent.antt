-- ===== src/Interface/Sent.antt =====
-- What requests leave in the log of writes to the ports, one behind the other.
use apple_ps2smart_touch_pad.Common.{
  ℕ, zero, suc, ◌+◌, List, [], ◌∷◌, ◌++◌, ◌≡◌, refl, sym, subst, arith, Bool-cases, inl, inr,
}
use mathlib.Core.List.{append-nil, append_assoc}
use apple_ps2smart_touch_pad.Controller.State.{
  Controller, PortWrite, mouse, sc_acknowledge, to_command, to_data,
}
use apple_ps2smart_touch_pad.Controller.Port.{write_data_port, write_command_port}
use apple_ps2smart_touch_pad.Controller.Read.Frame.{
  read_data_port-SameDriver, read_data_port_expecting-SameDriver,
}
use apple_ps2smart_touch_pad.Controller.Request.Commands.{
  Ps2Command, CommandKind, Cursor, run_command, run_commands, mouse_route, c_read_data_port,
  c_read_mouse_data_port, c_read_data_port_and_compare, c_write_data_port, c_write_command_port,
  c_send_mouse_command_and_compare_ack,
}

-- The controller is as it was but for its reads and for what has been written to the ports.
pub record Grows (c c' : Controller) : Type 0 where
  pub sent : (bs : List PortWrite) × (c'.outs ≡ c.outs ++ bs)
  pub route : mouse_route c' ≡ mouse_route c
  pub offline : c'.hardware_offline ≡ c.hardware_offline

pub Grows-refl : (c : Controller) → Grows c c
Grows-refl c = record { sent = ([], sym (append-nil c.outs)); route = refl; offline = refl }

pub Grows-trans : (a b c : Controller) → Grows a b → Grows b c → Grows a c
Grows-trans a b c g h = record {
  sent = (
    g.sent.0 ++ h.sent.0,
    ground (arith, g.sent.1, h.sent.1, append_assoc a.outs g.sent.0 h.sent.0),
  );
  route = ground (arith, g.route, h.route);
  offline = ground (arith, g.offline, h.offline);
}

run_command-Grows :
    (x : CommandKind) (b : ℕ) (k : Cursor) (c : Controller) → Grows c (run_command x b k c).ctl
unfolding run_command write_data_port write_command_port mouse_route
run_command-Grows c_read_data_port b k c =
    let s = read_data_port-SameDriver k.device_mode c in
    record {
      sent = ([], ground (arith, s, append-nil c.outs));
      route = ground (arith, s);
      offline = s.offline;
    }
run_command-Grows c_read_mouse_data_port b k c =
    let s = read_data_port-SameDriver mouse c in
    record {
      sent = ([], ground (arith, s, append-nil c.outs));
      route = ground (arith, s);
      offline = s.offline;
    }
run_command-Grows c_read_data_port_and_compare b k c =
    let s = read_data_port_expecting-SameDriver k.device_mode b c in
    record {
      sent = ([], ground (arith, s, append-nil c.outs));
      route = ground (arith, s);
      offline = s.offline;
    }
run_command-Grows c_write_data_port b k c = record {
  sent = (to_data b ∷ [], ground arith);
  route = ground arith;
  offline = ground arith;
}
run_command-Grows c_write_command_port b k c = record {
  sent = (to_command b ∷ [], ground arith);
  route = ground arith;
  offline = ground arith;
}
run_command-Grows c_send_mouse_command_and_compare_ack b k c =
    let r = mouse_route c in
    let s =
      read_data_port_expecting-SameDriver mouse sc_acknowledge
        (write_data_port b (write_command_port r c)) in
    record {
      sent = (
        to_command r ∷ to_data b ∷ [],
        ground (arith, s, append_assoc c.outs (to_command r ∷ []) (to_data b ∷ [])),
      );
      route = ground (arith, s);
      offline = ground (arith, s);
    }

pub run_commands-Grows :
    (n index : ℕ) (cs : List Ps2Command) (k : Cursor) (c : Controller)
    → Grows c (run_commands n index cs k c).ctl
unfolding run_commands
run_commands-Grows zero index cs k c = Grows-refl c
run_commands-Grows (suc n) index [] k c = Grows-refl c
run_commands-Grows (suc n) index (x ∷ xs) k c =
    let r = run_command x.command x.in_or_out k c in
    let one = run_command-Grows x.command x.in_or_out k c in
    let rest = run_commands n (index + 1) xs r.cursor r.ctl in
    let ih = run_commands-Grows n (index + 1) xs r.cursor r.ctl in
    elim (Bool-cases r.failed) [
      | inl f ↦ subst (Grows c) (ground (arith, f)) one
      | inr f ↦ subst (Grows c) (ground (arith, f)) (Grows-trans c r.ctl rest.ctl one ih)
    ]
