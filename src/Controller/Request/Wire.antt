-- ===== src/Controller/Request/Wire.antt =====
-- What a request of mouse commands puts on the wire, and the order in which requests are processed.
use apple_ps2smart_touch_pad.Common.{
  ℕ, zero, suc, ◌+◌, ◌-◌, ◌≤◌, Bool, true, false, not, ◌==◌, if◌then◌else◌, List, [], ◌∷◌, ◌++◌,
  ◌≡◌, refl, sym, arith, Bool-cases, Option-cases, inl, inr, none, some, length, Option,
}
use mathlib.Core.List.{append-nil, append_assoc}
use apple_ps2smart_touch_pad.Controller.State.{
  Controller, PortWrite, to_command, to_data, mouse, sc_acknowledge,
}
use apple_ps2smart_touch_pad.Controller.Port.{write_data_port, write_command_port}
use apple_ps2smart_touch_pad.Controller.Read.{read_data_port_expecting}
use apple_ps2smart_touch_pad.Controller.Read.Frame.{read_data_port_expecting-SameDriver}
use apple_ps2smart_touch_pad.Controller.Request.{
  Request, Service, complete, process_request, process_all, process_request_queue, submit_request,
}
use apple_ps2smart_touch_pad.Controller.Request.Outcome.{failed_at_range}
use apple_ps2smart_touch_pad.Controller.Request.Commands.{
  Ps2Command, Cursor, mouse_route, run_command, run_commands, start_cursor,
  c_send_mouse_command_and_compare_ack,
}

-- `kPS2C_SendMouseCommandAndCompareAck` for each byte.
abbrev pub mouse_commands : List ℕ → List Ps2Command
mouse_commands [] = []
mouse_commands (b ∷ bs) =
    record { command = c_send_mouse_command_and_compare_ack; in_or_out = b } ∷ mouse_commands bs

-- Each byte goes to the data port behind the prefix that routes it to the mouse.
abbrev pub wire : ℕ → List ℕ → List PortWrite
wire route [] = []
wire route (b ∷ bs) = to_command route ∷ to_data b ∷ wire route bs

-- The first `n` bytes.
abbrev pub take : ℕ → List ℕ → List ℕ
take zero bs = []
take (suc n) [] = []
take (suc n) (b ∷ bs) = b ∷ take n bs

-- How many of `n` commands from `index` on have been started.
abbrev pub started : ℕ → ℕ → Option ℕ → ℕ
started n index none = n
started n index (some i) = suc (i - index)

-- What the mouse answers to a byte, with the controller after it.
abbrev pub answer : ℕ → Controller → ℕ × Controller
answer b c =
    read_data_port_expecting mouse sc_acknowledge
      (write_data_port b (write_command_port (mouse_route c) c))

-- How many bytes in a row are acknowledged when one is sent after the other.
unfoldable pub acked : List ℕ → Controller → ℕ
acked [] c = 0
acked (b ∷ bs) c = elim ((answer b c).0 == sc_acknowledge) [
  | true ↦ suc (acked bs (answer b c).1)
  | false ↦ 0
]

abbrev stop : ℕ → Option ℕ → ℕ
stop end none = end
stop end (some i) = i

-- A command sent to the mouse fails unless the answer is the acknowledgement.
send_lem :
    (b : ℕ) (k : Cursor) (c : Controller)
    → let r = run_command c_send_mouse_command_and_compare_ack b k c in
      (r.failed ≡ not ((answer b c).0 == sc_acknowledge)) × (r.ctl ≡ (answer b c).1)
unfolding run_command
send_lem b k c = (refl, refl)

take-sub_self : (n : ℕ) (bs : List ℕ) → take (n - n) bs ≡ []
take-sub_self n bs = let e : n - n ≡ 0 = omega arith in rw e

started-suc : (n index i : ℕ) → index + 1 ≤ i → i - index ≡ started n (index + 1) (some i)
started-suc n index i h = omega arith

send_outs :
    (b : ℕ) (k : Cursor) (c : Controller)
    → let r = run_command c_send_mouse_command_and_compare_ack b k c in
      (r.ctl.outs ≡ c.outs ++ wire (mouse_route c) (b ∷ [])) × (mouse_route r.ctl ≡ mouse_route c)
unfolding run_command write_data_port write_command_port mouse_route
send_outs b k c =
    let c' = write_data_port b (write_command_port (mouse_route c) c) in
    ground (
      arith,
      read_data_port_expecting-SameDriver mouse sc_acknowledge c',
      append_assoc c.outs (to_command (mouse_route c) ∷ []) (to_data b ∷ []),
    )

pub mouse_commands-started :
    (bs : List ℕ) (index : ℕ) (k : Cursor) (c : Controller)
    → let x = run_commands (length bs) index (mouse_commands bs) k c in
      x.ctl.outs ≡ c.outs ++ wire (mouse_route c) (take (started (length bs) index x.failed_at) bs)
unfolding run_commands
mouse_commands-started [] index k c = sym (append-nil c.outs)
mouse_commands-started (b ∷ bs) index k c =
    let r = run_command c_send_mouse_command_and_compare_ack b k c in
    let rest = run_commands (length bs) (index + 1) (mouse_commands bs) r.cursor r.ctl in
    let ih = mouse_commands-started bs (index + 1) r.cursor r.ctl in
    let sent = send_outs b k c in
    let tail = wire (mouse_route c) (take (started (length bs) (index + 1) rest.failed_at) bs) in
    let joined = append_assoc c.outs (wire (mouse_route c) (b ∷ [])) tail in
    elim (Bool-cases r.failed) [
      | inl f ↦ ground (arith, sent, take-sub_self index bs)
      | inr g ↦ elim (Option-cases rest.failed_at) [
        | inl p ↦ ground (arith, sent, ih, joined)
        | inr (i, p) ↦ ground (
          arith,
          sent,
          ih,
          joined,
          started-suc (length bs) index i
              (failed_at_range (length bs) (index + 1) (mouse_commands bs) r.cursor r.ctl i p).0,
        )
      ]
    ]

-- A request of mouse commands sends, in order and each behind its prefix, the bytes that are
-- acknowledged and the first one that is not, and none behind it: the byte read for an answer after
-- each one says whether the next one is sent.
pub mouse_commands-outs :
    (bs : List ℕ) (index : ℕ) (k : Cursor) (c : Controller)
    → (run_commands (length bs) index (mouse_commands bs) k c).ctl.outs
      ≡ c.outs ++ wire (mouse_route c) (take (suc (acked bs c)) bs)
unfolding run_commands acked
mouse_commands-outs [] index k c = sym (append-nil c.outs)
mouse_commands-outs (b ∷ bs) index k c =
    let r = run_command c_send_mouse_command_and_compare_ack b k c in
    let sent = send_outs b k c in
    let tail = wire (mouse_route c) (take (suc (acked bs r.ctl)) bs) in
    elim (Bool-cases ((answer b c).0 == sc_acknowledge)) [
      | inl y ↦ ground (
        arith,
        send_lem b k c,
        sent,
        mouse_commands-outs bs (index + 1) r.cursor r.ctl,
        append_assoc c.outs (wire (mouse_route c) (b ∷ [])) tail,
      )
      | inr n ↦ ground (arith, send_lem b k c, sent)
    ]

-- Where the loop over mouse commands stops: behind the last one, or at the first one that is not
-- acknowledged.
run_commands-acked :
    (bs : List ℕ) (index : ℕ) (k : Cursor) (c : Controller)
    → stop (index + length bs) (run_commands (length bs) index (mouse_commands bs) k c).failed_at
      ≡ index + acked bs c
unfolding run_commands acked
run_commands-acked [] index k c = refl
run_commands-acked (b ∷ bs) index k c =
    let r = run_command c_send_mouse_command_and_compare_ack b k c in
    let ih = run_commands-acked bs (index + 1) r.cursor r.ctl in
    elim (Bool-cases ((answer b c).0 == sc_acknowledge)) [
      | inl y ↦ ground (arith, send_lem b k c, ih)
      | inr n ↦ ground (arith, send_lem b k c)
    ]

-- A client that sends bytes to the mouse finds in `commandsCount` how many of them were acknowledged
-- before the first that was not, and 0 if the hardware was offline: with the hardware online, its
-- count comes back unchanged exactly if each byte was acknowledged.
pub process_request-acked :
    (bs : List ℕ) (has_completion freed : Bool) (c : Controller)
    → let r : Request = record {
      commands_count = length bs;
      commands = mouse_commands bs;
      has_completion = has_completion;
      freed = freed;
    } in
      (process_request r c).0.commands_count ≡ (if c.hardware_offline then 0 else acked bs c)
unfolding process_request complete
process_request-acked bs has_completion freed c =
    let x = run_commands (length bs) 0 (mouse_commands bs) start_cursor c in
    let stopped = run_commands-acked bs 0 start_cursor c in
    elim (Option-cases x.failed_at) [
      | inl p ↦ ground (arith, stopped)
      | inr (i, p) ↦ ground (arith, stopped)
    ]

process_all-append :
    (rs : List Request) (r : Request) (s : Service)
    → process_all (rs ++ (r ∷ [])) s ≡ process_all (r ∷ []) (process_all rs s)
unfolding process_all
process_all-append [] r s = refl
process_all-append (q ∷ rs) r s =
    let (q', c) = process_request q s.ctl in
    process_all-append rs r (record s { ctl = c; completed = s.completed ++ (q' ∷ []) })

-- A request that is submitted is processed behind all those that wait: running the queue with it is
-- running the queue without it, then processing it.
pub process_request_queue-submit_request :
    (r : Request) (s : Service)
    → let s' = process_request_queue s in
      let (r', c) = process_request r s'.ctl in
      process_request_queue (submit_request r s)
      ≡ record s' { ctl = c; completed = s'.completed ++ (r' ∷ []) }
unfolding process_request_queue submit_request process_all
process_request_queue-submit_request r s =
    process_all-append s.request_queue r (record s { request_queue = []; queue_signalled = false })
