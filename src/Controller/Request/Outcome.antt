-- ===== src/Controller/Request/Outcome.antt =====
-- How the result of a request is read off its `commandsCount`.
use apple_ps2smart_touch_pad.Common.{
  ℕ, zero, suc, ◌+◌, ◌≤◌, ◌<◌, true, List, [], ◌∷◌, ◌≡◌, arith, some,
}
use apple_ps2smart_touch_pad.Controller.State.{Controller}
use apple_ps2smart_touch_pad.Controller.Request.{Request, process_request}
use apple_ps2smart_touch_pad.Controller.Request.Commands.{
  Ps2Command, Cursor, run_command, run_commands,
}

-- The index of a command that failed is that of a command which was due.
pub failed_at_range :
    (n index : ℕ) (cs : List Ps2Command) (k : Cursor) (c : Controller) (i : ℕ)
    → (run_commands n index cs k c).failed_at ≡ some i
    → (index ≤ i) × (i < index + n)
unfolding run_commands
failed_at_range zero index cs k c i h = ground arith
failed_at_range (suc n) index [] k c i h = ground arith
failed_at_range (suc n) index (x ∷ xs) k c i h =
    let r = run_command x.command x.in_or_out k c in
    ground (arith, failed_at_range n (index + 1) xs r.cursor r.ctl i)

-- With the hardware offline a request does no input or output and fails at its first command.
process_request_offline :
    (r : Request) (c : Controller)
    → c.hardware_offline ≡ true
    → ((process_request r c).1 ≡ c) × ((process_request r c).0.commands_count ≡ 0)
unfolding process_request
process_request_offline r c h = ground arith
