-- ===== src/Interface/Slices.antt =====
-- The sliced commands: how a byte is cut up, and what goes over the wire.
use apple_ps2smart_touch_pad.Common.{
  ℕ, ◌+◌, ◌*◌, ◌<◌, true, false, List, [], ◌∷◌, ◌++◌, ◌≡◌, refl, arith, if◌then◌else◌, length, ◌==◌,
  Option-cases, inl, inr,
}
use apple_ps2smart_touch_pad.Controller.State.{Controller}
use apple_ps2smart_touch_pad.Controller.Request.{
  Request, Service, process_request, process_request_queue, process_all, submit_request_and_block,
}
use apple_ps2smart_touch_pad.Controller.Request.Commands.{run_commands, start_cursor, mouse_route}
use apple_ps2smart_touch_pad.Controller.Request.Outcome.{failed_at_range}
use apple_ps2smart_touch_pad.Controller.Request.Wire.{
  mouse_commands, wire, take, mouse_commands-started,
}
use apple_ps2smart_touch_pad.Interface.{sliced_bytes, send_sliced_ps2_cmd, dp_set_mouse_resolution}
use apple_ps2smart_touch_pad.Interface.Device.{Host, success, new_request, submit, free_request}

-- The command that a touchpad reads off the bytes: `(rr*64)+(ss*16)+(tt*4)+uu` of the resolutions.
unfoldable pub resolutions : List ℕ → List ℕ
resolutions [] = []
resolutions (b ∷ []) = []
resolutions (b ∷ d ∷ bs) =
    if b == dp_set_mouse_resolution then d ∷ resolutions bs else resolutions (d ∷ bs)

unfoldable pub unsliced : ℕ → List ℕ → ℕ
unsliced acc [] = acc
unsliced acc (d ∷ ds) = unsliced (acc * 4 + d) ds

-- A touchpad that reads the four resolutions of a sliced command gets back the byte that was sent,
-- and each of them fits in two bits.
pub unsliced-sliced_bytes :
    (cmd : ℕ) → cmd < 256 → unsliced 0 (resolutions (sliced_bytes cmd)) ≡ cmd
unfolding unsliced resolutions sliced_bytes
unsliced-sliced_bytes cmd h = omega arith

-- The controller is online and no request waits.
pub record IsIdle (h : Host) : Type 0 where
  pub online : h.service.ctl.hardware_offline ≡ false
  pub no_queue : h.service.request_queue ≡ []

process_request_queue-nil :
    (s : Service) → s.request_queue ≡ [] → (process_request_queue s).ctl ≡ s.ctl
unfolding process_request_queue process_all
process_request_queue-nil s h = ground arith

pub length-mouse_commands : (bs : List ℕ) → length (mouse_commands bs) ≡ length bs
length-mouse_commands [] = refl
length-mouse_commands (b ∷ bs) = omega (arith, length-mouse_commands bs)

take-length : (bs : List ℕ) → take (length bs) bs ≡ bs
take-length [] = refl
take-length (b ∷ bs) = rw (take-length bs)

-- A request of mouse commands, none of which failed.
pub process_request-mouse_commands :
    (bs : List ℕ) (n : ℕ) (c : Controller)
    → n ≡ length bs
    → let r : Request = record {
      commands_count = n;
      commands = mouse_commands bs;
      has_completion = true;
      freed = false;
    } in
      c.hardware_offline ≡ false
      → (process_request r c).0.commands_count ≡ n
      → (process_request r c).1.outs ≡ c.outs ++ wire (mouse_route c) bs
unfolding process_request
process_request-mouse_commands bs n c l h e =
    let x = run_commands n 0 (mouse_commands bs) start_cursor c in
    elim (Option-cases x.failed_at) [
      | inl p ↦ ground (arith, mouse_commands-started bs 0 start_cursor c, take-length bs)
      | inr (i, p) ↦ ground (arith, failed_at_range n 0 (mouse_commands bs) start_cursor c i p)
    ]

-- When the controller is idle, a request of mouse commands that succeeds has sent all its bytes.
pub submit-mouse_commands :
    (bs : List ℕ) (h : Host)
    → IsIdle h
    → let (r, h') = submit (new_request (mouse_commands bs)) h in
      r.commands_count ≡ length bs
      → h'.service.ctl.outs ≡ h.service.ctl.outs ++ wire (mouse_route h.service.ctl) bs
unfolding submit submit_request_and_block
submit-mouse_commands bs h v e = ground (
  arith,
  process_request_queue-nil h.service v.no_queue,
  process_request-mouse_commands bs (length (mouse_commands bs)) h.service.ctl
      (length-mouse_commands bs) v.online,
  length-mouse_commands bs,
)

-- On an idle controller a sliced command that returns success has sent its nine bytes, in order and
-- each behind the prefix that routes it to the mouse.
pub send_sliced_ps2_cmd-outs :
    (cmd : ℕ) (h : Host)
    → IsIdle h
    → (send_sliced_ps2_cmd cmd h).0 ≡ success
    → (send_sliced_ps2_cmd cmd h).1.service.ctl.outs
      ≡ h.service.ctl.outs ++ wire (mouse_route h.service.ctl) (sliced_bytes cmd)
unfolding send_sliced_ps2_cmd free_request sliced_bytes
send_sliced_ps2_cmd-outs cmd h v e = ground (arith, submit-mouse_commands (sliced_bytes cmd) h v)
