-- ===== src/Interface/Submitted.antt =====
-- What a request that is submitted leaves in the log: with an idle controller, and when it goes well.
use apple_ps2smart_touch_pad.Common.{
  ℕ, suc, true, false, List, [], ◌∷◌, ◌++◌, ◌≡◌, refl, sym, subst, ap, ◌∙◌, arith, Bool-cases, inl,
  inr, length,
}
use apple_ps2smart_touch_pad.Controller.State.{Controller, PortWrite}
use apple_ps2smart_touch_pad.Controller.Request.{
  Request, Service, process_request, process_request_queue, process_all, submit_request_and_block,
}
use apple_ps2smart_touch_pad.Controller.Request.Commands.{start_cursor, mouse_route}
use apple_ps2smart_touch_pad.Controller.Request.Wire.{mouse_commands, wire}
use apple_ps2smart_touch_pad.Interface.Device.{Host, new_request, submit}
use apple_ps2smart_touch_pad.Interface.Sent.{Grows, Grows-refl, run_commands-Grows}
use apple_ps2smart_touch_pad.Interface.Slices.{
  IsIdle, process_request-mouse_commands, length-mouse_commands,
}

abbrev pub port : Host → Controller
port h = h.service.ctl

process_request-Grows : (r : Request) (c : Controller) → Grows c (process_request r c).1
unfolding process_request
process_request-Grows r c = elim (Bool-cases c.hardware_offline) [
  | inl on ↦ ground (arith, Grows-refl c)
  | inr off ↦ ground (arith, run_commands-Grows r.commands_count 0 r.commands start_cursor c)
]

process_all-queue :
    (rs : List Request) (s : Service) → (process_all rs s).request_queue ≡ s.request_queue
unfolding process_all
process_all-queue [] s = refl
process_all-queue (r ∷ rs) s =
    let (r', c) = process_request r s.ctl in
    process_all-queue rs (record s { ctl = c; completed = s.completed ++ (r' ∷ []) })

submit_lem :
    (r : Request) (h : Host)
    → let s = process_request_queue h.service in
      let (r', c) = process_request (record r { has_completion = true }) s.ctl in
      ((submit r h).1.service.request_queue ≡ [])
      × ((submit r h).1.service.ctl ≡ c)
      × ((submit r h).0 ≡ r')
unfolding submit submit_request_and_block process_request_queue
submit_lem r h = ground (
  arith,
  process_all-queue h.service.request_queue
      (record h.service { request_queue = []; queue_signalled = false }),
)

-- With an idle controller a request adds to the log and leaves the controller idle.
pub submit-IsIdle :
    (r : Request) (h : Host)
    → IsIdle h
    → IsIdle (submit r h).1 × Grows (port h) (port (submit r h).1)
unfolding process_request_queue process_all
submit-IsIdle r h v =
    let s = process_request_queue h.service in
    let q : Request = record r { has_completion = true } in
    let same : s.ctl ≡ port h = ground (arith, v) in
    let g = process_request-Grows q (port h) in
    let l = submit_lem r h in
    let end : port (submit r h).1 ≡ (process_request q (port h)).1 = ground (arith, l, same) in
    (
      record { online = ground (arith, end, g, v); no_queue = l.0 },
      subst (Grows (port h)) (sym end) g,
    )

process_request_online :
    (r : Request) (c : Controller) (n : ℕ)
    → (process_request r c).0.commands_count ≡ suc n
    → c.hardware_offline ≡ false
unfolding process_request
process_request_online r c n e = ground arith

-- A request of mouse commands, of which none failed, has just sent its bytes.
pub submit_sends :
    (n : ℕ) (bs : List ℕ) (h : Host)
    → length bs ≡ suc n
    → (submit (new_request (mouse_commands bs)) h).0.commands_count ≡ length bs
    → let h1 = (submit (new_request (mouse_commands bs)) h).1 in
      IsIdle h1
      × ((before : List PortWrite) × ((port h1).outs ≡ before ++ wire (mouse_route (port h1)) bs))
submit_sends n bs h some_bytes e =
    let s = process_request_queue h.service in
    let q : Request = record {
      commands_count = length (mouse_commands bs);
      commands = mouse_commands bs;
      has_completion = true;
      freed = false;
    } in
    let l = submit_lem (new_request (mouse_commands bs)) h in
    let g = process_request-Grows q s.ctl in
    let same = length-mouse_commands bs in
    let count : (process_request q s.ctl).0.commands_count ≡ length bs =
      sym (ap (λ (r : Request). r.commands_count) l.2) ∙ e in
    let on = process_request_online q s.ctl n (count ∙ some_bytes) in
    let sent =
      process_request-mouse_commands bs (length (mouse_commands bs)) s.ctl same on
        (count ∙ sym same) in
    let end : port (submit (new_request (mouse_commands bs)) h).1 ≡ (process_request q s.ctl).1 =
      l.1 in
    let route = ap mouse_route end ∙ g.route in
    (
      record {
        online = ap (λ (c : Controller). c.hardware_offline) end ∙ g.offline ∙ on;
        no_queue = l.0;
      },
      (
        s.ctl.outs,
        ap (λ (c : Controller). c.outs) end
            ∙ sent
            ∙ ap (λ route. s.ctl.outs ++ wire route bs) (sym route),
      ),
    )
