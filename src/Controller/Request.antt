-- ===== src/Controller/Request.antt =====
-- PS/2 requests (`PS2Command`, `PS2Request` of ApplePS2Device.h) and their processing by
-- ApplePS2Controller.cpp: `processRequest`, the request queue and `submitRequest`.
--
-- A request is a value that is handed on and comes back as it stands after the call; `freed` says
-- whether its memory has been given back. The clients of this repository give no completion
-- routine of their own, so a completion is the controller's, which does nothing.
pub mod Commands
pub mod Outcome
pub mod Transmit
pub mod Wire
use apple_ps2smart_touch_pad.Common.{
  ℕ, Bool, true, false, List, [], ◌∷◌, ◌++◌, none, some, if◌then◌else◌,
}
use apple_ps2smart_touch_pad.Controller.State.{Controller}
use Commands.{Ps2Command, run_commands, start_cursor}

-- `PS2Request`.
pub record Request : Type 0 where
  pub commands_count : ℕ
  pub commands : List Ps2Command
  pub has_completion : Bool
  pub freed : Bool

-- The controller with its request queue; `queue_signalled` says that the work loop has been asked to
-- run `processRequestQueue`, and `completed` holds the requests done, oldest first.
pub record Service : Type 0 where
  pub ctl : Controller
  pub request_queue : List Request
  pub queue_signalled : Bool
  pub completed : List Request

-- The completion routine is called, or else the request is freed.
unfoldable pub complete : Request → Request
complete r = if r.has_completion then r else record r { freed = true }

unfoldable pub process_request : Request → Controller → Request × Controller
unfolding complete
process_request r c =
    if c.hardware_offline
    then (complete (record r { commands_count = 0 }), c)
    else let x = run_commands r.commands_count 0 r.commands start_cursor c in
      let count : ℕ = elim x.failed_at [ none ↦ r.commands_count | some index ↦ index ] in
      (complete (record r { commands_count = count; commands = x.commands }), x.ctl)

-- The loop of `processRequestQueue` over the local queue.
unfoldable pub process_all : List Request → Service → Service
unfolding process_request
process_all [] s = s
process_all (r ∷ rs) s =
    let (r', c) = process_request r s.ctl in
    process_all rs (record s { ctl = c; completed = s.completed ++ (r' ∷ []) })

unfoldable pub process_request_queue : Service → Service
unfolding process_all
process_request_queue s =
    process_all s.request_queue (record s { request_queue = []; queue_signalled = false })

unfoldable pub submit_request : Request → Service → Service
submit_request r s = record s {
  request_queue = s.request_queue ++ (r ∷ []);
  queue_signalled = true;
}

-- `submitRequestAndBlockGated`: the request as the caller finds it on return. `in_gate` is the
-- answer of `_workLoop->inGate()`.
unfoldable pub submit_request_and_block : Bool → Request → Service → Request × Service
unfolding process_request_queue process_request submit_request
submit_request_and_block in_gate r s =
    let r' : Request = record r { has_completion = true } in
    if in_gate
    then (let s' = process_request_queue s in
        let (done, c) = process_request r' s'.ctl in (done, record s' { ctl = c }))
    else (r', submit_request r' s)
