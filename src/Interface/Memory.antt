-- ===== src/Interface/Memory.antt =====
-- Which sequences of PS2Interface.cpp use a request after it has been freed, and how often they free.
use apple_ps2smart_touch_pad.Common.{
  ℕ, zero, suc, ◌+◌, ◌≤◌, true, false, [], ◌≡◌, arith, if◌then◌else◌,
}
use apple_ps2smart_touch_pad.Controller.Request.{Request, process_request, submit_request_and_block}
use apple_ps2smart_touch_pad.Interface.{
  get_mouse_information, sliced_bytes, send_sliced_ps2_cmd, send_elantech_cmd, elantech_round,
  elantech_tries, send_elantech_ps2_cmd, send_ps2_cmd, get_status, initialize_mouse, reset_mouse,
  sends,
}
use apple_ps2smart_touch_pad.Interface.Device.{
  Host, Params, success, new_request, fill, submit, free_request, failed,
}

-- A request that is alive stays so through its submission, which is no fault; any request comes
-- back as alive as it was.
pub submit_faults :
    (r : Request) (h : Host)
    → ((submit r h).0.freed ≡ r.freed)
      × ((submit r h).1.memory_faults ≡ (if r.freed then h.memory_faults + 1 else h.memory_faults))
unfolding submit submit_request_and_block process_request
submit_faults r h = ground arith

get_mouse_information_faults :
    (p : Params) (h : Host) → (get_mouse_information p h).2.memory_faults ≡ h.memory_faults
unfolding get_mouse_information free_request
get_mouse_information_faults p h = grind (arith, submit_faults)

send_ps2_cmd_faults : (cmd : ℕ) (h : Host) → (send_ps2_cmd cmd h).1.memory_faults ≡ h.memory_faults
unfolding send_ps2_cmd free_request
send_ps2_cmd_faults cmd h = grind (arith, submit_faults)

get_status_faults : (h : Host) → (get_status h).1.memory_faults ≡ h.memory_faults
unfolding get_status free_request
get_status_faults h = grind (arith, submit_faults)

initialize_mouse_faults :
    (rate res scaling : ℕ) (h : Host)
    → (initialize_mouse rate res scaling h).1.memory_faults ≡ h.memory_faults
unfolding initialize_mouse free_request
initialize_mouse_faults rate res scaling h =
    grind (arith, submit_faults, get_mouse_information_faults, get_status_faults)

reset_mouse_faults : (h : Host) → (reset_mouse h).1.memory_faults ≡ h.memory_faults
unfolding reset_mouse free_request
reset_mouse_faults h = grind (arith, submit_faults)

submit-releases : (r : Request) (h : Host) → (submit r h).1.releases ≡ h.releases
unfolding submit submit_request_and_block
submit-releases r h = ground arith

get_mouse_information-releases :
    (p : Params) (h : Host) → (get_mouse_information p h).2.releases ≡ h.releases + 1
unfolding get_mouse_information free_request
get_mouse_information-releases p h = grind (arith, submit-releases)

get_status-releases : (h : Host) → (get_status h).1.releases ≡ h.releases + 1
unfolding get_status free_request
get_status-releases h = grind (arith, submit-releases)

send_ps2_cmd-releases : (cmd : ℕ) (h : Host) → (send_ps2_cmd cmd h).1.releases ≡ h.releases + 1
unfolding send_ps2_cmd free_request
send_ps2_cmd-releases cmd h = grind (arith, submit-releases)

reset_mouse-releases : (h : Host) → (reset_mouse h).1.releases ≡ h.releases + 1
unfolding reset_mouse free_request
reset_mouse-releases h = grind (arith, submit-releases)

initialize_mouse-releases :
    (rate res scaling : ℕ) (h : Host)
    → let (ret, h') = initialize_mouse rate res scaling h in
      h'.releases ≡ (if failed ret then h.releases + 1 else h.releases + 3)
unfolding initialize_mouse free_request
initialize_mouse-releases rate res scaling h =
    grind (arith, submit-releases, get_mouse_information-releases, get_status-releases)

-- Whatever the device answers, `getMouseInformation`, `sendPS2Cmd`, `getStatus`, `initializeMouse`
-- and `resetMouse` write to, submit and free no request that has been freed before, and each frees
-- the request that it allocates: one call of `freeRequest` each, and three for `initializeMouse` when
-- it succeeds, which then has called `getMouseInformation` and `getStatus`.
pub no_memory_faults :
    (p : Params) (cmd rate res scaling : ℕ) (h : Host)
    → let information = (get_mouse_information p h).2 in
      let sent = (send_ps2_cmd cmd h).1 in
      let status = (get_status h).1 in
      let (ret, initialized) = initialize_mouse rate res scaling h in
      let reset = (reset_mouse h).1 in
      ((information.memory_faults ≡ h.memory_faults) × (information.releases ≡ h.releases + 1))
      × ((sent.memory_faults ≡ h.memory_faults) × (sent.releases ≡ h.releases + 1))
      × ((status.memory_faults ≡ h.memory_faults) × (status.releases ≡ h.releases + 1))
      × ((initialized.memory_faults ≡ h.memory_faults)
          × (initialized.releases ≡ (if failed ret then h.releases + 1 else h.releases + 3)))
      × ((reset.memory_faults ≡ h.memory_faults) × (reset.releases ≡ h.releases + 1))
no_memory_faults p cmd rate res scaling h = (
  (get_mouse_information_faults p h, get_mouse_information-releases p h),
  (send_ps2_cmd_faults cmd h, send_ps2_cmd-releases cmd h),
  (get_status_faults h, get_status-releases h),
  (initialize_mouse_faults rate res scaling h, initialize_mouse-releases rate res scaling h),
  (reset_mouse_faults h, reset_mouse-releases h),
)

-- `sendSlicedPS2Cmd` frees its request twice exactly if it fails.
pub send_sliced_ps2_cmd_faults :
    (cmd : ℕ) (h : Host)
    → (send_sliced_ps2_cmd cmd h).1.memory_faults
      ≡ (if failed (send_sliced_ps2_cmd cmd h).0 then h.memory_faults + 1 else h.memory_faults)
unfolding send_sliced_ps2_cmd free_request
send_sliced_ps2_cmd_faults cmd h =
    ground (arith, submit_faults (new_request (sends (sliced_bytes cmd))) h)

-- `sendElantechCmd` frees its request twice exactly if it fails.
pub send_elantech_cmd_faults :
    (cmd : ℕ) (h : Host)
    → (send_elantech_cmd cmd h).2.memory_faults
      ≡ (if failed (send_elantech_cmd cmd h).0 then h.memory_faults + 1 else h.memory_faults)
unfolding send_elantech_cmd free_request
send_elantech_cmd_faults cmd h = grind (arith, submit_faults)

-- A round frees the request; on one that is freed already its write, its submission and its release
-- are faults.
elantech_round_faults :
    (cmd : ℕ) (r : Request) (h : Host)
    → ((elantech_round cmd r h).1.freed ≡ true)
      × ((elantech_round cmd r h).2.memory_faults
          ≡ (if r.freed then h.memory_faults + 3 else h.memory_faults))
unfolding elantech_round free_request fill
elantech_round_faults cmd r h = grind (arith, submit_faults)

elantech_tries_faults :
    (tries cmd : ℕ) (r : Request) (h : Host)
    → r.freed ≡ true
    → h.memory_faults ≤ (elantech_tries tries cmd r h).1.memory_faults
unfolding elantech_tries
elantech_tries_faults zero cmd r h f = omega arith
elantech_tries_faults (suc tries) cmd r h f =
    let next = elantech_round cmd r h in
    ground (arith, elantech_round_faults cmd r h, elantech_tries_faults tries cmd next.1 next.2)

elantech_tries_again :
    (tries cmd : ℕ) (r : Request) (h : Host)
    → r.freed ≡ true
    → h.memory_faults + 3 ≤ (elantech_tries (suc tries) cmd r h).1.memory_faults
unfolding elantech_tries
elantech_tries_again tries cmd r h f =
    let next = elantech_round cmd r h in
    ground (arith, elantech_round_faults cmd r h, elantech_tries_faults tries cmd next.1 next.2)

elantech_tries-suc :
    (tries cmd : ℕ) (r : Request) (h : Host)
    → let (acknowledged, r', h') = elantech_round cmd r h in
      elantech_tries (suc tries) cmd r h
      ≡ (if acknowledged then (success, h') else elantech_tries tries cmd r' h')
unfolding elantech_tries
elantech_tries-suc tries cmd r h = ground arith

-- `sendElactechPS2Cmd` succeeds without touching freed memory if its command is acknowledged at the
-- first try; if not, it writes to, submits and frees the request that it has freed, so that at least
-- three faults come.
pub send_elantech_ps2_cmd_faults :
    (cmd : ℕ) (h : Host)
    → let first = (elantech_round cmd (new_request []) h).0 in
      (first ≡ true
        → ((send_elantech_ps2_cmd cmd h).0 ≡ success)
          × ((send_elantech_ps2_cmd cmd h).1.memory_faults ≡ h.memory_faults))
      × (first ≡ false → h.memory_faults + 3 ≤ (send_elantech_ps2_cmd cmd h).1.memory_faults)
unfolding send_elantech_ps2_cmd
send_elantech_ps2_cmd_faults cmd h =
    let next = elantech_round cmd (new_request []) h in
    ground (
      arith,
      elantech_tries-suc 2 cmd (new_request []) h,
      elantech_round_faults cmd (new_request []) h,
      elantech_tries_again 1 cmd next.1 next.2,
    )
