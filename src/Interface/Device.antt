-- ===== src/Interface/Device.antt =====
-- What PS2Interface.cpp works on: the controller behind the mouse nub (ApplePS2MouseDevice.cpp passes
-- each call on), and the requests in memory.
--
-- `memory_faults` counts the uses of a request that is freed already: a write to it, its
-- submission, its release. Reads of it are not counted. The run goes on as if the memory still held
-- what it held. `releases` counts the calls of `freeRequest`, so that it tells whether each request
-- that a sequence allocates is freed.
use apple_ps2smart_touch_pad.Common.{ℕ, ◌+◌, Bool, true, false, List, if◌then◌else◌, length, get_or}
use apple_ps2smart_touch_pad.Controller.Request.{Request, Service, submit_request_and_block}
use apple_ps2smart_touch_pad.Controller.Request.Commands.{Ps2Command, c_read_data_port}

-- `IOReturn`, as far as the drivers tell its values apart: `kIOReturnSuccess`, `kIOReturnError`,
-- `kIOReturnIOError`, `kIOReturnNoMemory`, `kIOReturnNoDevice`.
pub data IoReturn : Type 0 where
  success error io_error no_memory no_device : IoReturn

-- An `IOReturn` as a condition.
abbrev pub failed : IoReturn → Bool
failed success = false
failed _ = true

-- `UInt8 param[3]`.
pub record Params : Type 0 where
  pub p0 : ℕ
  pub p1 : ℕ
  pub p2 : ℕ

pub record Host : Type 0 where
  pub service : Service
  pub memory_faults : ℕ
  pub releases : ℕ

abbrev pub fault_if : Bool → Host → Host
fault_if b h = if b then record h { memory_faults = h.memory_faults + 1 } else h

-- `allocateRequest`, with the first commands filled in and `commandsCount` their number.
abbrev pub new_request : List Ps2Command → Request
new_request cs = record {
  commands_count = length cs;
  commands = cs;
  has_completion = false;
  freed = false;
}

-- The commands of a request that is there already are written anew.
unfoldable pub fill : List Ps2Command → Request → Host → Request × Host
fill cs r h = (record r { commands_count = length cs; commands = cs }, fault_if r.freed h)

-- `submitRequestAndBlock`. The command gate is closed around the action, so the work loop's
-- `inGate` holds in it.
unfoldable pub submit : Request → Host → Request × Host
submit r h =
    let h1 = fault_if r.freed h in
    let (r', s) = submit_request_and_block true r h1.service in (r', record h1 { service = s })

-- `freeRequest`.
unfoldable pub free_request : Request → Host → Request × Host
free_request r h =
    let h1 = fault_if r.freed h in
    (record r { freed = true }, record h1 { releases = h1.releases + 1 })

abbrev no_command : Ps2Command
no_command = record { command = c_read_data_port; in_or_out = 0 }

-- `request->commands[i].inOrOut`.
abbrev pub answer_at : Request → ℕ → ℕ
answer_at r i = (get_or r.commands i no_command).in_or_out
