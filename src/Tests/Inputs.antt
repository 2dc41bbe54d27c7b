-- ===== src/Tests/Inputs.antt =====
-- The controllers and scripts of the runs.
use apple_ps2smart_touch_pad.Common.{ℕ, zero, suc, true, false, List, [], ◌∷◌}
use apple_ps2smart_touch_pad.Controller.State.{Controller, normal}
use apple_ps2smart_touch_pad.Interface.Device.{Host, Params}

-- An online controller with both clients installed.
abbrev pub controller : List ℕ → List ℕ → Controller
controller statuses bytes = record {
  status_in = statuses;
  data_in = bytes;
  outs = [];
  delivered = [];
  notified = [];
  interrupt_installed_keyboard = true;
  interrupt_installed_mouse = true;
  power_installed_keyboard = true;
  power_installed_mouse = true;
  keyboard_queue = [];
  keyboard_queue_unused = 32;
  extended_state = false;
  modifier_state = 0;
  debugging_enabled = false;
  current_power_state = normal;
  hardware_offline = false;
  uses_mux_mode = false;
  mux_route_prefix = 0;
}

abbrev pub host_of : Controller → Host
host_of c = record {
  service = record { ctl = c; request_queue = []; queue_signalled = false; completed = [] };
  memory_faults = 0;
  releases = 0;
}

-- The statuses for `n` mouse commands, each with room for two writes and an answer.
abbrev pub commands : ℕ → List ℕ
commands zero = []
commands (suc n) = 0 ∷ 0 ∷ 0x21 ∷ commands n

-- The statuses for `n` bytes of the mouse.
abbrev pub answers : ℕ → List ℕ
answers zero = []
answers (suc n) = 0x21 ∷ answers n

abbrev pub acks : ℕ → List ℕ
acks zero = []
acks (suc n) = 0xfa ∷ acks n

abbrev pub params : ℕ → ℕ → ℕ → Params
params a b c = record { p0 = a; p1 = b; p2 = c }
