-- ===== src/Controller/Port.antt =====
-- The port primitives of ApplePS2Controller.cpp, and the delivery of a byte to a client.
use apple_ps2smart_touch_pad.Common.{ℕ, Bool, true, false, List, [], ◌∷◌, ◌++◌, if◌then◌else◌, has}
use apple_ps2smart_touch_pad.Controller.State.{
  DeviceType, keyboard, mouse, Controller, to_command, to_data, output_ready_bit, input_busy_bit,
  mouse_data_bit,
}

-- The tests of a status byte.
unfoldable pub output_ready : ℕ → Bool
output_ready s = has s output_ready_bit

unfoldable pub input_busy : ℕ → Bool
input_busy s = has s input_busy_bit

-- The stream that the byte behind a status belongs to.
unfoldable pub stream_of : ℕ → DeviceType
stream_of s = if has s mouse_data_bit then mouse else keyboard

abbrev pub other_device : DeviceType → DeviceType
other_device keyboard = mouse
other_device mouse = keyboard

abbrev pub same_device : DeviceType → DeviceType → Bool
same_device keyboard keyboard = true
same_device mouse mouse = true
same_device _ _ = false

abbrev pub head_or_zero : List ℕ → ℕ
head_or_zero [] = 0
head_or_zero (b ∷ bs) = b

abbrev pub rest_of : List ℕ → List ℕ
rest_of [] = []
rest_of (b ∷ bs) = bs

-- `inb(kDataPort)`.
unfoldable pub read_data : Controller → ℕ × Controller
read_data c = (head_or_zero c.data_in, record c { data_in = rest_of c.data_in })

-- `while (inb(kCommandPort) & kInputBusy) IODelay(kDataDelay);`: what is left of the statuses.
unfoldable pub wait_input : List ℕ → List ℕ
wait_input [] = []
wait_input (s ∷ ss) = if input_busy s then wait_input ss else ss

unfoldable pub write_data_port : ℕ → Controller → Controller
write_data_port b c = record c {
  status_in = wait_input c.status_in;
  outs = c.outs ++ (to_data b ∷ []);
}

unfoldable pub write_command_port : ℕ → Controller → Controller
write_command_port b c = record c {
  status_in = wait_input c.status_in;
  outs = c.outs ++ (to_command b ∷ []);
}

-- `while (inb(kCommandPort) & kOutputReady) inb(kDataPort);`
unfoldable pub drain : List ℕ → Controller → Controller
drain [] c = record c { status_in = [] }
drain (s ∷ ss) c =
    let more = drain ss (record c { data_in = rest_of c.data_in }) in
    if output_ready s then more else record c { status_in = ss }

unfoldable pub clear_input_streams : Controller → Controller
unfolding drain
clear_input_streams c = drain c.status_in c

unfoldable pub interrupt_installed : DeviceType → Controller → Bool
interrupt_installed keyboard c = c.interrupt_installed_keyboard
interrupt_installed mouse c = c.interrupt_installed_mouse

-- A byte goes to the client's handler if one is installed, and is thrown away otherwise.
unfoldable pub dispatch_driver_interrupt : DeviceType → ℕ → Controller → Controller
unfolding interrupt_installed
dispatch_driver_interrupt d b c =
    if interrupt_installed d c
    then record c { delivered = c.delivered ++ (record { target = d; byte = b } ∷ []) }
    else c
