-- ===== src/Tests/Reads.antt =====
-- `readDataPort` and the keyboard interrupt.
use apple_ps2smart_touch_pad.Common.{ℕ, [], ◌∷◌, ◌≡◌, refl, arith, has}
use apple_ps2smart_touch_pad.Controller.State.{keyboard, mouse, Controller, Delivery}
use apple_ps2smart_touch_pad.Controller.Port.{output_ready, stream_of}
use apple_ps2smart_touch_pad.Controller.Read.{read_data_port, read_data_port_expecting}
use apple_ps2smart_touch_pad.Controller.Read.Arrivals.{arrivals, deliverable}
use apple_ps2smart_touch_pad.Controller.Read.Reorder.{first_own}
use apple_ps2smart_touch_pad.Controller.Read.Recovery.{
  read_data_port_first, read_data_port_expecting-match, read_data_port_expecting_gives_up,
  read_data_port_expecting_times_out,
}
use apple_ps2smart_touch_pad.Controller.Escape.{interrupt_handler_keyboard, interrupt_occurred}
use apple_ps2smart_touch_pad.Controller.Escape.Queue.{
  elements, elements-interrupt_handler_keyboard, interrupt_occurred_lem,
}
use apple_ps2smart_touch_pad.Tests.Inputs.{controller}

abbrev from_mouse : ℕ → Delivery
from_mouse b = record { target = mouse; byte = b }

abbrev from_keyboard : ℕ → Delivery
from_keyboard b = record { target = keyboard; byte = b }

-- Two bytes of a mouse packet and a key before the acknowledgement.
abbrev acknowledged : Controller
acknowledged = controller (0x21 ∷ 0x01 ∷ 0x21 ∷ 0x21 ∷ []) (0x08 ∷ 0x1e ∷ 0x05 ∷ 0xfa ∷ [])

abbrev drowned : Controller
drowned = controller (0x21 ∷ 0x21 ∷ 0x21 ∷ 0x21 ∷ []) (0x08 ∷ 0x01 ∷ 0x02 ∷ 0x03 ∷ [])

abbrev silent : Controller
silent = controller (0x21 ∷ 0x01 ∷ []) (0x08 ∷ 0x1e ∷ [])

read_data_port_first_example : (read_data_port keyboard acknowledged).0 ≡ 0x1e
unfolding first_own arrivals output_ready stream_of has
read_data_port_first_example = (read_data_port_first keyboard acknowledged).0

read_data_port_expecting-match_example :
    (read_data_port_expecting mouse 0xfa acknowledged).1.delivered
    ≡ from_keyboard 0x1e ∷ from_mouse 0x08 ∷ from_mouse 0x05 ∷ []
unfolding arrivals output_ready stream_of has deliverable
read_data_port_expecting-match_example =
    (read_data_port_expecting-match mouse 0xfa acknowledged
      (from_mouse 0x08 ∷ from_keyboard 0x1e ∷ from_mouse 0x05 ∷ []) (from_mouse 0xfa) [] refl refl
      refl (omega arith, (omega arith, tt)) (omega arith)).1

read_data_port_expecting_gives_up_example :
    (read_data_port_expecting mouse 0xfa drowned).1.delivered ≡ from_mouse 0x03 ∷ []
unfolding arrivals output_ready stream_of has deliverable
read_data_port_expecting_gives_up_example =
    (read_data_port_expecting_gives_up mouse 0xfa drowned
      (from_mouse 0x08 ∷ from_mouse 0x01 ∷ from_mouse 0x02 ∷ []) (from_mouse 0x03) [] refl refl
      (omega arith) (omega arith, (omega arith, (omega arith, tt))) refl).1

read_data_port_expecting_times_out_example :
    (read_data_port_expecting mouse 0xfa silent).1.delivered ≡ from_keyboard 0x1e ∷ []
unfolding arrivals output_ready stream_of has deliverable
read_data_port_expecting_times_out_example =
    (read_data_port_expecting_times_out mouse 0xfa silent (omega arith, tt) (omega arith)).1

elements-interrupt_handler_keyboard_example :
    elements (interrupt_handler_keyboard (controller (0x01 ∷ []) (0x1e ∷ []))).1 ≡ 32
elements-interrupt_handler_keyboard_example =
    elements-interrupt_handler_keyboard (controller (0x01 ∷ []) (0x1e ∷ []))

abbrev queued : Controller
queued = record (controller (0x21 ∷ []) (0x08 ∷ [])) {
  keyboard_queue = 0x1e ∷ 0x9e ∷ [];
  keyboard_queue_unused = 30;
}

interrupt_occurred_lem_example : (interrupt_occurred queued).keyboard_queue_unused ≡ 32
interrupt_occurred_lem_example = (interrupt_occurred_lem queued refl).2

-- Both Alt keys are down.
abbrev alt_held : Controller
alt_held = record (controller [] []) { modifier_state = 0x30 }
