-- ===== src/Controller/Escape/Queue.antt =====
-- The queue of keys: its elements are neither lost nor made, and the work loop empties it.
use apple_ps2smart_touch_pad.Common.{
  ℕ, ◌+◌, false, List, [], ◌∷◌, ◌++◌, ◌≡◌, refl, ◌∙◌, arith, length, length-append, ◌==◌,
  if◌then◌else◌, bit_and, bit_or, clear_bits,
}
use mathlib.Core.List.{append-nil}
use apple_ps2smart_touch_pad.Controller.State.{keyboard, mouse, Controller, Delivery}
use apple_ps2smart_touch_pad.Controller.Port.{write_command_port, head_or_zero, rest_of, read_data}
use apple_ps2smart_touch_pad.Controller.Read.Arrivals.{
  seen_by, tagged, deliverable, delivered_twice, dispatch_driver_interrupt_lem,
}
use apple_ps2smart_touch_pad.Controller.Escape.{
  Modifier, modifier_table, enqueue_keyboard_data, release_modifier, release_modifiers, escape_key,
  do_escape, interrupt_handler_keyboard, dispatch_keys, dispatch_mouse, interrupt_occurred,
  sc_extend, sc_up_bit,
}

-- The number of elements on the two queues.
abbrev pub elements : Controller → ℕ
elements c = length c.keyboard_queue + c.keyboard_queue_unused

elements-enqueue_keyboard_data :
    (key : ℕ) (c : Controller) → elements (enqueue_keyboard_data key c) ≡ elements c
unfolding enqueue_keyboard_data
elements-enqueue_keyboard_data key c = ground (arith, length-append c.keyboard_queue (key ∷ []))

elements-release_modifier :
    (x : Modifier) (held : ℕ) (c : Controller) → elements (release_modifier x held c) ≡ elements c
unfolding release_modifier
elements-release_modifier x held c = ground (
  arith,
  elements-enqueue_keyboard_data sc_extend c,
  elements-enqueue_keyboard_data (bit_or x.scancode sc_up_bit) c,
  elements-enqueue_keyboard_data (bit_or x.scancode sc_up_bit) (enqueue_keyboard_data sc_extend c),
)

elements-release_modifiers :
    (xs : List Modifier) (held : ℕ) (c : Controller)
    → elements (release_modifiers xs held c) ≡ elements c
unfolding release_modifiers
elements-release_modifiers [] held c = refl
elements-release_modifiers (x ∷ xs) held c =
    elements-release_modifiers xs held (release_modifier x held c)
    ∙ elements-release_modifier x held c

elements-escape_key : (key : ℕ) (c : Controller) → elements (escape_key key c).1 ≡ elements c
unfolding escape_key write_command_port
elements-escape_key key c = ground (
  arith,
  elements-release_modifiers modifier_table c.modifier_state
      (write_command_port 0xa8 (write_command_port 0xa7 c)),
)

elements-do_escape :
    (scancode : ℕ) (c : Controller) → elements (do_escape scancode c).1 ≡ elements c
unfolding do_escape
elements-do_escape scancode c =
    ground (arith, elements-escape_key (clear_bits scancode sc_up_bit) c)

-- The keyboard interrupt moves elements between the two queues, and neither loses nor makes any.
pub elements-interrupt_handler_keyboard :
    (c : Controller) → elements (interrupt_handler_keyboard c).1 ≡ elements c
unfolding interrupt_handler_keyboard
elements-interrupt_handler_keyboard c =
    let key = head_or_zero c.data_in in
    let c2 : Controller = record c {
      status_in = rest_of c.status_in;
      data_in = rest_of c.data_in;
    } in
    ground (
      arith,
      elements-do_escape key c2,
      elements-enqueue_keyboard_data key c2,
      elements-enqueue_keyboard_data key (do_escape key c2).1,
    )

-- The bytes at the mouse stream as long as each status says that one is there.
unfoldable pub mouse_bytes : List ℕ → List ℕ → List ℕ
mouse_bytes [] bs = []
mouse_bytes (s ∷ ss) bs =
    let more = mouse_bytes ss (rest_of bs) in
    if bit_and s 0x21 == 0x21 then head_or_zero bs ∷ more else []

dispatch_keys_lem :
    (keys : List ℕ) (c : Controller)
    → c.keyboard_queue ≡ keys
    → dispatch_keys keys c ≡ record c {
      keyboard_queue = [];
      keyboard_queue_unused = c.keyboard_queue_unused + length keys;
      delivered = c.delivered ++ seen_by c (tagged keyboard keys);
    }
unfolding dispatch_keys deliverable
dispatch_keys_lem [] c h = ground (arith, append-nil c.delivered)
dispatch_keys_lem (k ∷ keys) c h =
    let x : Delivery = record { target = keyboard; byte = k } in
    let c' : Controller = record c {
      keyboard_queue = keys;
      keyboard_queue_unused = c.keyboard_queue_unused + 1;
    } in
    ground (
      arith,
      dispatch_driver_interrupt_lem keyboard k c',
      dispatch_keys_lem keys (record c' { delivered = c.delivered ++ seen_by c (x ∷ []) }),
      delivered_twice c.interrupt_installed_keyboard c.interrupt_installed_mouse c.delivered
          (x ∷ []) (tagged keyboard keys),
    )

dispatch_mouse_lem :
    (ss : List ℕ) (c : Controller)
    → ((dispatch_mouse ss c).delivered
        ≡ c.delivered ++ seen_by c (tagged mouse (mouse_bytes ss c.data_in)))
      × ((dispatch_mouse ss c).keyboard_queue ≡ c.keyboard_queue)
      × ((dispatch_mouse ss c).keyboard_queue_unused ≡ c.keyboard_queue_unused)
unfolding dispatch_mouse mouse_bytes deliverable read_data
dispatch_mouse_lem [] c = ground (arith, append-nil c.delivered)
dispatch_mouse_lem (s ∷ ss) c =
    let b = head_or_zero c.data_in in
    let c' : Controller = record c { data_in = rest_of c.data_in } in
    let x : Delivery = record { target = mouse; byte = b } in
    ground (
      arith,
      append-nil c.delivered,
      dispatch_driver_interrupt_lem mouse b c',
      dispatch_mouse_lem ss (record c' { delivered = c.delivered ++ seen_by c (x ∷ []) }),
      delivered_twice c.interrupt_installed_keyboard c.interrupt_installed_mouse c.delivered
          (x ∷ []) (tagged mouse (mouse_bytes ss c'.data_in)),
    )

-- With the hardware online the work loop hands every queued key to the keyboard's handler, then the
-- bytes of the mouse stream to the mouse's, in order, and gives all elements of the queue back.
pub interrupt_occurred_lem :
    (c : Controller)
    → c.hardware_offline ≡ false
    → let c' = interrupt_occurred c in
      (c'.delivered
        ≡ (c.delivered ++ seen_by c (tagged keyboard c.keyboard_queue))
          ++ seen_by c (tagged mouse (mouse_bytes c.status_in c.data_in)))
      × (c'.keyboard_queue ≡ [])
      × (c'.keyboard_queue_unused ≡ elements c)
unfolding interrupt_occurred
interrupt_occurred_lem c h =
    let c' : Controller = record c {
      keyboard_queue = [];
      keyboard_queue_unused = c.keyboard_queue_unused + length c.keyboard_queue;
      delivered = c.delivered ++ seen_by c (tagged keyboard c.keyboard_queue);
    } in
    ground (arith, dispatch_keys_lem c.keyboard_queue c refl, dispatch_mouse_lem c.status_in c')
