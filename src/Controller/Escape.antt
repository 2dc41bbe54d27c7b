-- ===== src/Controller/Escape.antt =====
-- The keyboard at interrupt time: `doEscape`, the queue of keys, `interruptHandlerKeyboard`, and the
-- work loop's `interruptOccurred`, in ApplePS2Controller.cpp.
pub mod Queue
pub mod Modifiers
use apple_ps2smart_touch_pad.Common.{
  ℕ, ◌+◌, ◌-◌, Bool, true, false, List, [], ◌∷◌, ◌++◌, ◌==◌, ◌&&◌, Option, none, some,
  if◌then◌else◌, has, clear_bits, bit_and, bit_or, not,
}
use apple_ps2smart_touch_pad.Controller.State.{
  DeviceType, keyboard, mouse, Controller, output_ready_bit, mouse_data_bit,
}
use apple_ps2smart_touch_pad.Controller.Port.{
  output_ready, read_data, write_command_port, dispatch_driver_interrupt, head_or_zero, rest_of,
}

abbrev pub sc_extend : ℕ
sc_extend = 0xe0

abbrev pub sc_up_bit : ℕ
sc_up_bit = 0x80

abbrev pub sc_delete : ℕ
sc_delete = 0x53

abbrev pub modifier_alt_left : ℕ
modifier_alt_left = 0x10

abbrev pub modifier_alt_right : ℕ
modifier_alt_right = 0x20

-- A row of `modifierTable`.
pub record Modifier : Type 0 where
  pub scancode : ℕ
  pub extended : Bool
  pub modifier : ℕ

-- The rows above the one that ends the table.
abbrev pub modifier_table : List Modifier
modifier_table =
    record { scancode = 0x38; extended = false; modifier = modifier_alt_left }
    ∷ record { scancode = 0x38; extended = true; modifier = modifier_alt_right }
    ∷ record { scancode = 0x1d; extended = false; modifier = 0x04 }
    ∷ record { scancode = 0x1d; extended = true; modifier = 0x08 }
    ∷ record { scancode = 0x2a; extended = false; modifier = 0x01 }
    ∷ record { scancode = 0x36; extended = false; modifier = 0x02 }
    ∷ record { scancode = 0x5b; extended = true; modifier = 0x40 }
    ∷ record { scancode = 0x5c; extended = true; modifier = 0x80 }
    ∷ []

abbrev same_flag : Bool → Bool → Bool
same_flag true b = b
same_flag false b = not b

-- The loop that looks a key up.
unfoldable pub find_modifier : List Modifier → ℕ → Bool → Option ℕ
find_modifier [] key ext = none
find_modifier (x ∷ xs) key ext =
    if x.scancode == key && same_flag x.extended ext
    then some x.modifier
    else find_modifier xs key ext

-- A key goes to the queue if an element is unused, and is lost otherwise.
unfoldable pub enqueue_keyboard_data : ℕ → Controller → Controller
enqueue_keyboard_data key c = if c.keyboard_queue_unused == 0 then c else record c {
  keyboard_queue = c.keyboard_queue ++ (key ∷ []);
  keyboard_queue_unused = c.keyboard_queue_unused - 1;
}

-- A round of the loop that releases the modifiers held in `held`.
unfoldable pub release_modifier : Modifier → ℕ → Controller → Controller
release_modifier x held c =
    if has held x.modifier
    then enqueue_keyboard_data (bit_or x.scancode sc_up_bit)
        (if x.extended then enqueue_keyboard_data sc_extend c else c)
    else c

unfoldable pub release_modifiers : List Modifier → ℕ → Controller → Controller
unfolding release_modifier
release_modifiers [] held c = c
release_modifiers (x ∷ xs) held c = release_modifiers xs held (release_modifier x held c)

-- `_modifierState &= ~modifier` on a `UInt16`.
abbrev pub clear_modifier : ℕ → ℕ → ℕ
clear_modifier state m = bit_and state (0xffff - m)

-- The key past the prefix and the table of modifiers.
unfoldable pub escape_key : ℕ → Controller → Bool × Controller
unfolding release_modifiers
escape_key key c =
    if key == sc_delete && c.modifier_state == 0x30
    then (let c' = write_command_port 0xa8 (write_command_port 0xa7 c) in
        let c'' = release_modifiers modifier_table c.modifier_state c' in
        (true, record c'' { modifier_state = 0; extended_state = false }))
    else (false, record c { extended_state = false })

-- `doEscape`: whether the scan code is to be dropped.
unfoldable pub do_escape : ℕ → Controller → Bool × Controller
unfolding escape_key find_modifier
do_escape scancode c =
    if scancode == sc_extend
    then (false, record c { extended_state = true })
    else let key = clear_bits scancode sc_up_bit in
      elim (find_modifier modifier_table key c.extended_state) [
        | none ↦ escape_key key c
        | some m ↦ (
          false,
          record c {
            modifier_state =
                if has scancode sc_up_bit
                then clear_modifier c.modifier_state m
                else bit_or c.modifier_state m;
            extended_state = false;
          },
        )
      ]

-- `inb(kCommandPort)`.
unfoldable pub read_status : Controller → ℕ × Controller
read_status c = (head_or_zero c.status_in, record c { status_in = rest_of c.status_in })

-- `interruptHandlerKeyboard`, with the event source that it signals.
unfoldable pub interrupt_handler_keyboard : Controller → Option DeviceType × Controller
unfolding read_status read_data
interrupt_handler_keyboard c =
    let (status, c1) = read_status c in
    if has status output_ready_bit
    then (if has status mouse_data_bit
        then (some mouse, c1)
        else (let (key, c2) = read_data c1 in
            let (dropped, c3) = do_escape key c2 in
            (
              some keyboard,
              if c2.debugging_enabled
                  then (if dropped then c3 else enqueue_keyboard_data key c3)
                  else enqueue_keyboard_data key c2,
            )))
    else (none, c1)

-- The rounds of `interruptOccurred` that take a key off the queue, which is `keys`.
unfoldable pub dispatch_keys : List ℕ → Controller → Controller
dispatch_keys [] c = c
dispatch_keys (key ∷ keys) c =
    let c' = record c {
      keyboard_queue = keys;
      keyboard_queue_unused = c.keyboard_queue_unused + 1;
    } in
    dispatch_keys keys (dispatch_driver_interrupt keyboard key c')

-- The rounds that read the mouse stream, with the queue empty.
unfoldable pub dispatch_mouse : List ℕ → Controller → Controller
dispatch_mouse [] c = record c { status_in = [] }
dispatch_mouse (s ∷ ss) c =
    let (b, c') = read_data c in
    let more = dispatch_mouse ss (dispatch_driver_interrupt mouse b c') in
    if bit_and s 0x21 == 0x21 then more else record c { status_in = ss }

unfoldable pub interrupt_occurred : Controller → Controller
unfolding dispatch_keys dispatch_mouse
interrupt_occurred c =
    if c.hardware_offline
    then c
    else let c' = dispatch_keys c.keyboard_queue c in dispatch_mouse c'.status_in c'
