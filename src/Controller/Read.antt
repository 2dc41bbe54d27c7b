-- ===== src/Controller/Read.antt =====
-- `readDataPort` in its two versions (with DEBUGGER_SUPPORT and
-- OUT_OF_ORDER_DATA_CORRECTION_FEATURE, both set in ApplePS2Controller.h).
--
-- A loop consumes the list of statuses. `n` is `timeoutCounter`; a status list that is used up
-- stands for a controller that stays silent, so the wait runs into its timeout. The keyboard queue
-- is filled by the keyboard interrupt alone, which the model runs between calls: each call finds in
-- it the keys that were there at its start, and looks no further once it has found it empty.
pub mod Arrivals
pub mod Reorder
pub mod Laws
pub mod Recovery
pub mod Frame
use apple_ps2smart_touch_pad.Common.{
  ℕ, ◌+◌, ◌-◌, Bool, true, false, List, [], ◌∷◌, Option, none, some, ◌==◌,
}
use apple_ps2smart_touch_pad.Controller.State.{
  DeviceType, keyboard, mouse, Controller, read_timeout,
}
use apple_ps2smart_touch_pad.Controller.Port.{
  output_ready, stream_of, other_device, same_device, read_data, dispatch_driver_interrupt,
}

-- `dequeueKeyboardData`.
unfoldable pub dequeue_keyboard_data : Controller → Option (ℕ × Controller)
dequeue_keyboard_data c = elim c.keyboard_queue [
  | [] ↦ none
  | key ∷ keys ↦
      some (
        key,
        record c { keyboard_queue = keys; keyboard_queue_unused = c.keyboard_queue_unused + 1 },
      )
]

-- `deviceType == kDT_Keyboard && dequeueKeyboardData(&readByte)`.
unfoldable pub queued_key : DeviceType → Controller → Option (ℕ × Controller)
unfolding dequeue_keyboard_data
queued_key keyboard c = dequeue_keyboard_data c
queued_key mouse c = none

-- The wait for a byte of `d`, the queue having been found empty.
unfoldable pub read_wait : DeviceType → ℕ → List ℕ → Controller → ℕ × Controller
unfolding read_data
read_wait d n [] c = (0, record c { status_in = [] })
read_wait d n (s ∷ ss) c = elim (n == 0) [
  | true ↦ (0, record c { status_in = s ∷ ss })
  | false ↦ elim (output_ready s) [
    | false ↦ read_wait d (n - 1) ss c
    | true ↦
        let (b, c') = read_data c in
        elim (same_device (stream_of s) d) [
          | true ↦ (b, record c' { status_in = ss })
          | false ↦ read_wait d n ss (dispatch_driver_interrupt (other_device d) b c')
        ]
  ]
]

unfoldable pub read_data_port : DeviceType → Controller → ℕ × Controller
read_data_port d c = elim (queued_key d c) [
  | some found ↦ found
  | none ↦ read_wait d read_timeout c.status_in c
]

-- `firstByte`, `secondByte`, `thirdByte` with the flags that say which of them are held; a byte is
-- put aside only after those before it.
pub data Held : Type 0 where
  nothing : Held
  first_held : ℕ → Held
  second_held : ℕ → ℕ → Held
  third_held : ℕ → ℕ → ℕ → Held

-- What the loop does with a byte of the requested stream: it goes on with the bytes held, or
-- returns `result` after handing `dispatched` to the interrupt handler of that stream.
pub data Decision : Type 0 where
  hold : Held → Decision
  answer : ℕ → List ℕ → Decision

unfoldable pub matched : ℕ → Held → Decision
matched b nothing = answer b []
matched b (first_held x) = answer b (x ∷ [])
matched b (second_held x y) = answer b (x ∷ y ∷ [])
matched b (third_held x y z) = answer b (x ∷ y ∷ z ∷ [])

unfoldable pub mismatched : ℕ → Held → Decision
mismatched b nothing = hold (first_held b)
mismatched b (first_held x) = hold (second_held x b)
mismatched b (second_held x y) = hold (third_held x y b)
mismatched b (third_held x y z) = answer x (b ∷ [])

unfoldable pub own_byte : ℕ → Held → ℕ → Decision
unfolding matched mismatched
own_byte e h b = elim (b == e) [ true ↦ matched b h | false ↦ mismatched b h ]

-- The value returned on a timeout.
unfoldable pub timed_out : Held → ℕ
timed_out nothing = 0
timed_out (first_held x) = x
timed_out (second_held x y) = x
timed_out (third_held x y z) = x

unfoldable pub dispatch_all : DeviceType → List ℕ → Controller → Controller
dispatch_all d [] c = c
dispatch_all d (b ∷ bs) c = dispatch_all d bs (dispatch_driver_interrupt d b c)

unfoldable pub expect_wait : DeviceType → ℕ → ℕ → List ℕ → Held → Controller → ℕ × Controller
unfolding read_data own_byte timed_out
expect_wait d e n [] h c = (timed_out h, record c { status_in = [] })
expect_wait d e n (s ∷ ss) h c = elim (n == 0) [
  | true ↦ (timed_out h, record c { status_in = s ∷ ss })
  | false ↦ elim (output_ready s) [
    | false ↦ expect_wait d e (n - 1) ss h c
    | true ↦
        let (b, c') = read_data c in
        elim (same_device (stream_of s) d) [
          | true ↦ elim (own_byte e h b) [
            | answer r bs ↦ (r, dispatch_all d bs (record c' { status_in = ss }))
            | hold h' ↦ expect_wait d e n ss h' c'
          ]
          | false ↦ expect_wait d e n ss h (dispatch_driver_interrupt (other_device d) b c')
        ]
  ]
]

-- The keys that the queue holds for `d` come first.
unfoldable pub expect_keys : DeviceType → ℕ → List ℕ → Held → Controller → ℕ × Controller
unfolding expect_wait own_byte
expect_keys d e [] h c = expect_wait d e read_timeout c.status_in h c
expect_keys d e (key ∷ keys) h c =
    let c' = record c {
      keyboard_queue = keys;
      keyboard_queue_unused = c.keyboard_queue_unused + 1;
    } in
    elim (own_byte e h key) [
      | answer r bs ↦ (r, dispatch_all d bs c')
      | hold h' ↦ expect_keys d e keys h' c'
    ]

abbrev pub keys_for : DeviceType → Controller → List ℕ
keys_for keyboard c = c.keyboard_queue
keys_for mouse c = []

-- `readDataPort(deviceType, expectedByte)`.
unfoldable pub read_data_port_expecting : DeviceType → ℕ → Controller → ℕ × Controller
unfolding expect_keys
read_data_port_expecting d e c = expect_keys d e (keys_for d c) nothing c
