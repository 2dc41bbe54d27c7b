-- ===== src/Controller/Read/Frame.antt =====
-- What a read leaves alone: it consumes input, delivers bytes and takes keys off the queue.
use apple_ps2smart_touch_pad.Common.{
  ℕ, ◌+◌, ◌-◌, inl, inr, List, [], ◌∷◌, ◌≡◌, arith, Bool-cases, ◌==◌,
}
use apple_ps2smart_touch_pad.Controller.State.{DeviceType, Controller, read_timeout}
use apple_ps2smart_touch_pad.Controller.Port.{
  other_device, dispatch_driver_interrupt, rest_of, head_or_zero, output_ready, stream_of,
  same_device,
}
use apple_ps2smart_touch_pad.Controller.Read.{
  Held, nothing, own_byte, dispatch_all, read_wait, read_data_port, queued_key,
  dequeue_keyboard_data, expect_wait, expect_keys, keys_for, read_data_port_expecting,
}
use apple_ps2smart_touch_pad.Controller.Read.Laws.{Decision-cases}

-- The fields that no read changes.
pub record SameDriver (c c' : Controller) : Type 0 where
  pub outs : c'.outs ≡ c.outs
  pub notified : c'.notified ≡ c.notified
  pub keyboard_handler : c'.interrupt_installed_keyboard ≡ c.interrupt_installed_keyboard
  pub mouse_handler : c'.interrupt_installed_mouse ≡ c.interrupt_installed_mouse
  pub keyboard_power : c'.power_installed_keyboard ≡ c.power_installed_keyboard
  pub mouse_power : c'.power_installed_mouse ≡ c.power_installed_mouse
  pub power_state : c'.current_power_state ≡ c.current_power_state
  pub offline : c'.hardware_offline ≡ c.hardware_offline
  pub mux : c'.uses_mux_mode ≡ c.uses_mux_mode
  pub route : c'.mux_route_prefix ≡ c.mux_route_prefix

pub dispatch_driver_interrupt-SameDriver :
    (d : DeviceType) (b : ℕ) (c : Controller) → SameDriver c (dispatch_driver_interrupt d b c)
unfolding dispatch_driver_interrupt
dispatch_driver_interrupt-SameDriver d b c = ground arith

dispatch_all-SameDriver :
    (d : DeviceType) (bs : List ℕ) (c : Controller) → SameDriver c (dispatch_all d bs c)
unfolding dispatch_all
dispatch_all-SameDriver d [] c = ground arith
dispatch_all-SameDriver d (b ∷ bs) c = ground (
  arith,
  dispatch_driver_interrupt-SameDriver d b c,
  dispatch_all-SameDriver d bs (dispatch_driver_interrupt d b c),
)

read_wait-SameDriver :
    (d : DeviceType) (n : ℕ) (ss : List ℕ) (c : Controller) → SameDriver c (read_wait d n ss c).1
unfolding read_wait
read_wait-SameDriver d n [] c = ground arith
read_wait-SameDriver d n (s ∷ ss) c =
    let b = head_or_zero c.data_in in
    let c' : Controller = record c { data_in = rest_of c.data_in } in
    ground (
      arith,
      read_wait-SameDriver d (n - 1) ss c,
      dispatch_driver_interrupt-SameDriver (other_device d) b c',
      read_wait-SameDriver d n ss (dispatch_driver_interrupt (other_device d) b c'),
    )

pub read_data_port-SameDriver :
    (d : DeviceType) (c : Controller) → SameDriver c (read_data_port d c).1
unfolding read_data_port queued_key dequeue_keyboard_data
read_data_port-SameDriver d c = ground (arith, read_wait-SameDriver d read_timeout c.status_in c)

expect_wait-SameDriver :
    (d : DeviceType) (e n : ℕ) (ss : List ℕ) (h : Held) (c : Controller)
    → SameDriver c (expect_wait d e n ss h c).1
unfolding expect_wait
expect_wait-SameDriver d e n [] h c = ground arith
expect_wait-SameDriver d e n (s ∷ ss) h c =
    let b = head_or_zero c.data_in in
    let c' : Controller = record c { data_in = rest_of c.data_in } in
    elim (Bool-cases (n == 0)) [
      | inl z ↦ ground arith
      | inr z ↦ elim (Bool-cases (output_ready s)) [
        | inr r ↦ ground (arith, expect_wait-SameDriver d e (n - 1) ss h c)
        | inl r ↦ elim (Bool-cases (same_device (stream_of s) d)) [
          | inr o ↦ ground (
            arith,
            dispatch_driver_interrupt-SameDriver (other_device d) b c',
            expect_wait-SameDriver d e n ss h (dispatch_driver_interrupt (other_device d) b c'),
          )
          | inl o ↦ elim (Decision-cases (own_byte e h b)) [
            | inl (h', p) ↦ ground (arith, expect_wait-SameDriver d e n ss h' c')
            | inr (r', bs, p) ↦
                ground (arith, dispatch_all-SameDriver d bs (record c' { status_in = ss }))
          ]
        ]
      ]
    ]

expect_keys-SameDriver :
    (d : DeviceType) (e : ℕ) (keys : List ℕ) (h : Held) (c : Controller)
    → SameDriver c (expect_keys d e keys h c).1
unfolding expect_keys
expect_keys-SameDriver d e [] h c = expect_wait-SameDriver d e read_timeout c.status_in h c
expect_keys-SameDriver d e (k ∷ keys) h c =
    let c' : Controller = record c {
      keyboard_queue = keys;
      keyboard_queue_unused = c.keyboard_queue_unused + 1;
    } in
    elim (Decision-cases (own_byte e h k)) [
      | inl (h', p) ↦ ground (arith, expect_keys-SameDriver d e keys h' c')
      | inr (r, bs, p) ↦ ground (arith, dispatch_all-SameDriver d bs c')
    ]

pub read_data_port_expecting-SameDriver :
    (d : DeviceType) (e : ℕ) (c : Controller) → SameDriver c (read_data_port_expecting d e c).1
unfolding read_data_port_expecting
read_data_port_expecting-SameDriver d e c = expect_keys-SameDriver d e (keys_for d c) nothing c
