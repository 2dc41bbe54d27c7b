-- ===== src/Controller/Read/Laws.antt =====
-- `readDataPort` against its specification on the arrivals.
use apple_ps2smart_touch_pad.Common.{
  ℕ, ◌+◌, ◌-◌, ◌⊎◌, List, [], ◌∷◌, ◌++◌, ◌≡◌, refl, sym, arith, inl, inr,
}
use mathlib.Core.List.{append-nil}
use apple_ps2smart_touch_pad.Controller.State.{DeviceType, Controller, Delivery, read_timeout}
use apple_ps2smart_touch_pad.Controller.Port.{stream_of, head_or_zero, rest_of}
use apple_ps2smart_touch_pad.Controller.Read.{
  read_wait, Held, Decision, hold, answer, own_byte, dispatch_all, expect_wait, expect_keys,
}
use apple_ps2smart_touch_pad.Controller.Read.Arrivals.{
  arrivals, deliverable, seen_by, dispatch_driver_interrupt_lem, delivered_twice, tagged,
  other_device_lem,
}
use apple_ps2smart_touch_pad.Controller.Read.Reorder.{first_own, resolve}

-- The byte behind the status `s`.
abbrev next_arrival : ℕ → Controller → Delivery
next_arrival s c = record { target = stream_of s; byte = head_or_zero c.data_in }

-- The state in which a wait goes on after a byte of the other stream.
abbrev after_other : ℕ → Controller → Controller
after_other s c = record c {
  data_in = rest_of c.data_in;
  delivered = c.delivered ++ seen_by c (next_arrival s c ∷ []);
}

dispatch_all_lem :
    (d : DeviceType) (bs : List ℕ) (c : Controller)
    → dispatch_all d bs c ≡ record c { delivered = c.delivered ++ seen_by c (tagged d bs) }
unfolding dispatch_all deliverable
dispatch_all_lem d [] c = ground (arith, append-nil c.delivered)
dispatch_all_lem d (b ∷ bs) c =
    let x : Delivery = record { target = d; byte = b } in
    ground (
      arith,
      dispatch_driver_interrupt_lem d b c,
      dispatch_all_lem d bs (record c { delivered = c.delivered ++ seen_by c (x ∷ []) }),
      delivered_twice c.interrupt_installed_keyboard c.interrupt_installed_mouse c.delivered
          (x ∷ []) (tagged d bs),
    )

module _ (d : DeviceType) where
  pub read_wait_lem :
      (n : ℕ) (ss : List ℕ) (c : Controller)
      → let (r, out) = first_own d (arrivals n ss c.data_in) in
        ((read_wait d n ss c).0 ≡ r)
        × ((read_wait d n ss c).1.delivered ≡ c.delivered ++ seen_by c out)
  unfolding read_wait arrivals first_own deliverable
  read_wait_lem n [] c = (refl, sym (append-nil c.delivered))
  read_wait_lem n (s ∷ ss) c = ground (
    arith,
    read_wait_lem (n - 1) ss c,
    read_wait_lem n ss (after_other s c),
    other_device_lem (stream_of s) d,
    append-nil c.delivered,
    dispatch_driver_interrupt_lem (stream_of s) (head_or_zero c.data_in)
        (record c { data_in = rest_of c.data_in }),
    delivered_twice c.interrupt_installed_keyboard c.interrupt_installed_mouse c.delivered
        (next_arrival s c ∷ []) (first_own d (arrivals n ss (rest_of c.data_in))).1,
  )

pub Decision-cases :
    (x : Decision) → ((h : Held) × (x ≡ hold h)) ⊎ ((r : ℕ) × (bs : List ℕ) × (x ≡ answer r bs))
Decision-cases (hold h) = inl (h, refl)
Decision-cases (answer r bs) = inr (r, bs, refl)

module _ (d : DeviceType) (e : ℕ) where
  pub expect_wait_lem :
      (n : ℕ) (ss : List ℕ) (h : Held) (c : Controller)
      → let (r, out) = resolve d e h (arrivals n ss c.data_in) in
        ((expect_wait d e n ss h c).0 ≡ r)
        × ((expect_wait d e n ss h c).1.delivered ≡ c.delivered ++ seen_by c out)
  unfolding expect_wait arrivals resolve deliverable
  expect_wait_lem n [] h c = ground (arith, append-nil c.delivered)
  expect_wait_lem n (s ∷ ss) h c =
      let c' : Controller = record c { data_in = rest_of c.data_in } in
      elim (Decision-cases (own_byte e h (head_or_zero c.data_in))) [
        | inl (h', p) ↦ ground (
          arith,
          expect_wait_lem (n - 1) ss h c,
          expect_wait_lem n ss h (after_other s c),
          expect_wait_lem n ss h' c',
          other_device_lem (stream_of s) d,
          append-nil c.delivered,
          dispatch_driver_interrupt_lem (stream_of s) (head_or_zero c.data_in) c',
          delivered_twice c.interrupt_installed_keyboard c.interrupt_installed_mouse c.delivered
              (next_arrival s c ∷ []) (resolve d e h (arrivals n ss (rest_of c.data_in))).1,
        )
        | inr (r, bs, p) ↦ ground (
          arith,
          expect_wait_lem (n - 1) ss h c,
          expect_wait_lem n ss h (after_other s c),
          other_device_lem (stream_of s) d,
          append-nil c.delivered,
          dispatch_driver_interrupt_lem (stream_of s) (head_or_zero c.data_in) c',
          dispatch_all_lem d bs (record c' { status_in = ss }),
          delivered_twice c.interrupt_installed_keyboard c.interrupt_installed_mouse c.delivered
              (next_arrival s c ∷ []) (resolve d e h (arrivals n ss (rest_of c.data_in))).1,
        )
      ]

  -- The arrivals that a call finds in the keyboard queue, and those that it then waits for.
  abbrev pub to_come : List ℕ → Controller → List Delivery
  to_come keys c = tagged d keys ++ arrivals read_timeout c.status_in c.data_in

  pub expect_keys_lem :
      (keys : List ℕ) (h : Held) (c : Controller)
      → let (r, out) = resolve d e h (to_come keys c) in
        ((expect_keys d e keys h c).0 ≡ r)
        × ((expect_keys d e keys h c).1.delivered ≡ c.delivered ++ seen_by c out)
  unfolding expect_keys resolve
  expect_keys_lem [] h c = expect_wait_lem read_timeout c.status_in h c
  expect_keys_lem (k ∷ keys) h c =
      let c' : Controller = record c {
        keyboard_queue = keys;
        keyboard_queue_unused = c.keyboard_queue_unused + 1;
      } in
      elim (Decision-cases (own_byte e h k)) [
        | inl (h', p) ↦ ground (arith, expect_keys_lem keys h' c')
        | inr (r, bs, p) ↦ ground (arith, dispatch_all_lem d bs c')
      ]
