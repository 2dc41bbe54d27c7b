-- ===== src/Controller/Read/Recovery.antt =====
-- What the two versions of `readDataPort` promise of the bytes that arrive during a call.
use apple_ps2smart_touch_pad.Common.{
  ℕ, ◌≤◌, true, List, [], ◌∷◌, ◌++◌, ◌≡◌, ◌≢◌, ◌∙◌, ap, arith, length,
}
use mathlib.Core.List.{append-nil}
use apple_ps2smart_touch_pad.Controller.State.{
  DeviceType, keyboard, mouse, Controller, Delivery, read_timeout,
}
use apple_ps2smart_touch_pad.Controller.Port.{same_device, head_or_zero}
use apple_ps2smart_touch_pad.Controller.Read.{
  nothing, keys_for, queued_key, dequeue_keyboard_data, read_data_port, read_data_port_expecting,
}
use apple_ps2smart_touch_pad.Controller.Read.Arrivals.{
  arrivals, deliverable, tagged, seen_by, own_bytes, other_arrivals,
}
use apple_ps2smart_touch_pad.Controller.Read.Reorder.{
  Avoids, held_bytes, first_own, resolve, resolve-match, resolve_gives_up, resolve_times_out,
}
use apple_ps2smart_touch_pad.Controller.Read.Laws.{read_wait_lem, expect_keys_lem}

-- Everything that arrives up to the timeout of a call that asks for `d`: the keys queued for it,
-- then the bytes at the port.
abbrev pub incoming : DeviceType → Controller → List Delivery
incoming d c = tagged d (keys_for d c) ++ arrivals read_timeout c.status_in c.data_in

-- A read without an expected byte returns the first byte of its stream, or 0 if none comes before
-- the timeout, and hands what the other stream sent before it to that stream's handler, in order.
pub read_data_port_first :
    (d : DeviceType) (c : Controller)
    → let (r, out) = first_own d (incoming d c) in
      ((read_data_port d c).0 ≡ r)
      × ((read_data_port d c).1.delivered ≡ c.delivered ++ seen_by c out)
unfolding read_data_port first_own queued_key dequeue_keyboard_data deliverable
read_data_port_first mouse c = read_wait_lem mouse read_timeout c.status_in c
read_data_port_first keyboard c =
    ground (arith, read_wait_lem keyboard read_timeout c.status_in c, append-nil c.delivered)

module _ (d : DeviceType) (e : ℕ) (c : Controller) where
  from_resolve :
      (r : ℕ) (out : List Delivery)
      → resolve d e nothing (incoming d c) ≡ (r, out)
      → ((read_data_port_expecting d e c).0 ≡ r)
        × ((read_data_port_expecting d e c).1.delivered ≡ c.delivered ++ seen_by c out)
  unfolding read_data_port_expecting
  from_resolve r out i =
      let found = expect_keys_lem d e (keys_for d c) nothing c in
      (found.0 ∙ ap (λ t. t.0) i, found.1 ∙ ap (λ t. c.delivered ++ seen_by c t.1) i)

  -- If the expected byte comes behind at most three others of its stream, it is returned; what the
  -- other stream sent before it, then the bytes that came before it, go to their handlers in order.
  pub read_data_port_expecting-match :
      (pre : List Delivery) (y : Delivery) (post : List Delivery)
      → incoming d c ≡ pre ++ y ∷ post
      → same_device y.target d ≡ true
      → y.byte ≡ e
      → Avoids e (own_bytes d pre)
      → length (own_bytes d pre) ≤ 3
      → ((read_data_port_expecting d e c).0 ≡ e)
        × ((read_data_port_expecting d e c).1.delivered
            ≡ c.delivered ++ seen_by c (other_arrivals d pre ++ tagged d (own_bytes d pre)))
  unfolding held_bytes
  read_data_port_expecting-match pre y post i p q a l =
      from_resolve _ _
        (ap (resolve d e nothing) i ∙ resolve-match d e y post nothing pre p q a (omega arith))

  -- If four bytes of the stream come and none is the expected one, the first of them is returned and
  -- the fourth goes to the stream's handler; the second and the third go nowhere.
  pub read_data_port_expecting_gives_up :
      (pre : List Delivery) (y : Delivery) (post : List Delivery)
      → incoming d c ≡ pre ++ y ∷ post
      → same_device y.target d ≡ true
      → y.byte ≢ e
      → Avoids e (own_bytes d pre)
      → length (own_bytes d pre) ≡ 3
      → ((read_data_port_expecting d e c).0 ≡ head_or_zero (own_bytes d pre))
        × ((read_data_port_expecting d e c).1.delivered
            ≡ c.delivered ++ seen_by c (other_arrivals d pre ++ tagged d (y.byte ∷ [])))
  unfolding held_bytes
  read_data_port_expecting_gives_up pre y post i p q a l =
      from_resolve _ _
        (ap (resolve d e nothing) i ∙ resolve_gives_up d e y post nothing pre p q a (omega arith))

  -- If at most three bytes of the stream come before the timeout and none is the expected one, the
  -- first of them is returned, or 0 if there is none, and none of them goes to the handler; the other
  -- stream's bytes do.
  pub read_data_port_expecting_times_out :
      Avoids e (own_bytes d (incoming d c))
      → length (own_bytes d (incoming d c)) ≤ 3
      → ((read_data_port_expecting d e c).0 ≡ head_or_zero (own_bytes d (incoming d c)))
        × ((read_data_port_expecting d e c).1.delivered
            ≡ c.delivered ++ seen_by c (other_arrivals d (incoming d c)))
  unfolding held_bytes
  read_data_port_expecting_times_out a l =
      from_resolve _ _ (resolve_times_out d e nothing (incoming d c) a (omega arith))
