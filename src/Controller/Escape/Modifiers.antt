-- ===== src/Controller/Escape/Modifiers.antt =====
-- The modifier keys that `doEscape` tracks, and the debugger key.
use apple_ps2smart_touch_pad.Common.{
  ℕ, ◌≤◌, true, false, [], ◌∷◌, ◌++◌, ◌≡◌, ◌≢◌, arith, has, clear_bits,
}
use mathlib.Core.List.{append_assoc}
use apple_ps2smart_touch_pad.Controller.State.{Controller, to_command}
use apple_ps2smart_touch_pad.Controller.Port.{write_command_port}
use apple_ps2smart_touch_pad.Controller.Escape.{
  enqueue_keyboard_data, modifier_table, find_modifier, release_modifiers, escape_key, do_escape,
  sc_up_bit,
}

release_alts :
    (c : Controller)
    → 3 ≤ c.keyboard_queue_unused
    → ((release_modifiers modifier_table 0x30 c).keyboard_queue
        ≡ c.keyboard_queue ++ (0xb8 ∷ 0xe0 ∷ 0xb8 ∷ []))
      × ((release_modifiers modifier_table 0x30 c).outs ≡ c.outs)
unfolding release_modifiers enqueue_keyboard_data has
release_alts c h = ground (
  arith,
  append_assoc c.keyboard_queue (0xb8 ∷ []) (0xe0 ∷ []),
  append_assoc c.keyboard_queue (0xb8 ∷ 0xe0 ∷ []) (0xb8 ∷ []),
)

escape_key-delete :
    (c : Controller)
    → c.modifier_state ≡ 0x30
    → 3 ≤ c.keyboard_queue_unused
    → let (dropped, c') = escape_key 0x53 c in
      (dropped ≡ true)
      × (c'.modifier_state ≡ 0)
      × (c'.extended_state ≡ false)
      × (c'.keyboard_queue ≡ c.keyboard_queue ++ (0xb8 ∷ 0xe0 ∷ 0xb8 ∷ []))
      × (c'.outs ≡ c.outs ++ (to_command 0xa7 ∷ to_command 0xa8 ∷ []))
unfolding escape_key write_command_port
escape_key-delete c m u =
    let c' = write_command_port 0xa8 (write_command_port 0xa7 c) in
    ground
      (arith, release_alts c', append_assoc c.outs (to_command 0xa7 ∷ []) (to_command 0xa8 ∷ []))

-- With both Alt keys held and no other modifier, the Delete key, pressed or released, is dropped, all
-- modifiers count as released, the queue is given the release codes of the two keys if it has room
-- for them, and the mouse clock is stopped and started.
pub do_escape-delete :
    (scancode : ℕ) (c : Controller)
    → clear_bits scancode sc_up_bit ≡ 0x53
    → scancode ≢ 0xe0
    → c.modifier_state ≡ 0x30
    → 3 ≤ c.keyboard_queue_unused
    → let (dropped, c') = do_escape scancode c in
      (dropped ≡ true)
      × (c'.modifier_state ≡ 0)
      × (c'.extended_state ≡ false)
      × (c'.keyboard_queue ≡ c.keyboard_queue ++ (0xb8 ∷ 0xe0 ∷ 0xb8 ∷ []))
      × (c'.outs ≡ c.outs ++ (to_command 0xa7 ∷ to_command 0xa8 ∷ []))
unfolding do_escape find_modifier
do_escape-delete scancode c k e m u = ground (arith, escape_key-delete c m u)
