-- ===== src/Keyboard/Lights/Power.antt =====
-- The keyboard that is put to sleep and woken up.
use apple_ps2smart_touch_pad.Common.{
  ℕ, zero, suc, ◌+◌, ◌^◌, ◌/◌, ◌%◌, Bool, true, false, List, [], ◌∷◌, ◌++◌, Option, some, ◌≡◌, refl,
  ap, ◌∙◌, ◌==◌, if◌then◌else◌, get_or, has, has_pow, digit-zero, replicate,
}
use apple_ps2smart_touch_pad.Controller.State.{enable_device}
use apple_ps2smart_touch_pad.Interface.Device.{Host}
use apple_ps2smart_touch_pad.Keyboard.State.{Keyboard, Event, request, emit, dispatch_key}
use apple_ps2smart_touch_pad.Keyboard.Vector.{kbv_is_keydown}
use apple_ps2smart_touch_pad.Keyboard.Lights.{
  release_down, set_leds, set_keyboard_enable, enable_start, enable_end, set_keyboard_command_byte,
  set_device_power_state, write_byte,
}
use mathlib.Core.List.{append_assoc}

get_or-zeros : (n i : ℕ) → get_or (replicate n zero) i zero ≡ zero
get_or-zeros zero i = refl
get_or-zeros (suc n) zero = refl
get_or-zeros (suc n) (suc i) = get_or-zeros n i

no_key_down : (n : ℕ) → kbv_is_keydown n (replicate 8 0) ≡ false
unfolding kbv_is_keydown
no_key_down n =
    ap (λ (w : ℕ). has w (2 ^ (n % 32))) (get_or-zeros 8 (n / 32))
    ∙ has_pow (n % 32) 0
    ∙ ap (λ (d : ℕ). d == 1) (digit-zero (n % 32))

release_down-none :
    (first left : ℕ) (k : Keyboard)
    → k.key_bit_vector ≡ replicate 8 0
    → release_down first left k ≡ k
unfolding release_down
release_down-none first zero k e = refl
release_down-none first (suc left) k e =
    let up : kbv_is_keydown first k.key_bit_vector ≡ false =
      ap (kbv_is_keydown first) e ∙ no_key_down first in
    ap
      (λ (down : Bool).
        release_down (first + 1) left (if down then dispatch_key first false k else k))
      up
    ∙ release_down-none (first + 1) left k e

enable_start_lem :
    (k : Keyboard)
    → enable_start k ≡ set_leds k.led_state (record k { key_bit_vector = replicate 8 0 })
unfolding enable_start
enable_start_lem k =
    ap (λ (x : Keyboard). set_leds x.led_state x)
      (release_down-none 0 256 (record k { key_bit_vector = replicate 8 0 }) refl)

-- When the command byte can be set, enabling the keyboard succeeds: it sends the LED state, then
-- the enabling, and no key is released, though all count as up from then on.
pub set_device_power_state-enable :
    (fuel : ℕ) (k : Keyboard) (h h1 : Host)
    → set_keyboard_command_byte fuel 0x41 0x10 h ≡ some h1
    → set_device_power_state fuel enable_device k h
      ≡ some (
        record k {
          is_keyboard_enabled = true;
          key_bit_vector = replicate 8 0;
          events =
              k.events
              ++ (request (write_byte 0xed (write_byte k.led_state []))
                  ∷ request (write_byte 0xf4 [])
                  ∷ []);
        },
        h1,
      )
unfolding set_device_power_state enable_end set_keyboard_enable emit set_leds
set_device_power_state-enable fuel k h h1 e =
    let leds = request (write_byte 0xed (write_byte k.led_state [])) ∷ [] in
    let enabling = request (write_byte 0xf4 []) ∷ [] in
    ap (λ (o : Option Host). enable_end o (enable_start k)) e
    ∙ ap (λ (x : Keyboard). enable_end (some h1) x) (enable_start_lem k)
    ∙ ap
        (λ (es : List Event). some (
          record k { is_keyboard_enabled = true; key_bit_vector = replicate 8 0; events = es },
          h1,
        ))
        (append_assoc k.events leds enabling)
