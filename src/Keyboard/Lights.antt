-- ===== src/Keyboard/Lights.antt =====
-- The requests of ApplePS2Keyboard.cpp to the keyboard: LEDs, enabling, the command byte, power.
--
-- The asynchronous requests are events; those of `setCommandByte`, which blocks, are run by the
-- controller behind the keyboard's nub. `fuel` bounds its rounds, as it does for the touchpad.
pub mod Power
use apple_ps2smart_touch_pad.Common.{
  ℕ, zero, suc, ◌+◌, Bool, true, false, List, [], ◌∷◌, Option, none, some, if◌then◌else◌, bit_or,
  clear_bits, replicate,
}
use apple_ps2smart_touch_pad.Controller.State.{
  PowerAction, disable_device, enable_device, sc_acknowledge, dp_set_defaults_and_disable,
  cb_enable_keyboard_irq, cb_disable_keyboard_clock,
}
use apple_ps2smart_touch_pad.Controller.Request.Commands.{
  Ps2Command, c_read_data_port_and_compare, c_write_data_port,
}
use apple_ps2smart_touch_pad.Interface.{set_command_byte, dp_enable}
use apple_ps2smart_touch_pad.Interface.Device.{Host}
use apple_ps2smart_touch_pad.Keyboard.State.{Keyboard, request, emit, dispatch_key}
use apple_ps2smart_touch_pad.Keyboard.Vector.{kbv_is_keydown}

abbrev dp_set_keyboard_leds : ℕ
dp_set_keyboard_leds = 0xed

abbrev cb_translate_mode : ℕ
cb_translate_mode = 0x40

abbrev led_num_lock : ℕ
led_num_lock = 0x02

abbrev led_caps_lock : ℕ
led_caps_lock = 0x04

-- A byte for the keyboard, and its acknowledgement.
abbrev pub write_byte : ℕ → List Ps2Command → List Ps2Command
write_byte b cs =
    record { command = c_write_data_port; in_or_out = b }
    ∷ record { command = c_read_data_port_and_compare; in_or_out = sc_acknowledge }
    ∷ cs

-- `setLEDs`.
unfoldable pub set_leds : ℕ → Keyboard → Keyboard
unfolding emit
set_leds led k = emit (request (write_byte dp_set_keyboard_leds (write_byte led [])) ∷ []) k

-- `locked ? (_ledState | led) : (_ledState & ~led)`.
abbrev with_led : ℕ → Bool → ℕ → ℕ
with_led led locked leds = if locked then bit_or leds led else clear_bits leds led

-- `setAlphaLockFeedback`.
unfoldable pub set_alpha_lock_feedback : Bool → Keyboard → Keyboard
unfolding set_leds
set_alpha_lock_feedback locked k =
    let led = with_led led_caps_lock locked k.led_state in
    set_leds led (record k { led_state = led })

-- `setNumLockFeedback`.
unfoldable pub set_num_lock_feedback : Bool → Keyboard → Keyboard
unfolding set_leds
set_num_lock_feedback locked k =
    let led = with_led led_num_lock locked k.led_state in
    if k.options.no_num_lock_led then k else set_leds led (record k { led_state = led })

-- `setKeyboardEnable`. What it reads of the request afterwards is only logged.
unfoldable pub set_keyboard_enable : Bool → Keyboard → Keyboard
unfolding emit
set_keyboard_enable enable k =
    emit (request (write_byte (if enable then dp_enable else dp_set_defaults_and_disable) []) ∷ [])
      k

-- `setCommandByte`: the same loop as the touchpad's.
unfoldable pub set_keyboard_command_byte : ℕ → ℕ → ℕ → Host → Option Host
set_keyboard_command_byte fuel set_bits clear h = set_command_byte fuel set_bits clear h

-- The loop over the key codes from `first` on that releases those that are down.
unfoldable pub release_down : ℕ → ℕ → Keyboard → Keyboard
unfolding dispatch_key
release_down first zero k = k
release_down first (suc left) k =
    release_down (first + 1) left
      (if kbv_is_keydown first k.key_bit_vector then dispatch_key first false k else k)

-- `KBV_NUM_KEYCODES`.
abbrev pub kbv_num_keycodes : ℕ
kbv_num_keycodes = 256

-- `setDevicePowerState`: what comes before `setCommandByte` on the way up.
unfoldable pub enable_start : Keyboard → Keyboard
unfolding release_down set_leds
enable_start k =
    let k1 = release_down 0 kbv_num_keycodes (record k { key_bit_vector = replicate 8 0 }) in
    set_leds k1.led_state k1

-- What comes behind it.
unfoldable pub enable_end : Option Host → Keyboard → Option (Keyboard × Host)
unfolding set_keyboard_enable
enable_end none k = none
enable_end (some h) k = some (record (set_keyboard_enable true k) { is_keyboard_enabled = true }, h)

-- `setDevicePowerState`; `none` if `setCommandByte` has not ended.
unfoldable pub set_device_power_state : ℕ → PowerAction → Keyboard → Host → Option (Keyboard × Host)
unfolding set_keyboard_enable enable_start enable_end set_keyboard_command_byte
set_device_power_state fuel disable_device k h =
    some (set_keyboard_enable false (record k { is_keyboard_enabled = false }), h)
set_device_power_state fuel enable_device k h =
    enable_end
      (set_keyboard_command_byte fuel (bit_or cb_enable_keyboard_irq cb_translate_mode)
        cb_disable_keyboard_clock h)
      (enable_start k)
