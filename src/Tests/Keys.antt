-- ===== src/Tests/Keys.antt =====
-- Runs of the keyboard driver.
use apple_ps2smart_touch_pad.Common.{
  replicate, has, clear_bits, true, false, [], ◌∷◌, none, some, ◌≡◌, refl, arith,
}
use apple_ps2smart_touch_pad.Controller.State.{enable_device, to_command, to_data}
use apple_ps2smart_touch_pad.Controller.Port.{
  dispatch_driver_interrupt, interrupt_installed, read_data, output_ready, stream_of, input_busy,
  wait_input, write_data_port, write_command_port,
}
use apple_ps2smart_touch_pad.Controller.Read.{
  read_data_port, read_data_port_expecting, queued_key, dequeue_keyboard_data, read_wait,
  expect_keys, expect_wait, own_byte, matched, mismatched, timed_out, dispatch_all,
}
use apple_ps2smart_touch_pad.Controller.Request.{
  process_request, process_request_queue, process_all, submit_request_and_block, complete,
}
use apple_ps2smart_touch_pad.Controller.Request.Commands.{run_commands, run_command, mouse_route}
use apple_ps2smart_touch_pad.Interface.{set_command_byte, command_byte_loop, command_byte_round}
use apple_ps2smart_touch_pad.Interface.Device.{Host, submit, free_request, fill}
use apple_ps2smart_touch_pad.Tests.Inputs.{controller, host_of}
use apple_ps2smart_touch_pad.Keyboard.State.{Keyboard, World, request}
use apple_ps2smart_touch_pad.Keyboard.Setup.{init}
use apple_ps2smart_touch_pad.Keyboard.Combinations.{
  combination_codes, adb_code_for_key_char, code_of_name, case_of,
}
use apple_ps2smart_touch_pad.Keyboard.Combinations.Words.{combination_codes-join, word_code}
use apple_ps2smart_touch_pad.Keyboard.Gestures.{dispatch_chords}
use apple_ps2smart_touch_pad.Keyboard.Gestures.Held.{is_held}
use apple_ps2smart_touch_pad.Keyboard.Functions.{receive_touchpad_notifications}
use apple_ps2smart_touch_pad.Keyboard.Functions.Releases.{receive_touchpad_notifications_releases}
use apple_ps2smart_touch_pad.Keyboard.Lights.{
  write_byte, set_keyboard_command_byte, set_device_power_state,
}
use apple_ps2smart_touch_pad.Keyboard.Lights.Power.{set_device_power_state-enable}
use apple_ps2smart_touch_pad.Keyboard.ModifierKeys.{Down, modifier_step}
use apple_ps2smart_touch_pad.Keyboard.ModifierKeys.Sticky.{
  alternate_function_sticks, contains, notices_of,
}
use apple_ps2smart_touch_pad.Keyboard.Scan.{dispatch_scan_code, sc_pause, sc_extend}
use apple_ps2smart_touch_pad.Keyboard.Scan.Prefixes.{dispatch_scan_code-pause}
use apple_ps2smart_touch_pad.Keyboard.Special.{generate_and_see_adb_code, set_codes}
use apple_ps2smart_touch_pad.Keyboard.Special.Generated.{generate_and_see_adb_code-digits, enter}

abbrev world : World
world = record {
  uptime = 0;
  secs = 0;
  microsecs = 0;
  modifier_pairs = none;
  atkd = false;
  gkbl = (λ parm. none);
  gklm = none;
  skbl = false;
  slpn = false;
  asus_panel_levels = none;
  fn_keys_mode_1 = none;
  fn_keys_mode_2 = none;
  fn_keys_layout = none;
  extended_functions = none;
  product = none;
  keyboard_type = none;
  use_iso_layout = false;
  sierra = false;
  preferences = none;
  unset = false;
}

unfoldable abbrev pub board : Keyboard
unfolding init
board = init world

receive_touchpad_notifications_releases_example :
    is_held 0x37 (receive_touchpad_notifications 8 board) ≡ false
unfolding is_held init
receive_touchpad_notifications_releases_example =
    receive_touchpad_notifications_releases 0x37 8 board refl (omega arith) (omega arith)

-- Command and Alt, then Alt alone, then both again.
abbrev both : Down
both = record { cmd = true; ctl = false; alt = true }

abbrev alt_only : Down
alt_only = record { cmd = false; ctl = false; alt = true }

alternate_function_sticks_example :
    contains 58 (notices_of (alt_only ∷ both ∷ []) (modifier_step both 0).1) ≡ false
unfolding modifier_step has
alternate_function_sticks_example =
    (alternate_function_sticks both (alt_only ∷ both ∷ []) 0 (omega arith) refl).0

-- "CMD SHFT A".
combination_codes-join_example :
    combination_codes
      (0x43 ∷ 0x4d ∷ 0x44 ∷ 0x20 ∷ 0x53 ∷ 0x48 ∷ 0x46 ∷ 0x54 ∷ 0x20 ∷ 0x41 ∷ [])
      []
      0
    ≡ some (0x36 ∷ 0x38 ∷ 0x00 ∷ [])
unfolding word_code adb_code_for_key_char code_of_name case_of
combination_codes-join_example =
    combination_codes-join (0x43 ∷ 0x4d ∷ 0x44 ∷ [])
      ((0x53 ∷ 0x48 ∷ 0x46 ∷ 0x54 ∷ []) ∷ (0x41 ∷ []) ∷ []) refl

generate_and_see_adb_code-digits_example :
    generate_and_see_adb_code 0x5d false (enter 0 (enter 6 (enter 1 board)))
    ≡ set_codes 0 0 0 (dispatch_chords ((160 ∷ []) ∷ []) (set_codes 160 1 6 board))
unfolding init
generate_and_see_adb_code-digits_example =
    generate_and_see_adb_code-digits 1 6 0 board (omega arith) (omega arith) (omega arith)
      (omega arith) (omega arith) refl refl

-- A controller that answers with the command byte 0x74 whenever it is read.
abbrev ready : Host
ready = host_of (controller (0 ∷ 1 ∷ 0 ∷ 1 ∷ 0 ∷ 0 ∷ []) (0x74 ∷ 0x74 ∷ []))

-- Written: the command byte with the interrupt and the translation, and the keyboard's clock.
abbrev awake : Host
awake =
    record (host_of (record (controller [] []) {
      outs = to_command 0x20 ∷ to_command 0x20 ∷ to_command 0x60 ∷ to_data 0x65 ∷ [];
    })) { releases = 1 }

command_byte_run : set_keyboard_command_byte 1 0x41 0x10 ready ≡ some awake
unfolding set_keyboard_command_byte set_command_byte command_byte_loop command_byte_round
    run_commands run_command mouse_route read_data_port read_data_port_expecting queued_key
    dequeue_keyboard_data read_wait expect_keys expect_wait own_byte matched mismatched timed_out
    dispatch_all dispatch_driver_interrupt interrupt_installed read_data output_ready stream_of
    input_busy wait_input has clear_bits write_data_port write_command_port process_request
    process_request_queue process_all submit_request_and_block submit free_request complete fill
command_byte_run = refl

set_device_power_state-enable_example :
    set_device_power_state 1 enable_device board ready
    ≡ some (
      record board {
        is_keyboard_enabled = true;
        key_bit_vector = replicate 8 0;
        events = request (write_byte 0xed (write_byte 0 [])) ∷ request (write_byte 0xf4 []) ∷ [];
      },
      awake,
    )
unfolding init
set_device_power_state-enable_example =
    set_device_power_state-enable 1 board ready awake command_byte_run

dispatch_scan_code-pause_example :
    dispatch_scan_code 0x45 (dispatch_scan_code 0x1d (dispatch_scan_code sc_pause board))
    ≡ dispatch_scan_code 0x45 (dispatch_scan_code sc_extend board)
dispatch_scan_code-pause_example =
    dispatch_scan_code-pause 0x1d 0x45 board (omega arith) (omega arith) (omega arith) (omega arith)
