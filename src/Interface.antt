-- ===== src/Interface.antt =====
-- ApplePS2SmartTouchPad/PS2Interface.cpp: the PS/2 command sequences that the touchpad driver sends
-- through the mouse nub, which hands every request to the controller.
pub mod Device
pub mod Slices
pub mod Sent
pub mod Submitted
pub mod Settled
pub mod Memory
use apple_ps2smart_touch_pad.Common.{
  ℕ, zero, suc, ◌+◌, ◌-◌, ◌/◌, ◌%◌, Bool, true, false, List, [], ◌∷◌, ◌++◌, ◌==◌, ◌||◌, Option,
  none, some, if◌then◌else◌, length, get_or, bit_or, clear_bits, replicate,
}
use apple_ps2smart_touch_pad.Controller.State.{
  sc_acknowledge, cp_get_command_byte, cp_set_command_byte, dp_set_defaults_and_disable,
}
use apple_ps2smart_touch_pad.Controller.Request.{Request}
use apple_ps2smart_touch_pad.Controller.Request.Commands.{
  Ps2Command, c_read_data_port, c_read_mouse_data_port, c_read_data_port_and_compare,
  c_write_data_port, c_write_command_port, c_send_mouse_command_and_compare_ack,
}
use Device.{
  IoReturn, success, error, io_error, no_memory, no_device, Host, Params, new_request, fill, submit,
  free_request, answer_at, failed,
}

abbrev pub dp_set_mouse_scaling_1_to_1 : ℕ
dp_set_mouse_scaling_1_to_1 = 0xe6

abbrev pub dp_set_mouse_resolution : ℕ
dp_set_mouse_resolution = 0xe8

abbrev pub dp_get_mouse_information : ℕ
dp_get_mouse_information = 0xe9

abbrev pub dp_set_mouse_sample_rate : ℕ
dp_set_mouse_sample_rate = 0xf3

abbrev pub dp_enable : ℕ
dp_enable = 0xf4

abbrev pub dp_reset : ℕ
dp_reset = 0xff

abbrev pub sc_reset : ℕ
sc_reset = 0xaa

abbrev pub etd_ps2_custom_command : ℕ
etd_ps2_custom_command = 0xf8

abbrev pub etd_ps2_command_tries : ℕ
etd_ps2_command_tries = 3

abbrev pub send : ℕ → Ps2Command
send b = record { command = c_send_mouse_command_and_compare_ack; in_or_out = b }

abbrev pub read_port : Ps2Command
read_port = record { command = c_read_data_port; in_or_out = 0 }

abbrev pub read_mouse_port : Ps2Command
read_mouse_port = record { command = c_read_mouse_data_port; in_or_out = 0 }

-- `commandsCount` is what it was when the request was submitted.
abbrev pub done : ℕ → Request → Bool
done n r = r.commands_count == n

-- `getMouseInformation`: what it reads is stored through `param` if all goes well.
unfoldable pub get_mouse_information : Params → Host → IoReturn × Params × Host
get_mouse_information param h =
    let (r, h1) =
      submit (new_request (send dp_get_mouse_information ∷ read_port ∷ read_port ∷ read_port ∷ []))
        h in
    let (r', h2) = free_request r h1 in
    if done 4 r
    then (success, record { p0 = answer_at r 1; p1 = answer_at r 2; p2 = answer_at r 3 }, h2)
    else (io_error, param, h2)

-- The command of `sendSlicedPS2Cmd`: scaling 1:1, then two bits at a time as a resolution.
unfoldable pub sliced_bytes : ℕ → List ℕ
sliced_bytes cmd =
    dp_set_mouse_scaling_1_to_1
    ∷ dp_set_mouse_resolution
    ∷ (cmd / 64 % 4)
    ∷ dp_set_mouse_resolution
    ∷ (cmd / 16 % 4)
    ∷ dp_set_mouse_resolution
    ∷ (cmd / 4 % 4)
    ∷ dp_set_mouse_resolution
    ∷ (cmd % 4)
    ∷ []

abbrev pub sends : List ℕ → List Ps2Command
sends [] = []
sends (b ∷ bs) = send b ∷ sends bs

-- On failure the request is freed in the branch and once more behind it.
unfoldable pub send_sliced_ps2_cmd : ℕ → Host → IoReturn × Host
unfolding sliced_bytes
send_sliced_ps2_cmd cmd h =
    let (r, h1) = submit (new_request (sends (sliced_bytes cmd))) h in
    if done 9 r
    then (success, (free_request r h1).1)
    else let (r', h2) = free_request r h1 in (io_error, (free_request r' h2).1)

-- `sendSynapticsCmd`.
unfoldable pub send_synaptics_cmd : ℕ → Params → Host → IoReturn × Params × Host
send_synaptics_cmd cmd param h =
    let (ret, h1) = send_sliced_ps2_cmd cmd h in
    if failed ret
    then (error, param, h1)
    else let (ret', param', h2) = get_mouse_information param h1 in
      (if failed ret' then error else success, param', h2)

-- `sendElantechCmd`: what stands in the request is stored through `param` in any case, and on
-- failure the request is freed twice.
unfoldable pub send_elantech_cmd : ℕ → Host → IoReturn × Params × Host
send_elantech_cmd cmd h =
    let (r, h1) =
      submit
        (new_request (
          send etd_ps2_custom_command
          ∷ send cmd
          ∷ send dp_get_mouse_information
          ∷ read_port
          ∷ read_port
          ∷ read_port
          ∷ []))
        h in
    let param : Params = record { p0 = answer_at r 3; p1 = answer_at r 4; p2 = answer_at r 5 } in
    if done 6 r
    then (success, param, (free_request r h1).1)
    else let (r', h2) = free_request r h1 in (io_error, param, (free_request r' h2).1)

-- A round of `sendElactechPS2Cmd`: whether the command was acknowledged. The request is allocated
-- before the loop and freed in each round.
unfoldable pub elantech_round : ℕ → Request → Host → Bool × Request × Host
elantech_round cmd r h =
    let (r1, h1) = fill (send cmd ∷ []) r h in
    let (r2, h2) = submit r1 h1 in let (r3, h3) = free_request r2 h2 in (done 1 r2, r3, h3)

unfoldable pub elantech_tries : ℕ → ℕ → Request → Host → IoReturn × Host
elantech_tries zero cmd r h = (io_error, h)
elantech_tries (suc tries) cmd r h =
    let (acknowledged, r', h') = elantech_round cmd r h in
    elim acknowledged [ true ↦ (success, h') | false ↦ elantech_tries tries cmd r' h' ]

unfoldable pub send_elantech_ps2_cmd : ℕ → Host → IoReturn × Host
send_elantech_ps2_cmd cmd h = elantech_tries etd_ps2_command_tries cmd (new_request []) h

unfoldable pub send_ps2_cmd : ℕ → Host → IoReturn × Host
send_ps2_cmd cmd h =
    let (r, h1) = submit (new_request (send cmd ∷ [])) h in
    (if done 1 r then success else io_error, (free_request r h1).1)

unfoldable pub get_status : Host → IoReturn × Host
get_status h =
    let (r, h1) =
      submit
        (new_request (
          send dp_set_defaults_and_disable
          ∷ send dp_set_defaults_and_disable
          ∷ send dp_set_defaults_and_disable
          ∷ send dp_get_mouse_information
          ∷ read_port
          ∷ read_port
          ∷ read_port
          ∷ []))
        h in
    (if done 7 r then success else io_error, (free_request r h1).1)

abbrev no_params : Params
no_params = record { p0 = 0; p1 = 0; p2 = 0 }

unfoldable pub initialize_mouse : ℕ → ℕ → ℕ → Host → IoReturn × Host
initialize_mouse sample_rate resolution scaling h =
    let (r, h1) =
      submit
        (new_request (
          sends (
            dp_set_mouse_sample_rate ∷ sample_rate ∷ dp_set_mouse_resolution ∷ resolution ∷ scaling
            ∷ [])))
        h in
    let (r', h2) = free_request r h1 in
    if done 5 r
    then (let (ret, param, h3) = get_mouse_information no_params h2 in (success, (get_status h3).1))
    else (error, h2)

unfoldable pub reset_mouse : Host → IoReturn × Host
reset_mouse h =
    let (r, h1) =
      submit
        (new_request (
          send dp_set_defaults_and_disable
          ∷ send dp_reset
          ∷ read_mouse_port
          ∷ read_mouse_port
          ∷ read_mouse_port
          ∷ []))
        h in
    let (r', h2) = free_request r h1 in
    if done 5 r
    then (if answer_at r 2 == sc_reset || answer_at r 3 == sc_reset || answer_at r 4 == sc_reset
        then (success, h2)
        else (io_error, h2))
    else (io_error, h2)

-- A round of `setCommandByte`: whether the test-and-set went through.
unfoldable pub command_byte_round : ℕ → ℕ → Request → Host → Bool × Request × Host
command_byte_round set_bits clear r h =
    let (r1, h1) =
      fill
        (record { command = c_write_command_port; in_or_out = cp_get_command_byte }
          ∷ read_port
          ∷ [])
        r h in
    let (r2, h2) = submit r1 h1 in
    let b = answer_at r2 1 in
    let (r3, h3) =
      fill
        (record { command = c_write_command_port; in_or_out = cp_get_command_byte }
          ∷ record { command = c_read_data_port_and_compare; in_or_out = b }
          ∷ record { command = c_write_command_port; in_or_out = cp_set_command_byte }
          ∷ record { command = c_write_data_port; in_or_out = clear_bits (bit_or b set_bits) clear }
          ∷ [])
        r2 h2 in
    let (r4, h4) = submit r3 h3 in (done 4 r4, r4, h4)

-- `setCommandByte`, with `fuel` rounds; `none` is a loop that has not ended by then.
unfoldable pub command_byte_loop : ℕ → ℕ → ℕ → Request → Host → Option Host
unfolding command_byte_round
command_byte_loop zero set_bits clear r h = none
command_byte_loop (suc fuel) set_bits clear r h =
    let (through, r', h') = command_byte_round set_bits clear r h in
    elim through [
      | true ↦ some (free_request r' h').1
      | false ↦ command_byte_loop fuel set_bits clear r' h'
    ]

unfoldable pub set_command_byte : ℕ → ℕ → ℕ → Host → Option Host
unfolding command_byte_loop
set_command_byte fuel set_bits clear h = command_byte_loop fuel set_bits clear (new_request []) h
