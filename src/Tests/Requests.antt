-- ===== src/Tests/Requests.antt =====
-- Requests, and the sequences of PS2Interface.cpp.
use apple_ps2smart_touch_pad.Common.{ℕ, true, false, List, [], ◌∷◌, ◌++◌, ◌≡◌, refl, has}
use apple_ps2smart_touch_pad.Controller.State.{keyboard, Controller, to_command, to_data}
use apple_ps2smart_touch_pad.Controller.Port.{
  output_ready, input_busy, stream_of, read_data, wait_input, write_data_port, write_command_port,
  interrupt_installed, dispatch_driver_interrupt,
}
use apple_ps2smart_touch_pad.Controller.Read.{
  dequeue_keyboard_data, queued_key, read_wait, read_data_port, matched, mismatched, own_byte,
  timed_out, dispatch_all, expect_wait, expect_keys, read_data_port_expecting,
}
use apple_ps2smart_touch_pad.Controller.Request.Commands.{
  run_command, run_commands, mouse_route, start_cursor, Cursor,
}
use apple_ps2smart_touch_pad.Controller.Request.{
  Request, Service, complete, process_request, process_all, process_request_queue, submit_request,
  submit_request_and_block,
}
use apple_ps2smart_touch_pad.Controller.Request.Wire.{
  mouse_commands, acked, process_request-acked, mouse_commands-outs,
  process_request_queue-submit_request,
}
use apple_ps2smart_touch_pad.Interface.{sliced_bytes, send_sliced_ps2_cmd, get_status}
use apple_ps2smart_touch_pad.Interface.Device.{Host, submit, free_request, fill}
use apple_ps2smart_touch_pad.Interface.Slices.{send_sliced_ps2_cmd-outs}
use apple_ps2smart_touch_pad.Interface.Memory.{no_memory_faults}
use apple_ps2smart_touch_pad.Tests.Inputs.{controller, host_of, commands, acks, params}

abbrev sample_rate_bytes : List ℕ
sample_rate_bytes = 0xf3 ∷ 100 ∷ []

abbrev sample_rate : Request
sample_rate = record {
  commands_count = 2;
  commands = mouse_commands sample_rate_bytes;
  has_completion = true;
  freed = false;
}

-- The second byte is answered by an error.
abbrev refusing : Controller
refusing = controller (commands 2) (0xfa ∷ 0xfe ∷ [])

-- The first byte is acknowledged, the second is not.
process_request-acked_example : (process_request sample_rate refusing).0.commands_count ≡ 1
unfolding acked read_data_port_expecting queued_key dequeue_keyboard_data read_wait expect_keys
    expect_wait own_byte matched mismatched timed_out dispatch_all dispatch_driver_interrupt
    interrupt_installed read_data output_ready stream_of input_busy wait_input has write_data_port
    write_command_port mouse_route
process_request-acked_example = process_request-acked sample_rate_bytes true false refusing

abbrev offline : Controller
offline = record (controller [] []) { hardware_offline = true }

mouse_commands-outs_example :
    (run_commands 2 0 (mouse_commands sample_rate_bytes) start_cursor refusing).ctl.outs
    ≡ to_command 0xd4 ∷ to_data 0xf3 ∷ to_command 0xd4 ∷ to_data 100 ∷ []
unfolding run_commands run_command mouse_route read_data_port read_data_port_expecting queued_key
    dequeue_keyboard_data read_wait expect_keys expect_wait own_byte matched mismatched timed_out
    dispatch_all dispatch_driver_interrupt interrupt_installed read_data output_ready stream_of
    input_busy wait_input has write_data_port write_command_port process_request
    process_request_queue process_all submit_request_and_block submit free_request complete fill
    acked
mouse_commands-outs_example = mouse_commands-outs sample_rate_bytes 0 start_cursor refusing

abbrev waiting : Service
waiting = record {
  ctl = refusing;
  request_queue = sample_rate ∷ [];
  queue_signalled = true;
  completed = [];
}

process_request_queue-submit_request_example :
    process_request_queue (submit_request sample_rate waiting)
    ≡ record (process_request_queue waiting) {
      ctl = (process_request sample_rate (process_request_queue waiting).ctl).1;
      completed =
          (process_request_queue waiting).completed
          ++ ((process_request sample_rate (process_request_queue waiting).ctl).0 ∷ []);
    }
process_request_queue-submit_request_example =
    process_request_queue-submit_request sample_rate waiting

abbrev fresh : Cursor
fresh = record { device_mode = keyboard; transmit_to_mouse = false }

abbrev multiplexed : Controller
multiplexed = record (controller (commands 1) (acks 1)) {
  uses_mux_mode = true;
  mux_route_prefix = 0x91;
}

-- A device that acknowledges nine commands, and one that says nothing.
abbrev willing : Host
willing = host_of (controller (commands 9) (acks 9))

abbrev mute : Host
mute = host_of (controller [] [])

no_memory_faults_example :
    ((get_status mute).1.memory_faults ≡ 0) × ((get_status mute).1.releases ≡ 1)
no_memory_faults_example = (no_memory_faults (params 0 0 0) 0xf4 100 2 0xe6 mute).2

send_sliced_ps2_cmd-outs_example :
    (send_sliced_ps2_cmd 0x01 willing).1.service.ctl.outs
    ≡ to_command 0xd4
      ∷ to_data 0xe6
      ∷ to_command 0xd4
      ∷ to_data 0xe8
      ∷ to_command 0xd4
      ∷ to_data 0
      ∷ to_command 0xd4
      ∷ to_data 0xe8
      ∷ to_command 0xd4
      ∷ to_data 0
      ∷ to_command 0xd4
      ∷ to_data 0xe8
      ∷ to_command 0xd4
      ∷ to_data 0
      ∷ to_command 0xd4
      ∷ to_data 0xe8
      ∷ to_command 0xd4
      ∷ to_data 1
      ∷ []
unfolding send_sliced_ps2_cmd sliced_bytes run_commands run_command mouse_route read_data_port
    read_data_port_expecting queued_key dequeue_keyboard_data read_wait expect_keys expect_wait
    own_byte matched mismatched timed_out dispatch_all dispatch_driver_interrupt interrupt_installed
    read_data output_ready stream_of input_busy wait_input has write_data_port write_command_port
    process_request process_request_queue process_all submit_request_and_block submit free_request
    complete fill
send_sliced_ps2_cmd-outs_example =
    send_sliced_ps2_cmd-outs 0x01 willing (record { online = refl; no_queue = refl }) refl
