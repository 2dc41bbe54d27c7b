-- ===== src/Tests/Pads.antt =====
-- The touchpad driver.
use apple_ps2smart_touch_pad.Common.{
  ℕ, true, false, none, List, [], ◌∷◌, ◌++◌, ◌+◌, ◌≢◌, refl, arith, has,
}
use apple_ps2smart_touch_pad.Controller.Port.{
  output_ready, input_busy, stream_of, read_data, wait_input, write_data_port, write_command_port,
  interrupt_installed, dispatch_driver_interrupt,
}
use apple_ps2smart_touch_pad.Controller.Read.{
  dequeue_keyboard_data, queued_key, read_wait, read_data_port, matched, mismatched, own_byte,
  timed_out, dispatch_all, expect_wait, expect_keys, read_data_port_expecting,
}
use apple_ps2smart_touch_pad.Controller.Request.Commands.{run_command, run_commands, mouse_route}
use apple_ps2smart_touch_pad.Controller.Request.{
  complete, process_request, process_all, process_request_queue, submit_request_and_block,
}
use apple_ps2smart_touch_pad.Interface.{
  sliced_bytes, send_sliced_ps2_cmd, get_mouse_information, send_synaptics_cmd,
  send_elantech_ps2_cmd, elantech_tries, elantech_round, send_elantech_cmd,
}
use apple_ps2smart_touch_pad.Interface.Device.{Host, submit, free_request, fill}
use apple_ps2smart_touch_pad.Touchpad.{Touchpad, Gesture, std_elan_tech}
use apple_ps2smart_touch_pad.Touchpad.Elan.Access.{any_fails, refused, write_reg, read_reg}
use apple_ps2smart_touch_pad.Touchpad.Elan.Mode.{read_back, write_mode, set_absolute_mode}
use apple_ps2smart_touch_pad.Touchpad.Elan.Versions.{
  ic_version, hw_version_of, set_flags, set_properties,
}
use apple_ps2smart_touch_pad.Touchpad.Elan.Ranges.{
  queried_range, reported_range, set_traces, range_of, range_x, range_y, set_range,
}
use apple_ps2smart_touch_pad.Touchpad.Elan.{
  query_capabilities, configure, setup_touchpad, is_signatures_valid, is_none_of,
}
use apple_ps2smart_touch_pad.Touchpad.Elan.Setup.{IsSetUp, setup_touchpad-IsSetUp}
use apple_ps2smart_touch_pad.Touchpad.Packets.{
  Report, Driver, elan_v4_focaltech, report, is_reset, interrupt_occurred, complete_packet,
  elan_v4_packet, is_ignored_zero, is_empty_packet, process_packet, v4_switch,
}
use apple_ps2smart_touch_pad.Touchpad.Packets.Gates.{
  Poll, gates, mouse_gate, acpi_gate, typing_gate,
}
use apple_ps2smart_touch_pad.Touchpad.Packets.Signatures.{v4_type, v4_sane, is_shifted, is_stray}
use apple_ps2smart_touch_pad.Touchpad.Packets.Assembly.{
  IsAssembling, Interrupt, receive_all, receive_all-IsAssembling, interrupt_occurred_returns,
}
use apple_ps2smart_touch_pad.Tests.Inputs.{controller, host_of, commands, answers, acks, params}

-- The answers to `sendSynapticsCmd`.
abbrev pub synaptics_answer : ℕ → ℕ → ℕ → List ℕ
synaptics_answer a b c = acks 10 ++ (a ∷ b ∷ c ∷ [])

abbrev pub synaptics_statuses : List ℕ
synaptics_statuses = commands 10 ++ answers 3

-- Hardware of version 2 with firmware 0x020800: the version, the capabilities, the reset, three
-- registers of seven commands, and the read-back.
abbrev version_2 : Host
version_2 = host_of (
    controller
      (synaptics_statuses
        ++ synaptics_statuses
        ++ commands 1
        ++ commands 21
        ++ commands 5
        ++ answers 3)
      (synaptics_answer 0x02 0x08 0x00
        ++ synaptics_answer 0x00 0x12 0x0c
        ++ acks 1
        ++ acks 21
        ++ acks 5
        ++ (0x54 ∷ 0 ∷ 0 ∷ [])))

abbrev pub mute : Host
mute = host_of (controller [] [])

abbrev pub pad : Host → ℕ → Touchpad
pad h fw = record {
  host = h;
  vendor = std_elan_tech;
  packet_buffer = 0 ∷ 0 ∷ 0 ∷ 0 ∷ 0 ∷ 0 ∷ [];
  packet_byte_count = 0;
  end_packets_count = 0;
  packet_size = 6;
  mode_set_tries = 0;
  gesture = record { fingers = 0; button_data = 0; packets_count = 0 };
  surroundings = record {
    usb_mouse_disables_trackpad = false;
    external_mouse_found = false;
    last_mouse_check = 0;
    mouse_poll_rate = 0;
    is_asus_notebook = false;
    enable_lid_polling = false;
    last_fn_key_check = 0;
    acpi_poll_rate = 0;
    fn_key_disabled_touchpad = false;
    lid_closed = false;
    is_type_mode_enabled = false;
    accidental_input = false;
    last_key_press_time = 0;
    acc_input_time_out = 0;
    tap_enable_touchpad = false;
    keys_count = 0;
    disable_touchpad = false;
  };
  sample_rate = 100;
  resolution = 3;
  scaling = 0xe7;
  hw_version = 0;
  is_click_pad = false;
  xmin = 0;
  ymin = 0;
  xmax = 0;
  ymax = 0;
  xcenter = 0;
  ycenter = 0;
  fw_version = fw;
  elan_capabs = params 0 0 0;
  v3_elan_legacy_mode = false;
  parity_check = true;
  jumpy_cursor = false;
  reports_pressure = false;
  crc_enabled = false;
  supports_track_point = false;
  traces_width = 0;
  reg_07 = 0;
  reg_10 = 0;
  reg_11 = 0;
  reg_21 = 0;
  disable_trackpoint = false;
  syn_packet_type = 0;
  syn_mode = 0;
  syn_absolute_mode = true;
  syn_disable_gesture = false;
  syn_capabilities = 0;
  syn_ext_cap_0c = 0;
}

setup_touchpad-IsSetUp_example : IsSetUp (setup_touchpad (pad version_2 0)).1
unfolding run_commands run_command mouse_route read_data_port read_data_port_expecting queued_key
    dequeue_keyboard_data read_wait expect_keys expect_wait own_byte matched mismatched timed_out
    dispatch_all dispatch_driver_interrupt interrupt_installed read_data output_ready stream_of
    input_busy wait_input has write_data_port write_command_port process_request
    process_request_queue process_all submit_request_and_block submit free_request complete fill
    any_fails send_sliced_ps2_cmd sliced_bytes get_mouse_information send_synaptics_cmd
    send_elantech_ps2_cmd elantech_tries elantech_round send_elantech_cmd refused write_reg read_reg
    read_back write_mode set_absolute_mode ic_version hw_version_of set_flags set_properties
    queried_range reported_range set_traces range_of range_x range_y set_range query_capabilities
    configure setup_touchpad is_signatures_valid is_none_of
setup_touchpad-IsSetUp_example = setup_touchpad-IsSetUp (pad version_2 0) (omega arith) refl

-- Gesture code that counts the packets as fingers.
abbrev counting : Report → Gesture → Gesture
counting r g = record g { fingers = g.fingers + 1 }

abbrev quiet : Poll
quiet = record { hid_kinds = none; fn_keys = none; lid = none }

abbrev at : ℕ → ℕ → Interrupt
at now b = record { poll = quiet; now = now; received = b }

abbrev driver : Driver
driver = record { pad = record (pad mute 0x461f00) { hw_version = 4 }; calls = [] }

abbrev assembling : IsAssembling driver.pad
assembling = record {
  buffer_length = refl;
  size_low = omega arith;
  size_high = omega arith;
  count = omega arith;
}

abbrev a_packet : List Interrupt
a_packet = at 1 0x34 ∷ at 2 0x01 ∷ at 3 0x00 ∷ at 4 0x10 ∷ at 5 0x00 ∷ at 6 0x00 ∷ at 7 0x34 ∷ []

-- What the driver is when the packet has been received.
abbrev received_packet : Driver
received_packet = record {
  pad = record driver.pad {
    packet_buffer = 0x34 ∷ 0x01 ∷ 0x00 ∷ 0x10 ∷ 0x00 ∷ 0x00 ∷ [];
    packet_byte_count = 1;
    gesture = record { fingers = 1; button_data = 0; packets_count = 0 };
  };
  calls = elan_v4_focaltech 0 (0x34 ∷ 0x01 ∷ 0x00 ∷ 0x10 ∷ 0x00 ∷ 0x00 ∷ []) ∷ [];
}

receive_all-IsAssembling_example : IsAssembling received_packet.pad
unfolding receive_all interrupt_occurred is_ignored_zero is_reset complete_packet is_empty_packet
    gates mouse_gate acpi_gate typing_gate process_packet elan_v4_packet v4_type v4_sane v4_switch
    is_stray is_shifted report has
receive_all-IsAssembling_example =
    (receive_all-IsAssembling counting 3 a_packet driver received_packet assembling refl).0

interrupt_occurred_returns_example : interrupt_occurred counting 3 quiet 1 0x34 driver ≢ none
unfolding is_reset
interrupt_occurred_returns_example =
    interrupt_occurred_returns counting 3 quiet 1 0x34 driver refl refl

-- A status packet that began late, with CRC; and one that is not sane, without.
abbrev late : Driver
late = record driver {
  pad = record driver.pad {
    crc_enabled = true;
    packet_buffer = 0x01 ∷ 0x00 ∷ 0x10 ∷ 0x00 ∷ 0x00 ∷ 0x00 ∷ [];
  };
}
