-- ===== src/Touchpad/Packets.antt =====
-- ApplePS2SmartTouchPad.cpp, `interruptOccurred`: the bytes of the touchpad are put together to
-- packets, which are checked and passed on by hardware version; and `setDevicePowerState`.
--
-- The gesture code behind the `Process_` calls is a parameter: what it makes of a packet changes the
-- fingers, the button and the packets counted, which are all of the state here that it writes. The
-- order of the calls is kept in `calls`. The parameter is a function, so that it returns on every
-- packet; `Synaptics_report_absolute` has loops that do not always end. The result of polling the lid, the Fn key and the external
-- mouse, which IOKit answers, comes with the interrupt.
pub mod Signatures
pub mod Gates
pub mod Assembly
pub mod Reports
use apple_ps2smart_touch_pad.Common.{
  ℕ, zero, suc, ◌+◌, ◌-◌, ◌*◌, ◌/◌, ◌%◌, ◌^◌, Bool, true, false, not, List, [], ◌∷◌, ◌++◌, ◌==◌,
  ◌||◌, ◌&&◌, Option, none, some, if◌then◌else◌, bit_and, has, leb, ltb, get_or, set,
}
use apple_ps2smart_touch_pad.Controller.State.{PowerAction, disable_device, enable_device}
use apple_ps2smart_touch_pad.Interface.{sc_reset}
use apple_ps2smart_touch_pad.Touchpad.{
  Touchpad, Gesture, Surroundings, Vendor, std_mouse, std_elan_tech, std_focal_tech, std_synaptics,
}
use apple_ps2smart_touch_pad.Touchpad.Elan.{parity_bit}
use apple_ps2smart_touch_pad.Touchpad.Connect.{reconnect_touchpad, enable_touchpad}
use Signatures.{
  byte, packet_status, packet_absolute, packet_relative, packet_head, packet_tail,
  packet_trackpoint, syn_newabs, syn_newabs_strict, syn_newabs_relaxed, syn_oldabs, validate_byte,
  validate_loop, parity_holds, same_bytes, elan_debounce_packet_v2, elan_debounce_packet_v3,
  elan_debounce_packet_v3_2, elan_end_packet_v3, v3_type, v4_type, v4_sane, is_stray, is_shifted,
  unshifted,
}
use Gates.{
  since, count_mice, detect_external_mouse, poll_fn_keys, poll_lid, process_acpi_ioreg_polling,
  mouse_gate, acpi_gate, typing_gate, gates, Poll,
}

-- A call of the gesture code, with the packet and its type.
pub data Report : Type 0 where
  mouse_packet : (packet : List ℕ) → Report
  synaptics_absolute : (packet : List ℕ) → Report
  elan_v1 : (packet : List ℕ) → Report
  elan_v2v3 : (kind : ℕ) (packet : List ℕ) → Report
  elan_v4_focaltech : (kind : ℕ) (packet : List ℕ) → Report
  elan_trackpoint : (kind : ℕ) (packet : List ℕ) → Report

-- The driver with the calls that it has made.
pub record Driver : Type 0 where
  pub pad : Touchpad
  pub calls : List Report

-- The test for a start that is to be ignored, behind the byte that was stored.
unfoldable pub is_ignored_zero : Touchpad → Bool
is_ignored_zero t =
    t.packet_byte_count == 1
    && byte t.packet_buffer 0 == 0
    && t.gesture.packets_count == 0
    && t.gesture.fingers == 0

unfoldable pub is_reset : Touchpad → Bool
is_reset t =
    t.packet_byte_count == 2 && byte t.packet_buffer 0 == sc_reset && byte t.packet_buffer 1 == 0

abbrev pub is_elan : Vendor → Bool
is_elan std_elan_tech = true
is_elan _ = false

-- The test for a packet of the end of a stream, which is counted.
unfoldable pub is_empty_packet : Touchpad → Bool
is_empty_packet t =
    t.gesture.fingers == 0
    && not (has (byte t.packet_buffer 0) 0x03)
    && t.gesture.button_data == 0
    && byte t.packet_buffer 1 == 0
    && byte t.packet_buffer 2 == 0
    && byte t.packet_buffer 4 == 0
    && byte t.packet_buffer 5 == 0

module _ (gestures : Report → Gesture → Gesture) (fuel : ℕ) where
  unfoldable pub report : Report → Driver → Driver
  report r d = record d {
    calls = d.calls ++ (r ∷ []);
    pad = record d.pad { gesture = gestures r d.pad.gesture };
  }

  unfoldable pub reconnect : Driver → Option Driver
  reconnect d = elim (reconnect_touchpad fuel d.pad) [
    | none ↦ none
    | some t ↦ some (record d { pad = t })
  ]

  -- A packet that does not look like one of absolute mode: reconnect, as long as tries are left.
  unfoldable pub retry_mode : Driver → Option Driver
  retry_mode d =
      if d.pad.mode_set_tries == 0
      then some d
      else reconnect (record d { pad = record d.pad { mode_set_tries = d.pad.mode_set_tries - 1 } })

  unfoldable pub synaptics_packet : Driver → Driver
  synaptics_packet d =
      let packet = d.pad.packet_buffer in
      let kind =
        if d.pad.syn_packet_type == syn_newabs
        then validate_loop 5 0 packet syn_newabs_strict
        else d.pad.syn_packet_type in
      report (synaptics_absolute packet)
        (record d { pad = record d.pad { syn_packet_type = kind } })

  unfoldable pub focaltech_packet : Driver → Option Driver
  focaltech_packet d =
      let packet = d.pad.packet_buffer in
      let kind = bit_and (byte packet 0) 0xf in
      if kind == 3
      then some (report (elan_v4_focaltech packet_status packet) d)
      else if kind == 6
      then some (report (elan_v4_focaltech packet_absolute packet) d)
      else if kind == 9
      then some (report (elan_v4_focaltech packet_relative packet) d)
      else retry_mode d

  unfoldable pub elan_v1_packet : Driver → Driver
  elan_v1_packet d =
      let packet = d.pad.packet_buffer in
      if d.pad.parity_check && not (parity_holds d.pad.fw_version packet)
      then d
      else report (elan_v1 packet) d

  unfoldable pub elan_v2_packet : Driver → Driver
  elan_v2_packet d =
      let packet = d.pad.packet_buffer in
      if same_bytes packet elan_debounce_packet_v2 then d else report (elan_v2v3 0 packet) d

  unfoldable pub elan_v3_packet : Driver → Option Driver
  elan_v3_packet d =
      let packet = d.pad.packet_buffer in
      if same_bytes packet elan_end_packet_v3
        || same_bytes packet elan_debounce_packet_v3
        || same_bytes packet elan_debounce_packet_v3_2
      then some d
      else let kind = v3_type d.pad.crc_enabled packet in
        if kind == 255 && not d.pad.crc_enabled
        then retry_mode d
        else some (report (elan_v2v3 kind packet) d)

  -- The switch over the type of a sane packet of version 4; a status packet that is shifted is put
  -- right, and the first byte of the next packet is taken for read.
  unfoldable pub v4_switch : ℕ → Driver → Option Driver
  v4_switch kind d =
      let packet = d.pad.packet_buffer in
      if kind == packet_status
      then (if is_shifted packet
          then some (
              report (elan_v4_focaltech kind (unshifted packet)) (record d {
                pad = record d.pad {
                  packet_buffer = unshifted packet;
                  packet_byte_count = d.pad.packet_byte_count + 1;
                };
              }))
          else some (report (elan_v4_focaltech kind packet) d))
      else if kind == packet_absolute || kind == packet_relative
      then some (report (elan_v4_focaltech kind packet) d)
      else if kind == packet_trackpoint
      then some (if d.pad.disable_trackpoint then d else report (elan_trackpoint kind packet) d)
      else retry_mode d

  unfoldable pub elan_v4_packet : Driver → Option Driver
  elan_v4_packet d =
      let packet = d.pad.packet_buffer in
      let kind = v4_type d.pad.supports_track_point packet in
      let sane = v4_sane d.pad.crc_enabled packet in
      if sane
      then (if kind == packet_status && is_stray packet then some d else v4_switch kind d)
      else retry_mode d

  -- The switch over the hardware version.
  unfoldable pub process_packet : Driver → Option Driver
  process_packet d =
      let hw = d.pad.hw_version in
      if hw == 0
      then some (report (mouse_packet d.pad.packet_buffer) d)
      else if hw == 6
      then some (synaptics_packet d)
      else if hw == 5
      then focaltech_packet d
      else if hw == 1
      then some (elan_v1_packet d)
      else if hw == 2
      then some (elan_v2_packet d)
      else if hw == 3
      then elan_v3_packet d
      else if hw == 4
      then elan_v4_packet d
      else some d

  -- A complete packet.
  unfoldable pub complete_packet : Poll → ℕ → Driver → Option Driver
  complete_packet p now d =
      let ends : ℕ = if is_empty_packet d.pad then (d.pad.end_packets_count + 1) % 256 else 0 in
      let t = record d.pad { packet_byte_count = 0; end_packets_count = ends } in
      if ltb 1 ends
      then some (record d { pad = t })
      else let (is_open, s) = gates p now t.surroundings in
        let d1 = record d { pad = record t { surroundings = s } } in
        if is_open then process_packet d1 else some d1

  unfoldable pub start_over : Driver → Driver
  start_over d = record d { pad = record d.pad { packet_byte_count = 0; end_packets_count = 0 } }

  -- `interruptOccurred`.
  unfoldable pub interrupt_occurred : Poll → ℕ → ℕ → Driver → Option Driver
  interrupt_occurred p now received d =
      let t = record d.pad {
        packet_buffer = set d.pad.packet_buffer d.pad.packet_byte_count received;
        packet_byte_count = d.pad.packet_byte_count + 1;
      } in
      let d1 = record d { pad = t } in
      if is_ignored_zero t || is_reset t
      then (if t.packet_byte_count == 1 && is_elan t.vendor && t.crc_enabled
          then some d1
          else if byte t.packet_buffer 0 == sc_reset
          then elim (reconnect d1) [ none ↦ none | some d2 ↦ some (start_over d2) ]
          else some (start_over d1))
      else if t.packet_byte_count == t.packet_size
      then complete_packet p now d1
      else some d1

-- `setDevicePowerState`.
unfoldable pub set_device_power_state : ℕ → PowerAction → Touchpad → Option Touchpad
set_device_power_state fuel disable_device t = enable_touchpad fuel false t
set_device_power_state fuel enable_device t = reconnect_touchpad fuel (record t {
  mode_set_tries = 3;
  surroundings = record t.surroundings { accidental_input = false; disable_touchpad = false };
})
