-- ===== src/Touchpad/Packets/Assembly.antt =====
-- The packet buffer through any sequence of bytes.
use apple_ps2smart_touch_pad.Common.{
  ℕ, ◌+◌, ◌-◌, ◌%◌, ◌≤◌, ◌<◌, false, List, [], ◌∷◌, ◌≡◌, ◌≢◌, arith, none, some, Option,
  if◌then◌else◌, length, set, length-set, Option-cases, inl, inr,
}
use apple_ps2smart_touch_pad.Touchpad.{Touchpad, Gesture}
use apple_ps2smart_touch_pad.Touchpad.Connect.{reconnect_touchpad}
use apple_ps2smart_touch_pad.Touchpad.Packets.{
  Report, Driver, is_ignored_zero, is_reset, report, reconnect, retry_mode, synaptics_packet,
  focaltech_packet, elan_v1_packet, elan_v2_packet, elan_v3_packet, v4_switch, elan_v4_packet,
  process_packet, complete_packet, start_over, interrupt_occurred, is_empty_packet,
}
use apple_ps2smart_touch_pad.Touchpad.Packets.Gates.{Poll, gates}
use apple_ps2smart_touch_pad.Touchpad.Packets.Signatures.{unshifted, v4_type}
use apple_ps2smart_touch_pad.Touchpad.Connect.Frame.{reconnect_touchpad-SameBuffer}

-- What the processing of a packet may change of the buffer: one byte more at most counts as read,
-- and the tries left do not grow.
record Kept (d d' : Driver) : Type 0 where
  kept_length : length d'.pad.packet_buffer ≡ length d.pad.packet_buffer
  kept_size : d'.pad.packet_size ≡ d.pad.packet_size
  kept_count : d'.pad.packet_byte_count ≤ d.pad.packet_byte_count + 1
  kept_tries : d'.pad.mode_set_tries ≤ d.pad.mode_set_tries

length-unshifted : (xs : List ℕ) → length (unshifted xs) ≡ length xs
unfolding unshifted
length-unshifted xs = grind (arith, length-set)

-- A buffer of six bytes, and fewer bytes read than a packet has.
pub record IsAssembling (t : Touchpad) : Type 0 where
  pub buffer_length : length t.packet_buffer ≡ 6
  pub size_low : 3 ≤ t.packet_size
  pub size_high : t.packet_size ≤ 6
  pub count : t.packet_byte_count < t.packet_size

-- A byte from the touchpad.
pub record Interrupt : Type 0 where
  pub poll : Poll
  pub now : ℕ
  pub received : ℕ

module _ (gestures : Report → Gesture → Gesture) (fuel : ℕ) where
  reconnect-Kept : (d d' : Driver) → reconnect gestures fuel d ≡ some d' → Kept d d'
  unfolding reconnect
  reconnect-Kept d d' e = elim (Option-cases (reconnect_touchpad fuel d.pad)) [
    | inl p ↦ ground arith
    | inr (u, p) ↦ ground (arith, reconnect_touchpad-SameBuffer fuel d.pad u)
  ]

  retry_mode-Kept : (d d' : Driver) → retry_mode gestures fuel d ≡ some d' → Kept d d'
  unfolding retry_mode
  retry_mode-Kept d d' e =
      let d1 : Driver = record d {
        pad = record d.pad { mode_set_tries = d.pad.mode_set_tries - 1 };
      } in
      ground (arith, reconnect-Kept d1 d')

  v4_switch-Kept : (kind : ℕ) (d d' : Driver) → v4_switch gestures fuel kind d ≡ some d' → Kept d d'
  unfolding v4_switch report
  v4_switch-Kept kind d d' e =
      ground (arith, retry_mode-Kept d d', length-unshifted d.pad.packet_buffer)

  elan_v4_packet-Kept : (d d' : Driver) → elan_v4_packet gestures fuel d ≡ some d' → Kept d d'
  unfolding elan_v4_packet
  elan_v4_packet-Kept d d' e = ground (
    arith,
    retry_mode-Kept d d',
    v4_switch-Kept (v4_type d.pad.supports_track_point d.pad.packet_buffer) d d',
  )

  elan_v3_packet-Kept : (d d' : Driver) → elan_v3_packet gestures fuel d ≡ some d' → Kept d d'
  unfolding elan_v3_packet report
  elan_v3_packet-Kept d d' e = ground (arith, retry_mode-Kept d d')

  focaltech_packet-Kept : (d d' : Driver) → focaltech_packet gestures fuel d ≡ some d' → Kept d d'
  unfolding focaltech_packet report
  focaltech_packet-Kept d d' e = ground (arith, retry_mode-Kept d d')

  process_packet-Kept : (d d' : Driver) → process_packet gestures fuel d ≡ some d' → Kept d d'
  unfolding process_packet report synaptics_packet elan_v1_packet elan_v2_packet
  process_packet-Kept d d' e =
      ground (arith, elan_v4_packet-Kept d d', elan_v3_packet-Kept d d', focaltech_packet-Kept d d')

  complete_packet_lem :
      (p : Poll) (now : ℕ) (d d' : Driver)
      → complete_packet gestures fuel p now d ≡ some d'
      → (length d'.pad.packet_buffer ≡ length d.pad.packet_buffer)
        × (d'.pad.packet_size ≡ d.pad.packet_size)
        × (d'.pad.packet_byte_count ≤ 1)
        × (d'.pad.mode_set_tries ≤ d.pad.mode_set_tries)
  unfolding complete_packet
  complete_packet_lem p now d d' e =
      let ends : ℕ = if is_empty_packet d.pad then (d.pad.end_packets_count + 1) % 256 else 0 in
      let t = record d.pad { packet_byte_count = 0; end_packets_count = ends } in
      let s = (gates p now t.surroundings).1 in
      ground (arith, process_packet-Kept (record d { pad = record t { surroundings = s } }) d')

  -- The driver when a byte has been stored.
  abbrev stored : ℕ → Driver → Driver
  stored received d = record d {
    pad = record d.pad {
      packet_buffer = set d.pad.packet_buffer d.pad.packet_byte_count received;
      packet_byte_count = d.pad.packet_byte_count + 1;
    };
  }

  interrupt_occurred-IsAssembling :
      (p : Poll) (now received : ℕ) (d d' : Driver)
      → IsAssembling d.pad
      → interrupt_occurred gestures fuel p now received d ≡ some d'
      → IsAssembling d'.pad × (d'.pad.mode_set_tries ≤ d.pad.mode_set_tries)
  unfolding interrupt_occurred is_ignored_zero is_reset start_over
  interrupt_occurred-IsAssembling p now received d d' v e =
      let d1 = stored received d in
      elim (Option-cases (reconnect gestures fuel d1)) [
        | inl q ↦ ground (
          arith,
          v.buffer_length,
          v.size_low,
          v.size_high,
          v.count,
          length-set d.pad.packet_buffer d.pad.packet_byte_count received,
          complete_packet_lem p now d1 d',
        )
        | inr (d2, q) ↦ ground (
          arith,
          v.buffer_length,
          v.size_low,
          v.size_high,
          v.count,
          length-set d.pad.packet_buffer d.pad.packet_byte_count received,
          complete_packet_lem p now d1 d',
          reconnect-Kept d1 d2 q,
        )
      ]

  -- The bytes of a run, one interrupt after the other.
  unfoldable pub receive_all : List Interrupt → Driver → Option Driver
  unfolding interrupt_occurred
  receive_all [] d = some d
  receive_all (x ∷ xs) d = elim (interrupt_occurred gestures fuel x.poll x.now x.received d) [
    | none ↦ none
    | some d1 ↦ receive_all xs d1
  ]

  -- Whatever bytes arrive, and whatever the gesture code makes of the packets, fewer bytes count as
  -- read than a packet has, so that each byte is stored inside the buffer of six; the tries to set
  -- the mode do not grow.
  pub receive_all-IsAssembling :
      (xs : List Interrupt) (d d' : Driver)
      → IsAssembling d.pad
      → receive_all xs d ≡ some d'
      → IsAssembling d'.pad × (d'.pad.mode_set_tries ≤ d.pad.mode_set_tries)
  unfolding receive_all
  receive_all-IsAssembling [] d d' v e =
      ground (arith, v.buffer_length, v.size_low, v.size_high, v.count)
  receive_all-IsAssembling (x ∷ xs) d d' v e =
      let one = interrupt_occurred gestures fuel x.poll x.now x.received d in
      elim (Option-cases one) [
        | inl q ↦ ground arith
        | inr (d1, q) ↦
            let first = interrupt_occurred-IsAssembling x.poll x.now x.received d d1 v q in
            let rest = receive_all-IsAssembling xs d1 d' first.0 (ground arith) in
            (rest.0, omega (arith, first.1, rest.1))
      ]

  retry_mode_returns : (d : Driver) → d.pad.mode_set_tries ≡ 0 → retry_mode gestures fuel d ≡ some d
  unfolding retry_mode
  retry_mode_returns d h = ground arith

  elan_v4_packet_returns :
      (d : Driver) → d.pad.mode_set_tries ≡ 0 → elan_v4_packet gestures fuel d ≢ none
  unfolding elan_v4_packet v4_switch
  elan_v4_packet_returns d h = ground (arith, retry_mode_returns d)

  process_packet_returns :
      (d : Driver) → d.pad.mode_set_tries ≡ 0 → process_packet gestures fuel d ≢ none
  unfolding process_packet focaltech_packet elan_v3_packet
  process_packet_returns d h = ground (arith, retry_mode_returns d, elan_v4_packet_returns d)

  complete_packet_returns :
      (p : Poll) (now : ℕ) (d : Driver)
      → d.pad.mode_set_tries ≡ 0
      → complete_packet gestures fuel p now d ≢ none
  unfolding complete_packet
  complete_packet_returns p now d h =
      let ends : ℕ = if is_empty_packet d.pad then (d.pad.end_packets_count + 1) % 256 else 0 in
      let t = record d.pad { packet_byte_count = 0; end_packets_count = ends } in
      let s = (gates p now t.surroundings).1 in
      ground (arith, process_packet_returns (record d { pad = record t { surroundings = s } }))

  -- Provided that the gesture code behind it returns, as it is a function here, the interrupt handler
  -- returns when no try to set the mode is left and the byte does not complete the announcement of a
  -- reset: around the gesture code only a reconnection may fail to come to its end.
  pub interrupt_occurred_returns :
      (p : Poll) (now received : ℕ) (d : Driver)
      → d.pad.mode_set_tries ≡ 0
      → is_reset (stored received d).pad ≡ false
      → interrupt_occurred gestures fuel p now received d ≢ none
  unfolding interrupt_occurred is_ignored_zero
  interrupt_occurred_returns p now received d h r =
      ground (arith, complete_packet_returns p now (stored received d))
