-- ===== src/Touchpad/Packets/Reports.antt =====
-- Which packets reach the gesture code, and in what form.
use apple_ps2smart_touch_pad.Common.{
  ℕ, ◌+◌, ◌<◌, Bool, true, false, List, [], ◌∷◌, ◌%◌, ◌≡◌, arith, some, if◌then◌else◌, ltb, ◌==◌,
}
use apple_ps2smart_touch_pad.Touchpad.{Gesture}
use apple_ps2smart_touch_pad.Touchpad.Packets.{
  Report, Driver, reconnect, retry_mode, elan_v4_packet, complete_packet,
}
use apple_ps2smart_touch_pad.Touchpad.Packets.Gates.{Poll, count_mice, gates}
use apple_ps2smart_touch_pad.Touchpad.Packets.Signatures.{v4_sane, is_shifted}

-- A packet of version 4 that is sane without the flag for CRC is never taken for a shifted one.
pub v4_sane-is_shifted : (packet : List ℕ) → v4_sane false packet ≡ true → is_shifted packet ≡ false
unfolding v4_sane is_shifted
v4_sane-is_shifted packet h = ground arith

module _ (gestures : Report → Gesture → Gesture) (fuel : ℕ) where
  retry_mode-calls : (d d' : Driver) → retry_mode gestures fuel d ≡ some d' → d'.calls ≡ d.calls
  unfolding retry_mode reconnect
  retry_mode-calls d d' e = ground arith

  -- A packet of version 4 that is not sane does not reach the gesture code, and uses up a try to set
  -- the mode if one is left.
  pub elan_v4_packet_rejects :
      (d : Driver)
      → v4_sane d.pad.crc_enabled d.pad.packet_buffer ≡ false
      → (elan_v4_packet gestures fuel d ≡ retry_mode gestures fuel d)
        × ((d' : Driver) → elan_v4_packet gestures fuel d ≡ some d' → d'.calls ≡ d.calls)
  unfolding elan_v4_packet
  elan_v4_packet_rejects d h = (ground arith, λ d' e. retry_mode-calls d d' (ground arith))

  -- While typing, the lid, the Fn key or an external mouse keep the touchpad off, a complete packet
  -- reaches no gesture code: the calls are what they were, and the next packet starts afresh.
  pub complete_packet_closed :
      (p : Poll) (now : ℕ) (d : Driver)
      → (gates p now d.pad.surroundings).0 ≡ false
      → (d' : Driver) → complete_packet gestures fuel p now d ≡ some d'
      → (d'.calls ≡ d.calls) × (d'.pad.packet_byte_count ≡ 0)
  unfolding complete_packet
  complete_packet_closed p now d h d' e = ground arith

-- How many of the kinds are mice.
unfoldable pub mice : List ℕ → ℕ
mice [] = 0
mice (k ∷ ks) = (if k == 2 then 1 else 0) + mice ks

-- With `m` mice counted before, all less than 256 together.
count_mice_lem :
    (ks : List ℕ) (m : ℕ) (found : Bool)
    → m + mice ks < 256
    → count_mice ks m found ≡ (if mice ks == 0 then found else ltb 1 (m + mice ks))
unfolding count_mice mice
count_mice_lem [] m found h = ground arith
count_mice_lem (k ∷ ks) m found h =
    ground
      (arith, count_mice_lem ks m found, count_mice_lem ks ((m + 1) % 256) (ltb 1 ((m + 1) % 256)))

-- When the registry lists at least one and less than 256 mice, an external mouse is found exactly if
-- it lists two; with none listed the answer stays what it was.
pub count_mice-mice :
    (ks : List ℕ) (found : Bool)
    → mice ks < 256
    → count_mice ks 0 found ≡ (if mice ks == 0 then found else ltb 1 (mice ks))
count_mice-mice ks found h = ground (arith, count_mice_lem ks 0 found)
