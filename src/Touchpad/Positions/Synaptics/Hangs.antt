-- ===== src/Touchpad/Positions/Synaptics/Hangs.antt =====
-- The scrolling of the middle button, through the whole handler of a Synaptics packet.
use apple_ps2smart_touch_pad.Common.{
  ℕ, ◌+◌, ◌%◌, ◌^◌, ◌<◌, true, false, not, ◌&&◌, List, Option, none, some, ◌==◌, ltb, has, ◌≡◌,
  refl, ap, ◌∙◌, arith, sub_ℕ, pos, ℤ, if_holds, and_then,
}
use apple_ps2smart_touch_pad.Touchpad.Positions.{Touch, byte}
use apple_ps2smart_touch_pad.Touchpad.Positions.Synaptics.{
  SynapticsReport, Decoded, position_at, dealt_with, tells_fingers, old_w, old_x, old_pressure,
  new_w, new_x, new_y, signed_word, unwrapped, find_ext_buttons, find_middle_scroll, decode_new,
  decode_old, decode_packet,
}
use apple_ps2smart_touch_pad.Touchpad.Positions.Synaptics.Scroll.{
  middle_scroll-none, middle_scroll-odd,
}
use apple_ps2smart_touch_pad.Touchpad.Positions.Synaptics.Events.{
  handled, is_pass_through, report_position, synaptics_report_absolute,
}

-- A packet of the new kind that tells a position.
pub record TellsPosition (packet : List ℕ) (r : SynapticsReport) : Type 0 where
  pub is_new : has r.model_id 0x80 ≡ true
  pub is_primary : (tells_fingers r && new_w packet == 2) ≡ false
  pub is_valid : (ltb (new_x packet) 736 && ltb 0 (byte packet 2)) ≡ false

-- The middle button scrolls.
pub record ScrollsMiddle (packet : List ℕ) (r : SynapticsReport) : Type 0 where
  pub is_scroll : (new_w packet == 2) ≡ true
  pub no_click_pad : r.hand.pad.is_click_pad ≡ false
  pub has_middle : has r.hand.pad.syn_capabilities 0x040000 ≡ true

abbrev decoded : List ℕ → SynapticsReport → SynapticsReport
decoded packet r =
    find_ext_buttons packet (find_middle_scroll packet (record r { w = new_w packet }))

decode-position :
    (gestures : Touch → SynapticsReport → SynapticsReport) (packet : List ℕ) (r : SynapticsReport)
    → TellsPosition packet r
    → decode_packet gestures packet r
      ≡ position_at
          (pos (new_x packet))
          (sub_ℕ (r.hand.pad.ymax + r.hand.pad.ymin) (new_y packet))
          (byte packet 2)
          (decoded packet r)
unfolding decode_packet decode_new tells_fingers
decode-position gestures packet r t = rw (t.is_new, t.is_primary, t.is_valid) refl

ext_buttons-m_scroll :
    (packet : List ℕ) (r : SynapticsReport) → (find_ext_buttons packet r).m_scroll ≡ r.m_scroll
unfolding find_ext_buttons
ext_buttons-m_scroll packet r = if_holds (λ s. s.m_scroll ≡ r.m_scroll) _ _ r refl refl

decoded-scrolls :
    (packet : List ℕ) (r : SynapticsReport)
    → ScrollsMiddle packet r
    → (decoded packet r).m_scroll ≡ signed_word (byte packet 1)
unfolding find_middle_scroll
decoded-scrolls packet r s =
    ext_buttons-m_scroll packet (find_middle_scroll packet (record r { w = new_w packet }))
    ∙ rw (s.no_click_pad, s.has_middle, s.is_scroll) refl

decoded-keeps :
    (packet : List ℕ) (r : SynapticsReport)
    → (new_w packet == 2) ≡ false
    → (decoded packet r).m_scroll ≡ r.m_scroll
unfolding find_middle_scroll
decoded-keeps packet r e =
    ext_buttons-m_scroll packet (find_middle_scroll packet (record r { w = new_w packet }))
    ∙ ground (arith, e)

-- The kind of the touchpad stays.
SamePad : SynapticsReport → SynapticsReport → Type 0
SamePad r s = (s.model_id ≡ r.model_id) × (s.hand ≡ r.hand)

decoded-SamePad :
    (packet : List ℕ) (r : SynapticsReport) (m : ℕ)
    → SamePad r (record (decoded packet r) { m_scroll = m })
unfolding SamePad find_ext_buttons find_middle_scroll
decoded-SamePad packet r m =
    let r1 = find_middle_scroll packet (record r { w = new_w packet }) in
    let same1 : SamePad r r1 = if_holds (SamePad r) _ _ _ (refl, refl) (refl, refl) in
    if_holds (λ s. SamePad r (record s { m_scroll = m })) _ _ r1 same1 same1

TellsPosition-SamePad :
    (packet : List ℕ) (r s : SynapticsReport)
    → SamePad r s
    → TellsPosition packet r
    → TellsPosition packet s
unfolding SamePad tells_fingers
TellsPosition-SamePad packet r s (m, h) t = record {
  is_new = rw m t.is_new;
  is_primary = rw h t.is_primary;
  is_valid = t.is_valid;
}

module _ (gestures : Touch → SynapticsReport → SynapticsReport) (fuel now : ℕ) where
  position-hangs :
      (packet : List ℕ) (x y : ℤ) (pressure : ℕ) (r : SynapticsReport)
      → r.m_scroll % 2 ≡ 0
      → (r.m_scroll == 0) ≡ false
      → report_position gestures fuel now packet x y pressure r ≡ none
  unfolding report_position and_then
  position-hangs packet x y pressure r e n = rw (n, middle_scroll-none fuel r.m_scroll e) refl

  position-scrolls :
      (packet : List ℕ) (x y : ℤ) (pressure : ℕ) (r : SynapticsReport)
      → r.m_scroll % 2 ≡ 1
      → 2 ^ 32 < fuel
      → report_position gestures fuel now packet x y pressure r
        ≡ some (record r { m_scroll = 4294967294 })
  unfolding report_position and_then
  position-scrolls packet x y pressure r e h =
      let n : (r.m_scroll == 0) ≡ false = ground arith in
      rw (n, middle_scroll-odd fuel r.m_scroll e h) refl

  report-decoded :
      (packet : List ℕ) (r : SynapticsReport)
      → TellsPosition packet r
      → synaptics_report_absolute gestures fuel now packet r
        ≡ report_position gestures fuel now packet
            (unwrapped (pos (new_x packet)))
            (unwrapped (sub_ℕ (r.hand.pad.ymax + r.hand.pad.ymin) (new_y packet)))
            (byte packet 2)
            (decoded packet r)
  unfolding synaptics_report_absolute
  report-decoded packet r t =
      ap (handled gestures fuel now packet) (decode-position gestures packet r t)

  report-hangs :
      (packet : List ℕ) (r : SynapticsReport)
      → TellsPosition packet r
      → (decoded packet r).m_scroll % 2 ≡ 0
      → ((decoded packet r).m_scroll == 0) ≡ false
      → synaptics_report_absolute gestures fuel now packet r ≡ none
  report-hangs packet r t e n =
      report-decoded packet r t ∙ position-hangs packet _ _ (byte packet 2) (decoded packet r) e n

-- On a touchpad with a middle button that is no click pad, a packet of the new kind that tells a valid
-- position and scrolls by an even amount other than 0 keeps the driver in its loops: however many
-- rounds they are given, they go on.
pub even_scroll-hangs :
    (gestures : Touch → SynapticsReport → SynapticsReport) (fuel now : ℕ) (packet : List ℕ)
    (r : SynapticsReport)
    → TellsPosition packet r
    → ScrollsMiddle packet r
    → byte packet 1 % 2 ≡ 0
    → 0 < byte packet 1
    → synaptics_report_absolute gestures fuel now packet r ≡ none
unfolding signed_word
even_scroll-hangs gestures fuel now packet r t s e p =
    let d = decoded-scrolls packet r s in
    report-hangs gestures fuel now packet r t (ground (arith, d)) (ground (arith, d))

-- Of such packets, one that scrolls by an odd amount is dealt with, in some more than 2^32 rounds at
-- the most; but then the next packet that tells a position without scrolling keeps the driver in the
-- loops, however many rounds they are given.
pub odd_scroll-hangs :
    (gestures : Touch → SynapticsReport → SynapticsReport) (now now' fuel : ℕ)
    (packet next : List ℕ) (r : SynapticsReport)
    → TellsPosition packet r
    → ScrollsMiddle packet r
    → byte packet 1 % 2 ≡ 1
    → TellsPosition next r
    → (new_w next == 2) ≡ false
    → (r1 : SynapticsReport) × (synaptics_report_absolute gestures (2 ^ 32 + 1) now packet r
        ≡ some r1)
      × (synaptics_report_absolute gestures fuel now' next r1 ≡ none)
unfolding signed_word
odd_scroll-hangs gestures now now' fuel packet next r t s o u e =
    let d = decoded-scrolls packet r s in
    let r1 = record (decoded packet r) { m_scroll = 4294967294 } in
    let k = decoded-keeps next r1 e in
    (
      r1,
      report-decoded gestures (2 ^ 32 + 1) now packet r t
          ∙ position-scrolls gestures (2 ^ 32 + 1) now packet _ _ (byte packet 2) (decoded packet r)
              (ground (arith, d)) (omega arith),
      report-hangs gestures fuel now' next r1
          (TellsPosition-SamePad next r r1 (decoded-SamePad packet r 4294967294) u)
          (ground (arith, k)) (ground (arith, k)),
    )

no_scroll :
    (packet : List ℕ) (r : SynapticsReport)
    → has r.hand.pad.syn_capabilities 0x040000 ≡ false
    → r.m_scroll ≡ 0
    → (decoded packet r).m_scroll ≡ 0
unfolding find_middle_scroll
no_scroll packet r c z =
    ext_buttons-m_scroll packet (find_middle_scroll packet (record r { w = new_w packet }))
    ∙ rw (c, z) (ground arith)

IsHandled : Option SynapticsReport → Type 0
IsHandled o = (r : SynapticsReport) × (o ≡ some r)

position-returns :
    (gestures : Touch → SynapticsReport → SynapticsReport) (fuel now : ℕ) (packet : List ℕ)
    (x y : ℤ) (pressure : ℕ) (r : SynapticsReport)
    → r.m_scroll ≡ 0
    → IsHandled (report_position gestures fuel now packet x y pressure r)
unfolding report_position IsHandled
position-returns gestures fuel now packet x y pressure r z =
    let stays : not (r.m_scroll == 0) ≡ false = ground arith in
    rw stays (if_holds IsHandled (is_pass_through packet r) _ _ (_, refl) (_, refl))

-- What is decoded to a position goes on without scrolling.
IsCalm : Decoded → Type 0
IsCalm (dealt_with r) = true ≡ true
IsCalm (position_at x y pressure r) = r.m_scroll ≡ 0

dealt_with-IsCalm : (r : SynapticsReport) → IsCalm (dealt_with r)
unfolding IsCalm
dealt_with-IsCalm r = refl

position-IsCalm :
    (x y : ℤ) (pressure : ℕ) (r : SynapticsReport)
    → r.m_scroll ≡ 0
    → IsCalm (position_at x y pressure r)
unfolding IsCalm
position-IsCalm x y pressure r z = z

module _ (gestures : Touch → SynapticsReport → SynapticsReport) where
  decode_new-IsCalm :
      (packet : List ℕ) (r : SynapticsReport)
      → has r.hand.pad.syn_capabilities 0x040000 ≡ false
      → r.m_scroll ≡ 0
      → IsCalm (decode_new gestures packet r)
  unfolding decode_new
  decode_new-IsCalm packet r c z =
      let r1 = record r { w = new_w packet } in
      if_holds IsCalm (tells_fingers r1 && new_w packet == 2) _ _ (dealt_with-IsCalm _) (
        if_holds IsCalm (ltb (new_x packet) 736 && ltb 0 (byte packet 2)) _ _ (dealt_with-IsCalm _)
          (position-IsCalm _ _ _ (decoded packet r) (no_scroll packet r c z)))

  decode_packet-IsCalm :
      (packet : List ℕ) (r : SynapticsReport)
      → has r.hand.pad.syn_capabilities 0x040000 ≡ false
      → r.m_scroll ≡ 0
      → IsCalm (decode_packet gestures packet r)
  unfolding decode_packet decode_old
  decode_packet-IsCalm packet r c z =
      if_holds IsCalm (has r.model_id 0x80) _ _ (decode_new-IsCalm packet r c z) (
        if_holds IsCalm (ltb (old_x packet) 1472 && ltb 0 (old_pressure packet)) _ _
          (dealt_with-IsCalm _) (position-IsCalm _ _ _ (record r { w = old_w packet }) z))

  handled-returns :
      (fuel now : ℕ) (packet : List ℕ) (d : Decoded)
      → IsCalm d
      → IsHandled (handled gestures fuel now packet d)
  unfolding handled IsCalm IsHandled
  handled-returns fuel now packet (dealt_with r) k = (r, refl)
  handled-returns fuel now packet (position_at x y pressure r) k =
      position-returns gestures fuel now packet (unwrapped x) (unwrapped y) pressure r k

  -- On a touchpad without a middle button, with no scrolling left over, every packet of any kind is
  -- dealt with, even if the loops are given no rounds.
  pub synaptics_report_absolute-returns :
      (now : ℕ) (packet : List ℕ) (r : SynapticsReport)
      → has r.hand.pad.syn_capabilities 0x040000 ≡ false
      → r.m_scroll ≡ 0
      → (r1 : SynapticsReport) × (synaptics_report_absolute gestures 0 now packet r ≡ some r1)
  unfolding synaptics_report_absolute IsHandled
  synaptics_report_absolute-returns now packet r c z =
      handled-returns 0 now packet (decode_packet gestures packet r)
        (decode_packet-IsCalm packet r c z)
