-- ===== src/Touchpad/Packets/Signatures.antt =====
-- ApplePS2SmartTouchPad.cpp, `interruptOccurred`: the checks of a packet's constant bits.
use apple_ps2smart_touch_pad.Common.{
  ℕ, zero, suc, ◌+◌, ◌/◌, Bool, true, false, not, List, [], ◌∷◌, ◌==◌, ◌||◌, ◌&&◌, if◌then◌else◌,
  bit_and, ltb, get_or, set,
}
use apple_ps2smart_touch_pad.Touchpad.Elan.{parity_bit}

abbrev pub byte : List ℕ → ℕ → ℕ
byte packet i = get_or packet i 0

-- The packet types of ELAN.h.
abbrev pub packet_status : ℕ
packet_status = 0

abbrev pub packet_absolute : ℕ
packet_absolute = 1

abbrev pub packet_relative : ℕ
packet_relative = 2

abbrev pub packet_head : ℕ
packet_head = 3

abbrev pub packet_tail : ℕ
packet_tail = 4

abbrev pub packet_trackpoint : ℕ
packet_trackpoint = 8

abbrev pub syn_newabs : ℕ
syn_newabs = 0

abbrev pub syn_newabs_strict : ℕ
syn_newabs_strict = 1

abbrev pub syn_newabs_relaxed : ℕ
syn_newabs_relaxed = 2

abbrev pub syn_oldabs : ℕ
syn_oldabs = 3

-- `Synaptics_validate_byte`, where `kIOReturnSuccess`, as the value false, stands for the cases
-- that are not there.
unfoldable pub validate_byte : List ℕ → ℕ → ℕ → Bool
validate_byte packet idx kind =
    let at = λ (xs : List ℕ). get_or xs idx 0 in
    if ltb 4 idx
    then false
    else if kind == syn_newabs || kind == syn_newabs_relaxed
    then bit_and (byte packet idx) (at (0xc0 ∷ 0 ∷ 0 ∷ 0xc0 ∷ 0 ∷ []))
      == at (0x80 ∷ 0 ∷ 0 ∷ 0xc0 ∷ 0 ∷ [])
    else if kind == syn_newabs_strict
    then bit_and (byte packet idx) (at (0xc8 ∷ 0 ∷ 0 ∷ 0xc8 ∷ 0 ∷ []))
      == at (0x80 ∷ 0 ∷ 0 ∷ 0xc0 ∷ 0 ∷ [])
    else if kind == syn_oldabs
    then bit_and (byte packet idx) (at (0xc0 ∷ 0x60 ∷ 0 ∷ 0xc0 ∷ 0x60 ∷ []))
      == at (0xc0 ∷ 0 ∷ 0 ∷ 0x80 ∷ 0 ∷ [])
    else false

-- The loop over the five bytes, from byte `i` on.
unfoldable pub validate_loop : ℕ → ℕ → List ℕ → ℕ → ℕ
validate_loop zero i packet kind = kind
validate_loop (suc left) i packet kind =
    validate_loop left (i + 1) packet
      (if validate_byte packet i syn_newabs_strict then kind else syn_newabs_relaxed)

-- The parity check of version 1.
unfoldable pub parity_holds : ℕ → List ℕ → Bool
parity_holds fw packet =
    let old = ltb fw 0x020000 in
    let p5 = bit_and (byte packet 0) 0x20 / 32 in
    let p4 = bit_and (byte packet 0) 0x10 / 16 in
    let p1 : ℕ = if old then p5 else p4 in
    let p2 : ℕ = if old then p4 else p5 in
    let p3 = bit_and (byte packet 0) 0x04 / 4 in
    (get_or parity_bit (byte packet 1) 0 == p1 && get_or parity_bit (byte packet 2) 0 == p2)
    && get_or parity_bit (byte packet 3) 0 == p3

unfoldable pub same_bytes : List ℕ → List ℕ → Bool
same_bytes [] [] = true
same_bytes (x ∷ xs) (y ∷ ys) = (x == y) && same_bytes xs ys
same_bytes _ _ = false

abbrev pub elan_debounce_packet_v2 : List ℕ
elan_debounce_packet_v2 = 0x84 ∷ 0xff ∷ 0xff ∷ 0x02 ∷ 0xff ∷ 0xff ∷ []

abbrev pub elan_debounce_packet_v3 : List ℕ
elan_debounce_packet_v3 = 0xc4 ∷ 0xff ∷ 0xff ∷ 0x02 ∷ 0xff ∷ 0xff ∷ []

abbrev pub elan_debounce_packet_v3_2 : List ℕ
elan_debounce_packet_v3_2 = 0xcc ∷ 0xff ∷ 0xff ∷ 0x0a ∷ 0xff ∷ 0xff ∷ []

abbrev pub elan_end_packet_v3 : List ℕ
elan_end_packet_v3 = 0x04 ∷ 0 ∷ 0 ∷ 0x02 ∷ 0 ∷ 0 ∷ []

-- The type of a packet of version 3; 255 is what `packet_type` begins with.
unfoldable pub v3_type : Bool → List ℕ → ℕ
v3_type crc packet =
    let b0 = byte packet 0 in
    let b3 = byte packet 3 in
    if crc
    then (if bit_and b3 0x09 == 0x09
        then packet_tail
        else if bit_and b3 0x09 == 0x08
        then packet_head
        else 255)
    else if bit_and b3 0x0f == 0x06
    then packet_trackpoint
    else if bit_and b0 0x0c == 0x0c && bit_and b3 0xce == 0x0c
    then packet_tail
    else if bit_and b0 0x0c == 0x04 && bit_and b3 0xcf == 0x02
    then packet_head
    else 255

-- The type and the sanity check of a packet of version 4.
unfoldable pub v4_type : Bool → List ℕ → ℕ
v4_type supports_track_point packet =
    if supports_track_point && bit_and (byte packet 3) 0x0f == 0x06
    then packet_trackpoint
    else bit_and (byte packet 3) 0x03

unfoldable pub v4_sane : Bool → List ℕ → Bool
v4_sane crc packet =
    if crc
    then bit_and (byte packet 3) 0x08 == 0
    else bit_and (byte packet 0) 0x0c == 0x04 && bit_and (byte packet 3) 0x1c == 0x10

-- A status packet whose first byte is 0 although bytes follow.
unfoldable pub is_stray : List ℕ → Bool
is_stray packet =
    byte packet 0 == 0
    && not (
        byte packet 1 == 0
        && byte packet 3 == 0
        && byte packet 2 == 0
        && byte packet 4 == 0
        && byte packet 5 == 0)

-- A status packet that began one byte too late, and what is made of it.
unfoldable pub is_shifted : List ℕ → Bool
is_shifted packet =
    not (byte packet 0 == 0)
    && byte packet 1 == 0
    && byte packet 2 == 0x10
    && byte packet 3 == 0
    && byte packet 4 == 0

unfoldable pub unshifted : List ℕ → List ℕ
unshifted packet =
    let b0 = byte packet 0 in
    let b2 = byte packet 2 in set (set (set (set (set packet 1 b0) 3 b2) 0 0x34) 2 0) 5 0
