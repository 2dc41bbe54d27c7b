-- ===== src/Keyboard/Maps.antt =====
-- The tables of ApplePS2ToADBMap.h, from PS/2 scan codes to ADB codes.
--
-- The driver indexes them with scan codes below 128. A code from a preference that is larger reads
-- behind the table; it is taken to be a key that does nothing.
use apple_ps2smart_touch_pad.Common.{ℕ, List, [], ◌∷◌, get_or}

abbrev pub deadkey : ℕ
deadkey = 0xa2

abbrev pub ps2_to_adb_map : List ℕ
ps2_to_adb_map =
    deadkey ∷ 0x35 ∷ 0x12 ∷ 0x13 ∷ 0x14 ∷ 0x15 ∷ 0x17 ∷ 0x16 ∷ 0x1a ∷ 0x1c ∷ 0x19 ∷ 0x1d ∷ 0x1b
    ∷ 0x18 ∷ 0x33 ∷ 0x30 ∷ 0x0c ∷ 0x0d ∷ 0x0e ∷ 0x0f ∷ 0x11 ∷ 0x10 ∷ 0x20 ∷ 0x22 ∷ 0x1f ∷ 0x23
    ∷ 0x21 ∷ 0x1e ∷ 0x24 ∷ 0x3b ∷ 0x00 ∷ 0x01 ∷ 0x02 ∷ 0x03 ∷ 0x05 ∷ 0x04 ∷ 0x26 ∷ 0x28 ∷ 0x25
    ∷ 0x29 ∷ 0x27 ∷ 0x32 ∷ 0x38 ∷ 0x2a ∷ 0x06 ∷ 0x07 ∷ 0x08 ∷ 0x09 ∷ 0x0b ∷ 0x2d ∷ 0x2e ∷ 0x2b
    ∷ 0x2f ∷ 0x2c ∷ 0x3c ∷ 0x43 ∷ 0x3a ∷ 0x31 ∷ 0x39 ∷ 0x7a ∷ 0x78 ∷ 0x63 ∷ 0x76 ∷ 0x60 ∷ 0x61
    ∷ 0x62 ∷ 0x64 ∷ 0x65 ∷ 0x6d ∷ 0x47 ∷ deadkey ∷ 0x59 ∷ 0x5b ∷ 0x5c ∷ 0x4e ∷ 0x56 ∷ 0x57 ∷ 0x58
    ∷ 0x45 ∷ 0x53 ∷ 0x54 ∷ 0x55 ∷ 0x52 ∷ 0x41 ∷ 0x3f ∷ deadkey ∷ 0x0a ∷ 0x67 ∷ 0x6f ∷ 0x51 ∷ deadkey
    ∷ 0x37 ∷ 0x5f ∷ deadkey ∷ deadkey ∷ deadkey ∷ deadkey ∷ deadkey ∷ deadkey ∷ deadkey ∷ 0x69
    ∷ 0x6b ∷ 0x71 ∷ 0x6a ∷ 0x6c ∷ 0x6e ∷ 0x66 ∷ 0x68 ∷ deadkey ∷ deadkey ∷ deadkey ∷ deadkey
    ∷ deadkey ∷ deadkey ∷ deadkey ∷ 0x5e ∷ deadkey ∷ deadkey ∷ deadkey ∷ 0x5a ∷ 0x5a ∷ 0x5a
    ∷ deadkey ∷ 0x5f ∷ deadkey ∷ 0x5d ∷ 0x5f ∷ deadkey ∷ []

abbrev pub extended_ps2_to_adb_map : List ℕ
extended_ps2_to_adb_map =
    deadkey ∷ 0x35 ∷ 0x50 ∷ deadkey ∷ deadkey ∷ 0x4f ∷ 0x4d ∷ deadkey ∷ 0x4d ∷ 0x4f ∷ deadkey
    ∷ deadkey ∷ deadkey ∷ deadkey ∷ deadkey ∷ deadkey ∷ 0x46 ∷ deadkey ∷ 0x4f ∷ deadkey ∷ deadkey
    ∷ deadkey ∷ deadkey ∷ 0x4d ∷ deadkey ∷ 0x44 ∷ deadkey ∷ deadkey ∷ 0x4c ∷ 0x3e ∷ deadkey
    ∷ deadkey ∷ 0x4a ∷ deadkey ∷ 0x42 ∷ deadkey ∷ deadkey ∷ 0x72 ∷ deadkey ∷ deadkey ∷ deadkey
    ∷ 0x50 ∷ deadkey ∷ deadkey ∷ deadkey ∷ deadkey ∷ 0x49 ∷ deadkey ∷ 0x48 ∷ 0x72 ∷ deadkey
    ∷ deadkey ∷ deadkey ∷ 0x4b ∷ deadkey ∷ deadkey ∷ 0x3d ∷ deadkey ∷ deadkey ∷ 0x50 ∷ deadkey
    ∷ deadkey ∷ deadkey ∷ 0x3f ∷ deadkey ∷ deadkey ∷ 0x70 ∷ deadkey ∷ deadkey ∷ 0xa1 ∷ 0x70 ∷ 0x73
    ∷ 0x7e ∷ 0x74 ∷ deadkey ∷ 0x7b ∷ deadkey ∷ 0x7c ∷ 0x72 ∷ 0x77 ∷ 0x7d ∷ 0x79 ∷ 0x72 ∷ 0x75 ∷ 0x3f
    ∷ deadkey ∷ deadkey ∷ deadkey ∷ deadkey ∷ 0x4d ∷ deadkey ∷ 0x37 ∷ 0x36 ∷ 0x3f ∷ 0x7f ∷ deadkey
    ∷ deadkey ∷ deadkey ∷ deadkey ∷ deadkey ∷ deadkey ∷ deadkey ∷ deadkey ∷ deadkey ∷ deadkey
    ∷ deadkey ∷ deadkey ∷ deadkey ∷ deadkey ∷ deadkey ∷ 0x4d ∷ 0x4f ∷ deadkey ∷ deadkey ∷ deadkey
    ∷ deadkey ∷ deadkey ∷ deadkey ∷ deadkey ∷ 0x4f ∷ 0x4d ∷ deadkey ∷ deadkey ∷ deadkey ∷ deadkey
    ∷ deadkey ∷ deadkey ∷ deadkey ∷ []

abbrev pub in_map : List ℕ → ℕ → ℕ
in_map adb code = get_or adb code deadkey
