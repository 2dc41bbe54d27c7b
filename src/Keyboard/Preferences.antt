-- ===== src/Keyboard/Preferences.antt =====
-- `ReadKeyboardPreferences` of ApplePS2Keyboard.cpp.
use apple_ps2smart_touch_pad.Common.{ℕ, ◌%◌, Bool, List, [], ◌∷◌, none, some, ◌==◌, if◌then◌else◌}
use apple_ps2smart_touch_pad.Keyboard.State.{Keyboard, Preference, flag, number, Text}
use apple_ps2smart_touch_pad.Keyboard.Combinations.{code_of_name}

-- A preference that is a Boolean, by its name.
unfoldable pub read_flag : Text → Bool → Keyboard → Keyboard
unfolding code_of_name
read_flag name b k =
    let o = k.options in
    code_of_name name
      ((
        (0x53 ∷ 0x77 ∷ 0x61 ∷ 0x70 ∷ 0x20 ∷ 0x61 ∷ 0x6c ∷ 0x74 ∷ 0x20 ∷ 0x61 ∷ 0x6e ∷ 0x64 ∷ 0x20
            ∷ 0x77 ∷ 0x69 ∷ 0x6e ∷ 0x64 ∷ 0x6f ∷ 0x77 ∷ 0x73 ∷ 0x20 ∷ 0x6b ∷ 0x65 ∷ 0x79 ∷ []),
        record k { options = record o { macintosh_mode = b } },
      )
        ∷ (
          (0x45 ∷ 0x6e ∷ 0x61 ∷ 0x62 ∷ 0x6c ∷ 0x65 ∷ 0x20 ∷ 0x45 ∷ 0x78 ∷ 0x74 ∷ 0x65 ∷ 0x6e ∷ 0x64
              ∷ 0x65 ∷ 0x64 ∷ 0x20 ∷ 0x46 ∷ 0x75 ∷ 0x6e ∷ 0x63 ∷ 0x74 ∷ 0x69 ∷ 0x6f ∷ 0x6e ∷ 0x73
              ∷ []),
          record k { options = record o { has_extend_functions = b } },
        )
        ∷ (
          (0x4d ∷ 0x61 ∷ 0x6b ∷ 0x65 ∷ 0x20 ∷ 0x73 ∷ 0x68 ∷ 0x69 ∷ 0x66 ∷ 0x74 ∷ 0x20 ∷ 0x2b ∷ 0x20
              ∷ 0x63 ∷ 0x61 ∷ 0x70 ∷ 0x73 ∷ 0x20 ∷ 0x69 ∷ 0x6e ∷ 0x74 ∷ 0x6f ∷ 0x20 ∷ 0x46 ∷ 0x6e
              ∷ 0x20 ∷ 0x6b ∷ 0x65 ∷ 0x79 ∷ []),
          record k { options = record o { make_shift_caps_as_fn = b } },
        )
        ∷ (
          (0x4d ∷ 0x61 ∷ 0x6b ∷ 0x65 ∷ 0x20 ∷ 0x64 ∷ 0x65 ∷ 0x6c ∷ 0x65 ∷ 0x74 ∷ 0x65 ∷ 0x20 ∷ 0x6b
              ∷ 0x65 ∷ 0x79 ∷ 0x20 ∷ 0x69 ∷ 0x6e ∷ 0x74 ∷ 0x6f ∷ 0x20 ∷ 0x63 ∷ 0x6d ∷ 0x64 ∷ 0x20
              ∷ 0x2b ∷ 0x20 ∷ 0x62 ∷ 0x61 ∷ 0x63 ∷ 0x6b ∷ 0x73 ∷ 0x70 ∷ 0x61 ∷ 0x63 ∷ 0x65 ∷ []),
          record k { options = record o { make_del_into_cmd_bspace = b } },
        )
        ∷ (
          (0x4d ∷ 0x61 ∷ 0x6b ∷ 0x65 ∷ 0x20 ∷ 0x49 ∷ 0x53 ∷ 0x4f ∷ 0x20 ∷ 0x6b ∷ 0x65 ∷ 0x79 ∷ 0x70
              ∷ 0x61 ∷ 0x64 ∷ 0x20 ∷ 0x6b ∷ 0x65 ∷ 0x79 ∷ 0x20 ∷ 0x2e ∷ 0x20 ∷ 0x74 ∷ 0x6f ∷ 0x20
              ∷ 0x2c ∷ []),
          record k { options = record o { make_key_dot_as_comma = b } },
        )
        ∷ (
          (0x4e ∷ 0x75 ∷ 0x6d ∷ 0x20 ∷ 0x4c ∷ 0x6f ∷ 0x63 ∷ 0x6b ∷ 0x20 ∷ 0x65 ∷ 0x6e ∷ 0x61 ∷ 0x62
              ∷ 0x6c ∷ 0x65 ∷ 0x64 ∷ 0x20 ∷ 0x61 ∷ 0x74 ∷ 0x20 ∷ 0x62 ∷ 0x6f ∷ 0x6f ∷ 0x74 ∷ []),
          record k { is_num_pad_locked = b },
        )
        ∷ (
          (0x44 ∷ 0x69 ∷ 0x73 ∷ 0x61 ∷ 0x62 ∷ 0x6c ∷ 0x65 ∷ 0x20 ∷ 0x4e ∷ 0x75 ∷ 0x6d ∷ 0x20 ∷ 0x4c
              ∷ 0x6f ∷ 0x63 ∷ 0x6b ∷ 0x20 ∷ 0x4c ∷ 0x45 ∷ 0x44 ∷ []),
          record k { options = record o { no_num_lock_led = b } },
        )
        ∷ (
          (0x4d ∷ 0x61 ∷ 0x6b ∷ 0x65 ∷ 0x20 ∷ 0x4e ∷ 0x75 ∷ 0x6d ∷ 0x20 ∷ 0x4c ∷ 0x6f ∷ 0x63 ∷ 0x6b
              ∷ 0x20 ∷ 0x69 ∷ 0x6e ∷ 0x74 ∷ 0x6f ∷ 0x20 ∷ 0x43 ∷ 0x6c ∷ 0x65 ∷ 0x61 ∷ 0x72 ∷ []),
          record k { options = record o { make_num_lock_as_clear = b } },
        )
        ∷ (
          (0x46 ∷ 0x69 ∷ 0x6e ∷ 0x65 ∷ 0x72 ∷ 0x46 ∷ 0x6e ∷ 0x42 ∷ 0x72 ∷ 0x69 ∷ 0x67 ∷ 0x68 ∷ 0x74
              ∷ 0x6e ∷ 0x65 ∷ 0x73 ∷ 0x73 ∷ 0x43 ∷ 0x6f ∷ 0x6e ∷ 0x74 ∷ 0x72 ∷ 0x6f ∷ 0x6c ∷ []),
          record k { options = record o { use_finer_brightnes_ctrl = b } },
        )
        ∷ (
          (0x46 ∷ 0x69 ∷ 0x6e ∷ 0x65 ∷ 0x72 ∷ 0x46 ∷ 0x6e ∷ 0x56 ∷ 0x6f ∷ 0x6c ∷ 0x75 ∷ 0x6d ∷ 0x65
              ∷ 0x43 ∷ 0x6f ∷ 0x6e ∷ 0x74 ∷ 0x72 ∷ 0x6f ∷ 0x6c ∷ []),
          record k { options = record o { use_finer_volume_ctrl = b } },
        )
        ∷ (
          (0x45 ∷ 0x6e ∷ 0x61 ∷ 0x62 ∷ 0x6c ∷ 0x65 ∷ 0x20 ∷ 0x53 ∷ 0x69 ∷ 0x65 ∷ 0x72 ∷ 0x72 ∷ 0x61
              ∷ 0x20 ∷ 0x43 ∷ 0x61 ∷ 0x70 ∷ 0x73 ∷ 0x20 ∷ 0x4c ∷ 0x6f ∷ 0x63 ∷ 0x6b ∷ 0x20 ∷ 0x46
              ∷ 0x69 ∷ 0x78 ∷ []),
          record k { options = record o { fix_sierra_caps_lock_bug = b } },
        )
        ∷ [])
      k

-- A preference that is a number, stored in a byte; 0 is no preference.
unfoldable pub read_number : Text → ℕ → Keyboard → Keyboard
unfolding code_of_name
read_number name n k =
    let o = k.options in
    let code = n % 256 in
    if n == 0
    then k
    else code_of_name name
        ((
          (0x4d ∷ 0x61 ∷ 0x6b ∷ 0x65 ∷ 0x20 ∷ 0x63 ∷ 0x6f ∷ 0x6e ∷ 0x74 ∷ 0x65 ∷ 0x78 ∷ 0x74 ∷ 0x20
              ∷ 0x6d ∷ 0x65 ∷ 0x6e ∷ 0x75 ∷ 0x20 ∷ 0x6b ∷ 0x65 ∷ 0x79 ∷ 0x20 ∷ 0x69 ∷ 0x6e ∷ 0x74
              ∷ 0x6f ∷ 0x20 ∷ 0x6b ∷ 0x65 ∷ 0x79 ∷ []),
          record k { options = record o { right_ctxt_mkey = code } },
        )
          ∷ (
            (0x4d ∷ 0x61 ∷ 0x6b ∷ 0x65 ∷ 0x20 ∷ 0x72 ∷ 0x69 ∷ 0x67 ∷ 0x68 ∷ 0x74 ∷ 0x20 ∷ 0x63
                ∷ 0x6f ∷ 0x6e ∷ 0x74 ∷ 0x72 ∷ 0x6f ∷ 0x6c ∷ 0x20 ∷ 0x69 ∷ 0x6e ∷ 0x74 ∷ 0x6f ∷ 0x20
                ∷ 0x6b ∷ 0x65 ∷ 0x79 ∷ []),
            record k { options = record o { right_cntrl_key = code } },
          )
          ∷ (
            (0x4d ∷ 0x61 ∷ 0x6b ∷ 0x65 ∷ 0x20 ∷ 0x72 ∷ 0x69 ∷ 0x67 ∷ 0x68 ∷ 0x74 ∷ 0x20 ∷ 0x61
                ∷ 0x6c ∷ 0x74 ∷ 0x20 ∷ 0x69 ∷ 0x6e ∷ 0x74 ∷ 0x6f ∷ 0x20 ∷ 0x6b ∷ 0x65 ∷ 0x79 ∷ []),
            record k { options = record o { right_alt_key = code } },
          )
          ∷ (
            (0x4d ∷ 0x61 ∷ 0x6b ∷ 0x65 ∷ 0x20 ∷ 0x43 ∷ 0x61 ∷ 0x70 ∷ 0x73 ∷ 0x20 ∷ 0x4c ∷ 0x6f
                ∷ 0x63 ∷ 0x6b ∷ 0x20 ∷ 0x69 ∷ 0x6e ∷ 0x74 ∷ 0x6f ∷ 0x20 ∷ 0x6b ∷ 0x65 ∷ 0x79 ∷ []),
            record k { options = record o { caps_key = code } },
          )
          ∷ [])
        k

unfoldable pub read_preferences : List (Text × Preference) → Keyboard → Keyboard
unfolding read_flag read_number
read_preferences [] k = k
read_preferences ((name, flag b) ∷ entries) k = read_preferences entries (read_flag name b k)
read_preferences ((name, number n) ∷ entries) k = read_preferences entries (read_number name n k)

-- `ReadKeyboardPreferences`; making the iterator does not fail.
unfoldable pub read_keyboard_preferences : Keyboard → Keyboard
unfolding read_preferences
read_keyboard_preferences k = elim k.world.preferences as (λ x. Keyboard) [
  | none ↦ k
  | some entries ↦ read_preferences entries k
]
