-- ===== src/Keyboard/Config.antt =====
-- The configuration of ApplePS2Keyboard.cpp: `setupFnkeys`, `ReadFnKeyConfig`, `ReadFnKeyLayout`,
-- `ReadExtendedFunctionsConfig`.
--
-- A dictionary is the list of its entries that are strings, in the order of its iterator. Names
-- are compared with `strncmp` up to the length of what was read, so a beginning of a name passes.
use apple_ps2smart_touch_pad.Common.{
  ℕ, Bool, true, false, ◌&&◌, List, [], ◌∷◌, Option, none, some, ◌==◌, if◌then◌else◌, ltb, set,
}
use apple_ps2smart_touch_pad.Keyboard.State.{Keyboard, FnKeys, Text}
use apple_ps2smart_touch_pad.Keyboard.Maps.{deadkey}
use apple_ps2smart_touch_pad.Keyboard.Layouts.{
  layout_none, layout_asus, layout_dell, layout_acer, layout_samsung, layout_msi, layout_gigabyte,
  layout_lenovo, layout_hp, layout_lg,
}
use apple_ps2smart_touch_pad.Keyboard.Combinations.{code_of_name}

-- `setupFnkeys`: the arrows stand for functions in the modes with an Fn key, Pause without one.
unfoldable pub setup_fnkeys : Text → ℕ → ℕ
unfolding code_of_name
setup_fnkeys name mode =
    let only : Bool → ℕ → ℕ = λ b code. if b then code else 0 in
    code_of_name name
      (((0x46 ∷ 0x31 ∷ []), 0x3b)
        ∷ ((0x46 ∷ 0x32 ∷ []), 0x3c)
        ∷ ((0x46 ∷ 0x33 ∷ []), 0x3d)
        ∷ ((0x46 ∷ 0x34 ∷ []), 0x3e)
        ∷ ((0x46 ∷ 0x35 ∷ []), 0x3f)
        ∷ ((0x46 ∷ 0x36 ∷ []), 0x40)
        ∷ ((0x46 ∷ 0x37 ∷ []), 0x41)
        ∷ ((0x46 ∷ 0x38 ∷ []), 0x42)
        ∷ ((0x46 ∷ 0x39 ∷ []), 0x43)
        ∷ ((0x46 ∷ 0x31 ∷ 0x30 ∷ []), 0x44)
        ∷ ((0x46 ∷ 0x31 ∷ 0x31 ∷ []), 0x57)
        ∷ ((0x46 ∷ 0x31 ∷ 0x32 ∷ []), 0x58)
        ∷ (
          (0x41 ∷ 0x72 ∷ 0x72 ∷ 0x6f ∷ 0x77 ∷ 0x4c ∷ 0x65 ∷ 0x66 ∷ 0x74 ∷ []),
          only (ltb 1 mode) 0x4b,
        )
        ∷ (
          (0x41 ∷ 0x72 ∷ 0x72 ∷ 0x6f ∷ 0x77 ∷ 0x44 ∷ 0x6f ∷ 0x77 ∷ 0x6e ∷ []),
          only (ltb 1 mode) 0x50,
        )
        ∷ ((0x41 ∷ 0x72 ∷ 0x72 ∷ 0x6f ∷ 0x77 ∷ 0x55 ∷ 0x70 ∷ []), only (ltb 1 mode) 0x48)
        ∷ (
          (0x41 ∷ 0x72 ∷ 0x72 ∷ 0x6f ∷ 0x77 ∷ 0x52 ∷ 0x69 ∷ 0x67 ∷ 0x68 ∷ 0x74 ∷ []),
          only (ltb 1 mode) 0x4d,
        )
        ∷ ((0x50 ∷ 0x61 ∷ 0x75 ∷ 0x73 ∷ 0x65 ∷ []), only (ltb mode 2) 0x45)
        ∷ [])
      0

abbrev same_text : Text → Text → Bool
same_text [] [] = true
same_text [] (b ∷ ys) = false
same_text (a ∷ xs) [] = false
same_text (a ∷ xs) (b ∷ ys) = a == b && same_text xs ys

-- `getObject`.
unfoldable pub get_object : Text → List (Text × Text) → Option Text
get_object name [] = none
get_object name ((n, value) ∷ entries) =
    if same_text name n then some value else get_object name entries

-- The key that an entry names; without the entry it stays what it was.
unfoldable pub configured : Text → List (Text × Text) → ℕ → ℕ → ℕ
unfolding setup_fnkeys get_object
configured name config mode otherwise = elim (get_object name config) [
  | none ↦ otherwise
  | some value ↦ setup_fnkeys value mode
]

unfoldable pub fn_keys_of_config : List (Text × Text) → FnKeys → FnKeys
unfolding configured
fn_keys_of_config config f =
    let mode = f.fn_keys_mode_num in
    record f {
      system_sleep =
          configured
            (0x53 ∷ 0x79 ∷ 0x73 ∷ 0x74 ∷ 0x65 ∷ 0x6d ∷ 0x53 ∷ 0x6c ∷ 0x65 ∷ 0x65 ∷ 0x70 ∷ []) config
            mode f.system_sleep;
      bright_ness_down =
          configured
            (0x42 ∷ 0x72 ∷ 0x69 ∷ 0x67 ∷ 0x68 ∷ 0x74 ∷ 0x6e ∷ 0x65 ∷ 0x73 ∷ 0x73 ∷ 0x44 ∷ 0x6f
              ∷ 0x77 ∷ 0x6e ∷ [])
            config mode f.bright_ness_down;
      bright_ness_up =
          configured
            (0x42 ∷ 0x72 ∷ 0x69 ∷ 0x67 ∷ 0x68 ∷ 0x74 ∷ 0x6e ∷ 0x65 ∷ 0x73 ∷ 0x73 ∷ 0x55 ∷ 0x70 ∷ [])
            config mode f.bright_ness_up;
      misson_ctl_fun =
          configured
            (0x4d ∷ 0x69 ∷ 0x73 ∷ 0x73 ∷ 0x6f ∷ 0x6e ∷ 0x20 ∷ 0x43 ∷ 0x6f ∷ 0x6e ∷ 0x74 ∷ 0x72
              ∷ 0x6f ∷ 0x6c ∷ [])
            config mode f.misson_ctl_fun;
      launchpad_fun =
          configured (0x4c ∷ 0x61 ∷ 0x75 ∷ 0x6e ∷ 0x63 ∷ 0x68 ∷ 0x70 ∷ 0x61 ∷ 0x64 ∷ []) config mode
            f.launchpad_fun;
      disp_sleep =
          configured
            (0x53 ∷ 0x6c ∷ 0x65 ∷ 0x65 ∷ 0x70 ∷ 0x44 ∷ 0x69 ∷ 0x73 ∷ 0x70 ∷ 0x6c ∷ 0x61 ∷ 0x79 ∷ [])
            config mode f.disp_sleep;
      video_mirror =
          configured
            (0x56 ∷ 0x69 ∷ 0x64 ∷ 0x65 ∷ 0x6f ∷ 0x4d ∷ 0x69 ∷ 0x72 ∷ 0x72 ∷ 0x6f ∷ 0x72 ∷ []) config
            mode f.video_mirror;
      touchpad =
          configured (0x54 ∷ 0x6f ∷ 0x75 ∷ 0x63 ∷ 0x68 ∷ 0x70 ∷ 0x61 ∷ 0x64 ∷ []) config mode
            f.touchpad;
      vol_mute =
          configured (0x56 ∷ 0x6f ∷ 0x6c ∷ 0x75 ∷ 0x6d ∷ 0x65 ∷ 0x4d ∷ 0x75 ∷ 0x74 ∷ 0x65 ∷ [])
            config mode f.vol_mute;
      vol_down =
          configured (0x56 ∷ 0x6f ∷ 0x6c ∷ 0x75 ∷ 0x6d ∷ 0x65 ∷ 0x44 ∷ 0x6f ∷ 0x77 ∷ 0x6e ∷ [])
            config mode f.vol_down;
      vol_up =
          configured (0x56 ∷ 0x6f ∷ 0x6c ∷ 0x75 ∷ 0x6d ∷ 0x65 ∷ 0x55 ∷ 0x70 ∷ []) config mode
            f.vol_up;
      media_prev =
          configured
            (0x4d ∷ 0x65 ∷ 0x64 ∷ 0x69 ∷ 0x61 ∷ 0x50 ∷ 0x72 ∷ 0x65 ∷ 0x76 ∷ 0x69 ∷ 0x6f ∷ 0x75
              ∷ 0x73 ∷ [])
            config mode f.media_prev;
      media_play =
          configured
            (0x4d ∷ 0x65 ∷ 0x64 ∷ 0x69 ∷ 0x61 ∷ 0x50 ∷ 0x6c ∷ 0x61 ∷ 0x79 ∷ 0x50 ∷ 0x61 ∷ 0x75
              ∷ 0x73 ∷ 0x65 ∷ [])
            config mode f.media_play;
      media_next =
          configured (0x4d ∷ 0x65 ∷ 0x64 ∷ 0x69 ∷ 0x61 ∷ 0x4e ∷ 0x65 ∷ 0x78 ∷ 0x74 ∷ []) config mode
            f.media_next;
      kbrd_brightness_down =
          configured
            (0x4b ∷ 0x42 ∷ 0x42 ∷ 0x61 ∷ 0x63 ∷ 0x6b ∷ 0x6c ∷ 0x69 ∷ 0x67 ∷ 0x68 ∷ 0x74 ∷ 0x44
              ∷ 0x6f ∷ 0x77 ∷ 0x6e ∷ [])
            config mode f.kbrd_brightness_down;
      kbrd_brightness_up =
          configured
            (0x4b ∷ 0x42 ∷ 0x42 ∷ 0x61 ∷ 0x63 ∷ 0x6b ∷ 0x6c ∷ 0x69 ∷ 0x67 ∷ 0x68 ∷ 0x74 ∷ 0x55
              ∷ 0x70 ∷ [])
            config mode f.kbrd_brightness_up;
    }

-- `ReadFnKeyConfig`.
unfoldable pub read_fn_key_config : Keyboard → Keyboard
unfolding fn_keys_of_config
read_fn_key_config k =
    let dictionary =
      if k.fn_keys.fn_keys_mode_num == 1 then k.world.fn_keys_mode_1 else k.world.fn_keys_mode_2 in
    elim dictionary as (λ x. Keyboard) [
      | none ↦ k
      | some config ↦ record k { fn_keys = fn_keys_of_config config k.fn_keys }
    ]

unfoldable pub make_dead : List ℕ → List ℕ → List ℕ
make_dead [] adb = adb
make_dead (code ∷ codes) adb = make_dead codes (set adb code deadkey)

-- A layout of the table: the Fn keys, and the extended keys that it switches off.
abbrev set_layout : (FnKeys → FnKeys) → List ℕ → Keyboard → Keyboard
set_layout layout dead k = record k {
  fn_keys = layout k.fn_keys;
  extended_map = make_dead dead k.extended_map;
}

-- `ReadFnKeyLayout`.
unfoldable pub read_fn_key_layout : Keyboard → Keyboard
unfolding code_of_name make_dead read_fn_key_config layout_none layout_asus layout_dell layout_acer
    layout_samsung layout_msi layout_gigabyte layout_lenovo layout_hp layout_lg
read_fn_key_layout k =
    let unknown =
      read_fn_key_config (record k { fn_keys = record k.fn_keys { fn_keys_mode_num = 2 } }) in
    elim k.world.fn_keys_layout as (λ x. Keyboard) [
      | none ↦ k
      | some name ↦
          code_of_name name
            (((0x4e ∷ 0x4f ∷ 0x4e ∷ 0x45 ∷ []), set_layout layout_none [] k)
              ∷ (
                (0x41 ∷ 0x53 ∷ 0x55 ∷ 0x53 ∷ []),
                set_layout (layout_asus k.enabled_asus_kbacklight) [] k,
              )
              ∷ ((0x44 ∷ 0x45 ∷ 0x4c ∷ 0x4c ∷ []), set_layout layout_dell (0x08 ∷ 0x59 ∷ []) k)
              ∷ ((0x41 ∷ 0x43 ∷ 0x45 ∷ 0x52 ∷ []), set_layout layout_acer (0x78 ∷ []) k)
              ∷ (
                (0x53 ∷ 0x41 ∷ 0x4d ∷ 0x53 ∷ 0x55 ∷ 0x4e ∷ 0x47 ∷ []),
                set_layout layout_samsung (0x77 ∷ 0x29 ∷ []) k,
              )
              ∷ ((0x4d ∷ 0x53 ∷ 0x49 ∷ []), set_layout layout_msi (0x6e ∷ 0x6f ∷ 0x4e ∷ []) k)
              ∷ (
                (0x47 ∷ 0x49 ∷ 0x47 ∷ 0x41 ∷ 0x42 ∷ 0x59 ∷ 0x54 ∷ 0x45 ∷ []),
                set_layout layout_gigabyte [] k,
              )
              ∷ ((0x4c ∷ 0x45 ∷ 0x4e ∷ 0x4f ∷ 0x56 ∷ 0x4f ∷ []), set_layout layout_lenovo [] k)
              ∷ ((0x48 ∷ 0x50 ∷ []), set_layout layout_hp [] k)
              ∷ ((0x4c ∷ 0x47 ∷ []), set_layout layout_lg [] k)
              ∷ [])
            unknown
    ]

-- The function that an entry names, counted from F13, and one behind the last if it names none.
unfoldable pub extended_function : Text → ℕ
unfolding code_of_name
extended_function name =
    code_of_name name
      (((0x46 ∷ 0x31 ∷ 0x33 ∷ []), 0)
        ∷ ((0x46 ∷ 0x31 ∷ 0x34 ∷ []), 1)
        ∷ ((0x46 ∷ 0x31 ∷ 0x35 ∷ []), 2)
        ∷ ((0x46 ∷ 0x31 ∷ 0x36 ∷ []), 3)
        ∷ ((0x46 ∷ 0x31 ∷ 0x37 ∷ []), 4)
        ∷ ((0x46 ∷ 0x31 ∷ 0x38 ∷ []), 5)
        ∷ ((0x46 ∷ 0x31 ∷ 0x39 ∷ []), 6)
        ∷ ((0x46 ∷ 0x32 ∷ 0x30 ∷ []), 7)
        ∷ ((0x46 ∷ 0x32 ∷ 0x31 ∷ []), 8)
        ∷ ((0x46 ∷ 0x32 ∷ 0x32 ∷ []), 9)
        ∷ ((0x46 ∷ 0x32 ∷ 0x33 ∷ []), 10)
        ∷ ((0x46 ∷ 0x32 ∷ 0x34 ∷ []), 11)
        ∷ [])
      12

unfoldable pub extended_functions_of : List (Text × Text) → List (Option Text) → List (Option Text)
unfolding extended_function
extended_functions_of [] fx = fx
extended_functions_of ((name, keys) ∷ entries) fx =
    extended_functions_of entries (set fx (extended_function name) (some keys))

-- `ReadExtendedFunctionsConfig`; making the iterator does not fail.
unfoldable pub read_extended_functions_config : Keyboard → Keyboard
unfolding extended_functions_of
read_extended_functions_config k = elim k.world.extended_functions as (λ x. Keyboard) [
  | none ↦ k
  | some entries ↦ record k { fx = extended_functions_of entries k.fx }
]
