-- ===== src/Touchpad/Packets/Gates.antt =====
-- ApplePS2SmartTouchPad.cpp, `interruptOccurred`: what keeps a packet from being processed.
--
-- What IOKit answers to a poll comes in from outside; the clock stands still during an interrupt.
use apple_ps2smart_touch_pad.Common.{
  ℕ, ◌+◌, ◌-◌, ◌%◌, ◌^◌, Bool, true, false, not, List, [], ◌∷◌, ◌==◌, ◌||◌, ◌&&◌, Option, none,
  some, if◌then◌else◌, ltb,
}
use apple_ps2smart_touch_pad.Touchpad.{Surroundings}

-- `uint64_t` subtraction.
unfoldable pub since : ℕ → ℕ → ℕ
since now before = (now + 2 ^ 64 - before) % 2 ^ 64

-- What IOKit answers to a poll: the `HIDKind`s in `NXSystemInfo`; `TouchpadEnabled` and
-- `TouchpadDisabled` of AsusNBFnKeys, if it is there; and `_LID`, if there is a lid device, and if it
-- has that method.
pub record Poll : Type 0 where
  pub hid_kinds : Option (List ℕ)
  pub fn_keys : Option (Bool × Bool)
  pub lid : Option (Option ℕ)

-- The loop of `detectExternalMouse`: the mice counted so far, and what was found.
unfoldable pub count_mice : List ℕ → ℕ → Bool → Bool
count_mice [] mice found = found
count_mice (kind ∷ kinds) mice found =
    if kind == 2
    then count_mice kinds ((mice + 1) % 256) (ltb 1 ((mice + 1) % 256))
    else count_mice kinds mice found

unfoldable pub detect_external_mouse : Poll → ℕ → Surroundings → Surroundings
detect_external_mouse p now s = record s {
  external_mouse_found = elim p.hid_kinds [
    | none ↦ s.external_mouse_found
    | some kinds ↦ count_mice kinds 0 s.external_mouse_found
  ];
  last_mouse_check = now;
}

unfoldable pub poll_fn_keys : Option (Bool × Bool) → Surroundings → Surroundings
poll_fn_keys none s = record s { is_asus_notebook = false }
poll_fn_keys (some (enabled, disabled)) s = record s {
  fn_key_disabled_touchpad =
      if enabled then false else if disabled then true else s.fn_key_disabled_touchpad;
}

unfoldable pub poll_lid : Option (Option ℕ) → Surroundings → Surroundings
poll_lid none s = s
poll_lid (some none) s = record s { enable_lid_polling = false }
poll_lid (some (some res)) s =
    if res == (if s.lid_closed then 1 else 0) then record s { lid_closed = res == 0 } else s

-- `Process_ACPI_IOREG_Polling`.
unfoldable pub process_acpi_ioreg_polling : Poll → ℕ → Surroundings → Surroundings
process_acpi_ioreg_polling p now s =
    let s1 = if s.is_asus_notebook then poll_fn_keys p.fn_keys s else s in
    let s2 = if s1.enable_lid_polling then poll_lid p.lid s1 else s1 in
    record s2 { last_fn_key_check = now }

-- The checks in front of the switch: whether the packet is processed.
unfoldable pub mouse_gate : Poll → ℕ → Surroundings → Bool × Surroundings
mouse_gate p now s =
    if s.usb_mouse_disables_trackpad
    then (let s1 =
          if ltb s.mouse_poll_rate (since now s.last_mouse_check)
          then detect_external_mouse p now s
          else s in
        (not s1.external_mouse_found, s1))
    else (true, s)

unfoldable pub acpi_gate : Poll → ℕ → Surroundings → Bool × Surroundings
acpi_gate p now s =
    if s.is_asus_notebook || s.enable_lid_polling
    then (let s1 =
          if ltb s.acpi_poll_rate (since now s.last_fn_key_check)
          then process_acpi_ioreg_polling p now s
          else s in
        (not (s1.fn_key_disabled_touchpad || s1.lid_closed), s1))
    else (true, s)

unfoldable pub typing_gate : ℕ → Surroundings → Bool × Surroundings
typing_gate now s =
    let s1 =
      if s.is_type_mode_enabled
        && s.accidental_input
        && ltb s.acc_input_time_out (since now s.last_key_press_time)
        && (ltb 0 s.acc_input_time_out || not s.tap_enable_touchpad)
      then record s { accidental_input = false; keys_count = 0 }
      else s in
    (not ((s1.accidental_input && not s1.tap_enable_touchpad) || s1.disable_touchpad), s1)

unfoldable pub gates : Poll → ℕ → Surroundings → Bool × Surroundings
gates p now s =
    let (open1, s1) = mouse_gate p now s in
    if open1
    then (let (open2, s2) = acpi_gate p now s1 in if open2 then typing_gate now s2 else (false, s2))
    else (false, s1)
