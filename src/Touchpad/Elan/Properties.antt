-- ===== src/Touchpad/Elan/Properties.antt =====
-- How the firmware version decides the hardware version.
use apple_ps2smart_touch_pad.Common.{ℕ, ◌≤◌, ◌<◌, ◌≡◌, ◌≢◌, ◌⊎◌, arith}
use apple_ps2smart_touch_pad.Interface.Device.{success, no_device}
use apple_ps2smart_touch_pad.Touchpad.{Touchpad}
use apple_ps2smart_touch_pad.Touchpad.Elan.Versions.{
  ic_version, hw_version_of, set_flags, set_properties,
}

hw_version_of_range :
    (ver : ℕ) → hw_version_of ver ≢ 0 → (2 ≤ hw_version_of ver) × (hw_version_of ver ≤ 4)
unfolding hw_version_of
hw_version_of_range ver h = ground arith

-- When the hardware version has not been set above 14, the properties are set exactly with one of the
-- four versions, which is 1 for the two early kinds of firmware only.
pub set_properties_success :
    (t : Touchpad)
    → t.hw_version ≤ 14
    → (set_properties t).0 ≡ success
    → let hw = (set_properties t).1.hw_version in
      (1 ≤ hw) × (hw ≤ 4) × (hw ≡ 1 → (t.fw_version < 0x020030) ⊎ (t.fw_version ≡ 0x020600))
unfolding set_properties set_flags
set_properties_success t h e = ground (arith, hw_version_of_range (ic_version t.fw_version))

-- An IC body of version 15 is refused when the hardware version is not above 14, although the
-- message in the branch that tests for it is about assuming version 4.
pub set_properties_refuses :
    (t : Touchpad)
    → t.hw_version ≤ 14
    → ic_version t.fw_version ≡ 15
    → 0x020030 ≤ t.fw_version
    → t.fw_version ≢ 0x020600
    → set_properties t ≡ (no_device, t)
unfolding set_properties hw_version_of
set_properties_refuses t h v lo hi = ground arith
