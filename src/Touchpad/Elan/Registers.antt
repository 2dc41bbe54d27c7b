-- ===== src/Touchpad/Elan/Registers.antt =====
-- Which registers can be accessed.
use apple_ps2smart_touch_pad.Common.{ℕ, ◌<◌, true, ◌≡◌, ◌⊎◌, arith}
use apple_ps2smart_touch_pad.Interface.Device.{error, Host}
use apple_ps2smart_touch_pad.Touchpad.Elan.Access.{refused, write_reg, read_reg}

refused_lem :
    (reg : ℕ) → (reg < 0x07) ⊎ (0x26 < reg) ⊎ ((0x11 < reg) × (reg < 0x20)) → refused reg ≡ true
unfolding refused
refused_lem reg h = ground arith

-- An access to a register outside 0x07 to 0x11 and 0x20 to 0x26 fails, for every hardware version,
-- without anything being sent and with the value untouched.
pub registers_refused :
    (hw reg val : ℕ) (h : Host)
    → (reg < 0x07) ⊎ (0x26 < reg) ⊎ ((0x11 < reg) × (reg < 0x20))
    → (write_reg hw reg val h ≡ (error, h)) × (read_reg hw reg val h ≡ (error, val, h))
unfolding write_reg read_reg
registers_refused hw reg val h out = ground (arith, refused_lem reg out)
