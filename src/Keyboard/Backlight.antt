-- ===== src/Keyboard/Backlight.antt =====
-- The Asus keyboard backlight of ApplePS2Keyboard.cpp. A level is a byte; an `SInt8` is negative from
-- 128 on, and -1 is what a level that cannot be read is stored as.
use apple_ps2smart_touch_pad.Common.{
  ℕ, ◌+◌, ◌-◌, ◌%◌, Bool, true, false, not, ◌&&◌, ◌||◌, [], ◌∷◌, Option, none, some, ◌==◌,
  if◌then◌else◌, ltb, leb,
}
use apple_ps2smart_touch_pad.Keyboard.State.{Keyboard, set_backlight, emit, dispatch_notice}
use apple_ps2smart_touch_pad.Keyboard.Notices.{
  keybrd_back_light_off, keybrd_back_light_on, keybrd_back_light_toggle_on,
  keybrd_back_light_toggle_off,
}

abbrev negative : ℕ → Bool
negative b = leb 128 b

unfoldable pub set_enabled_asus_kbacklight : Bool → Keyboard → Keyboard
set_enabled_asus_kbacklight b k = record k { enabled_asus_kbacklight = b }

unfoldable pub set_kbrd_back_light_lvl : ℕ → Keyboard → Keyboard
set_kbrd_back_light_lvl b k = record k { kbrd_back_light_lvl = b }

-- `dispatchKeyboardBacklightNotification`.
unfoldable pub dispatch_keyboard_backlight_notification : Bool → Keyboard → Keyboard
unfolding dispatch_notice
dispatch_keyboard_backlight_notification down k =
    if k.enabled_asus_kbacklight
    then dispatch_notice (if down then keybrd_back_light_on else keybrd_back_light_off) k
    else k

-- `readAsusKBlight`, its result stored in a byte, for what GKBL answers.
unfoldable pub kblight_of : Option ℕ → Keyboard → ℕ × Keyboard
unfolding set_enabled_asus_kbacklight
kblight_of none k = (255, set_enabled_asus_kbacklight false k)
kblight_of (some level) k = (level % 256, set_enabled_asus_kbacklight true k)

unfoldable pub read_asus_kblight : ℕ → Keyboard → ℕ × Keyboard
unfolding kblight_of
read_asus_kblight parm k = kblight_of (k.world.gkbl parm) k

-- `getMaxKBlightLevel`.
unfoldable pub get_max_kblight_level : Keyboard → ℕ
get_max_kblight_level k = elim k.world.gklm [
  | none ↦ 3
  | some level ↦ if ltb 254 (level % 256) then 3 else level % 256
]

-- `setAsusKBlight`.
unfoldable pub set_asus_kblight : ℕ → Keyboard → Keyboard
unfolding emit set_enabled_asus_kbacklight
set_asus_kblight level k =
    if not k.world.atkd
    then k
    else if k.world.skbl
    then emit (set_backlight level ∷ []) k
    else set_enabled_asus_kbacklight false k

-- The level that a step leads to, of at most 16 levels or up to the greatest.
unfoldable pub next_level : Bool → Bool → ℕ → ℕ → ℕ
next_level sixteen up greatest level =
    if (sixteen && ltb level 15 || not sixteen && ltb level greatest) && up
    then level + 1
    else if ltb 0 level && not up
    then level - 1
    else level

-- `processAsusKBacklight`.
unfoldable pub process_asus_kbacklight : Bool → Keyboard → Keyboard
unfolding read_asus_kblight get_max_kblight_level set_asus_kblight next_level
process_asus_kbacklight up k =
    let greatest = get_max_kblight_level k in
    let (level, k1) = read_asus_kblight 0 k in
    let level1 = if not (negative level) && ltb greatest level then greatest else level in
    let level2 = next_level k1.asus_kb_has16_level_support up greatest level1 in
    if negative level1 then k1 else set_asus_kblight 0xea (set_asus_kblight level2 k1)

-- `_kbrdBackLightLvl = readAsusKBlight(0)`.
unfoldable pub reread_level : Keyboard → Keyboard
unfolding read_asus_kblight set_kbrd_back_light_lvl
reread_level k = let (level, k1) = read_asus_kblight 0 k in set_kbrd_back_light_lvl level k1

-- The level after the driver has read it at the start: one that differs from what was kept before
-- is written back, or 1 if what was kept is more than 16.
unfoldable pub restore_level : ℕ → Keyboard → Keyboard
unfolding set_asus_kblight reread_level set_kbrd_back_light_lvl
restore_level kept k =
    let level = k.kbrd_back_light_lvl in
    let restored = if ltb 16 kept then 1 else level in
    if not (kept == level) && not (negative level) && not (negative kept)
    then set_asus_kblight restored (set_kbrd_back_light_lvl restored k)
    else reread_level k

-- The case `kPS2C_InitKeyboard` of an Asus backlight.
unfoldable pub init_backlight : Keyboard → Keyboard
unfolding set_asus_kblight reread_level restore_level dispatch_notice
init_backlight k =
    let k1 = restore_level k.kbrd_back_light_lvl (set_asus_kblight 0xea (reread_level k)) in
    if not (negative k1.kbrd_back_light_lvl) && ltb 0 k1.kbrd_back_light_lvl
    then dispatch_notice keybrd_back_light_off k1
    else k1

-- The cases `kPS2C_KeybrdBackLightOff` and `kPS2C_KeybrdBackLightOn`.
unfoldable pub backlight_off : Keyboard → Keyboard
unfolding set_asus_kblight dispatch_notice
backlight_off k =
    if k.enabled_asus_kbacklight
    then dispatch_notice keybrd_back_light_toggle_off (set_asus_kblight 0xed k)
    else k

unfoldable pub backlight_on : Keyboard → Keyboard
unfolding read_asus_kblight reread_level set_asus_kblight dispatch_notice
backlight_on k =
    let (level, k1) = read_asus_kblight 0xff k in
    let k2 = reread_level k1 in
    if not k.enabled_asus_kbacklight
    then k
    else if not (level == 0xfd || level == 0xed)
    then k1
    else if ltb 0 level
    then dispatch_notice keybrd_back_light_toggle_on (set_asus_kblight 0xea k2)
    else k2
