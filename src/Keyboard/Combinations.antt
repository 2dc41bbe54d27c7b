-- ===== src/Keyboard/Combinations.antt =====
-- The shortcut strings of ApplePS2Keyboard.cpp: `ProcessKeyCombinations`, `ADBCodeForKeyChar`.
--
-- Characters are their ASCII codes.
pub mod Words
use apple_ps2smart_touch_pad.Common.{
  ℕ, suc, Bool, true, false, not, ◌&&◌, List, [], ◌∷◌, ◌++◌, map, Option, none, some, ◌==◌,
  if◌then◌else◌, length, leb, ◌≡◌, if_holds,
}
use apple_ps2smart_touch_pad.Keyboard.State.{
  adb, Keyboard, Text, dispatch_key, dispatch_sequence, fault,
}
use apple_ps2smart_touch_pad.Keyboard.Maps.{deadkey}

-- `!strncmp(key, name, strlen(key))`: an empty key passes for every name.
unfoldable pub starts : Text → Text → Bool
starts [] name = true
starts (a ∷ key) [] = false
starts (a ∷ key) (b ∷ name) = a == b && starts key name

-- The value of the first name in a chain of `else if` that a key passes for.
unfoldable pub code_of_name {ℓ} : {A : Type ℓ} → Text → List (Text × A) → A → A
unfolding starts
code_of_name key [] otherwise = otherwise
code_of_name key ((name, code) ∷ names) otherwise =
    if starts key name then code else code_of_name key names otherwise

-- The value of a case label, `otherwise` that of `default`.
unfoldable pub case_of {ℓ} : {A : Type ℓ} → ℕ → List (ℕ × A) → A → A
case_of x [] otherwise = otherwise
case_of x ((label, a) ∷ labels) otherwise = if x == label then a else case_of x labels otherwise

-- What holds of each case and of the default holds of the case that is taken.
unfoldable pub Cases : {A : Type 0} → (A → Type 0) → List (ℕ × A) → Type 0
Cases P [] = true ≡ true
Cases P ((label, a) ∷ labels) = P a × Cases P labels

pub case_of-Cases :
    {A : Type 0} (P : A → Type 0) (x : ℕ) (labels : List (ℕ × A)) (otherwise : A)
    → Cases P labels
    → P otherwise
    → P (case_of x labels otherwise)
unfolding case_of Cases
case_of-Cases P x [] otherwise c d = d
case_of-Cases P x ((label, a) ∷ labels) otherwise (pa, c) d =
    if_holds P (x == label) a (case_of x labels otherwise) pa
      (case_of-Cases P x labels otherwise c d)

unfoldable pub adb_code_for_key_char : ℕ → ℕ
unfolding case_of
adb_code_for_key_char char =
    case_of char
      ((0x41, 0x0)
        ∷ (0x42, 0xb)
        ∷ (0x43, 0x8)
        ∷ (0x44, 0x2)
        ∷ (0x45, 0xe)
        ∷ (0x46, 0x3)
        ∷ (0x47, 0x5)
        ∷ (0x48, 0x4)
        ∷ (0x49, 0x22)
        ∷ (0x4a, 0x26)
        ∷ (0x4b, 0x28)
        ∷ (0x4c, 0x25)
        ∷ (0x4d, 0x2e)
        ∷ (0x4e, 0x2d)
        ∷ (0x4f, 0x1f)
        ∷ (0x50, 0x23)
        ∷ (0x51, 0xc)
        ∷ (0x52, 0xf)
        ∷ (0x53, 0x1)
        ∷ (0x54, 0x11)
        ∷ (0x55, 0x20)
        ∷ (0x56, 0x9)
        ∷ (0x57, 0xd)
        ∷ (0x58, 0x7)
        ∷ (0x59, 0x10)
        ∷ (0x5a, 0x6)
        ∷ (0x31, 0x12)
        ∷ (0x32, 0x13)
        ∷ (0x33, 0x14)
        ∷ (0x34, 0x15)
        ∷ (0x35, 0x17)
        ∷ (0x36, 0x16)
        ∷ (0x37, 0x1a)
        ∷ (0x38, 0x1c)
        ∷ (0x39, 0x19)
        ∷ (0x30, 0x1d)
        ∷ (0x60, 0x32)
        ∷ (0x2d, 0x1b)
        ∷ (0x2b, 0x18)
        ∷ (0x5b, 0x21)
        ∷ (0x5d, 0x1e)
        ∷ (0x5c, 0x2a)
        ∷ (0x2f, 0x2c)
        ∷ (0x2e, 0x2f)
        ∷ (0x2c, 0x2b)
        ∷ (0x27, 0x27)
        ∷ (0x3b, 0x29)
        ∷ [])
      deadkey

-- The modifiers and special keys.
abbrev pub key_names : List (Text × ℕ)
key_names =
    (0x43 ∷ 0x4d ∷ 0x44 ∷ [], 0x36)
    ∷ (0x41 ∷ 0x4c ∷ 0x54 ∷ [], 0x3a)
    ∷ (0x43 ∷ 0x54 ∷ 0x52 ∷ 0x4c ∷ [], 0x3b)
    ∷ (0x53 ∷ 0x48 ∷ 0x46 ∷ 0x54 ∷ [], 0x38)
    ∷ (0x45 ∷ 0x53 ∷ 0x43 ∷ [], 0x35)
    ∷ (0x45 ∷ 0x4e ∷ 0x54 ∷ 0x52 ∷ [], 0x24)
    ∷ (0x53 ∷ 0x50 ∷ 0x43 ∷ 0x45 ∷ [], 0x31)
    ∷ (0x44 ∷ 0x41 ∷ 0x57 ∷ [], 0x7d)
    ∷ (0x55 ∷ 0x41 ∷ 0x57 ∷ [], 0x7e)
    ∷ (0x4c ∷ 0x41 ∷ 0x57 ∷ [], 0x7b)
    ∷ (0x52 ∷ 0x41 ∷ 0x57 ∷ [], 0x7c)
    ∷ (0x54 ∷ 0x41 ∷ 0x42 ∷ [], 0x30)
    ∷ []

-- `char key[5]`.
abbrev pub key_size : ℕ
key_size = 5

-- The code of a key that has been copied out; `strlen` of a full buffer reads behind it.
unfoldable pub key_code : Text → Option ℕ
unfolding code_of_name adb_code_for_key_char
key_code [] = some (code_of_name [] key_names deadkey)
key_code (char ∷ []) = some (adb_code_for_key_char char)
key_code (a ∷ b ∷ key) =
    if leb key_size (length (a ∷ b ∷ key))
    then none
    else some (code_of_name (a ∷ b ∷ key) key_names deadkey)

abbrev pub then_code : ℕ → Option (List ℕ) → Option (List ℕ)
then_code code none = none
then_code code (some codes) = some (code ∷ codes)

-- The end of the string: the code of the last key.
unfoldable pub last_code : Option ℕ → Option (List ℕ)
last_code none = none
last_code (some code) = if code == deadkey then some [] else some (code ∷ [])

-- A space behind a key: what goes on if its code is not sent, and if it is. The third code ends
-- the loop.
unfoldable pub next_code : Option ℕ → ℕ → Option (List ℕ) → Option (List ℕ) → Option (List ℕ)
next_code none l unsent sent = none
next_code (some code) l unsent sent =
    if code == deadkey then unsent else if suc l == 3 then some (code ∷ []) else then_code code sent

-- The rounds of the loop: the key copied so far, and `l`, how many codes have been dispatched.
-- `none` is an access behind the buffer.
unfoldable pub combination_codes : Text → Text → ℕ → Option (List ℕ)
unfolding key_code last_code next_code
combination_codes [] key l = last_code (key_code key)
combination_codes (char ∷ keys) key l =
    let unsent = combination_codes keys [] l in
    let sent = combination_codes keys [] (suc l) in
    let copied = combination_codes keys (key ++ (char ∷ [])) l in
    if char == 0x20
    then next_code (key_code key) l unsent sent
    else if leb key_size (length key)
    then none
    else copied

abbrev pub in_direction : Bool → List ℕ → List (ℕ × Bool)
in_direction down codes = map (λ code. (code, down)) codes

unfoldable pub dispatch_codes : Option (List ℕ) → Bool → Keyboard → Keyboard
unfolding dispatch_sequence
dispatch_codes none down k = fault k
dispatch_codes (some codes) down k = dispatch_sequence (in_direction down codes) k

-- The Shift key that came with the function key is up while the combination is down.
unfoldable pub process_key_combinations : Option Text → Bool → Bool → Keyboard → Keyboard
unfolding combination_codes dispatch_codes dispatch_key adb
process_key_combinations none down gesture k = k
process_key_combinations (some keys) down gesture k =
    let k1 = if down && not gesture then dispatch_key (adb 0x2a k) false k else k in
    let k2 = dispatch_codes (combination_codes keys [] 0) down k1 in
    if not down && not gesture then dispatch_key (adb 0x2a k) true k2 else k2
