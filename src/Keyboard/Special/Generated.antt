-- ===== src/Keyboard/Special/Generated.antt =====
-- The ADB code that is entered with the digits of the keypad.
use apple_ps2smart_touch_pad.Common.{
  ℕ, ◌+◌, ◌*◌, ◌%◌, ◌≤◌, Bool, true, false, [], ◌∷◌, ◌≡◌, ◌≢◌, refl, ap, ◌∙◌, arith, ◌==◌,
  if◌then◌else◌, get_or,
}
use apple_ps2smart_touch_pad.Keyboard.State.{Keyboard}
use apple_ps2smart_touch_pad.Keyboard.Combinations.{case_of}
use apple_ps2smart_touch_pad.Keyboard.Gestures.{dispatch_chords}
use apple_ps2smart_touch_pad.Keyboard.Special.{
  digit_of, enter_digit, set_codes, generate_and_see_adb_code,
}

-- The key of a digit on the keypad.
abbrev pub key_of_digit : ℕ → ℕ
key_of_digit d =
    get_or (0x52 ∷ 0x4f ∷ 0x50 ∷ 0x51 ∷ 0x4b ∷ 0x4c ∷ 0x4d ∷ 0x47 ∷ 0x48 ∷ 0x49 ∷ []) d 0

abbrev pub enter : ℕ → Keyboard → Keyboard
enter d k = generate_and_see_adb_code (key_of_digit d) true k

digit_of-key_of_digit : (d g : ℕ) → d ≤ 9 → digit_of (key_of_digit d) g ≡ d
unfolding digit_of case_of
digit_of-key_of_digit d g h = ground arith

abbrev put : ℕ × ℕ × ℕ → Keyboard → Keyboard
put codes k = set_codes codes.0 codes.1 codes.2 k

entered :
    (d : ℕ) (k : Keyboard) → d ≤ 9 → enter d k ≡ put (enter_digit d k.temp_code1 k.temp_code2) k
unfolding generate_and_see_adb_code
entered d k h =
    ap (λ (x : ℕ). put (enter_digit x k.temp_code1 k.temp_code2) k)
      (digit_of-key_of_digit d k.generated_code h)

enter_as :
    (d g a b t1 t2 : ℕ) (k : Keyboard)
    → d ≤ 9
    → k.temp_code1 ≡ t1
    → k.temp_code2 ≡ t2
    → enter_digit d t1 t2 ≡ (g, a, b)
    → enter d k ≡ set_codes g a b k
enter_as d g a b t1 t2 k h e1 e2 e =
    entered d k h
    ∙ ap (λ (x : ℕ). put (enter_digit d x k.temp_code2) k) e1
    ∙ ap (λ (x : ℕ). put (enter_digit d t1 x) k) e2
    ∙ ap (λ (codes : ℕ × ℕ × ℕ). put codes k) e

sent :
    (v a b : ℕ) (k : Keyboard)
    → v ≢ 0
    → generate_and_see_adb_code 0x5d false (set_codes v a b k)
      ≡ set_codes 0 0 0 (dispatch_chords ((v ∷ []) ∷ []) (set_codes v a b k))
unfolding generate_and_see_adb_code set_codes
sent v a b k h =
    let k1 = set_codes v a b k in
    let other : (v == 0) ≡ false = ground arith in
    ap (λ (t : Bool). if t then k1 else set_codes 0 0 0 (dispatch_chords ((v ∷ []) ∷ []) k1)) other

twice :
    (v a b v' a' b' : ℕ) (k : Keyboard) → set_codes v a b (set_codes v' a' b' k) ≡ set_codes v a b k
unfolding set_codes
twice v a b v' a' b' k = refl

module _ (d1 d2 d3 : ℕ) (h1 : 1 ≤ d1) (h2 : d1 ≤ 9) (h3 : d2 ≤ 9) (h4 : d3 ≤ 9) where
  first_digit : enter_digit d1 0 0 ≡ (d1, d1, 0)
  unfolding enter_digit
  first_digit = refl

  second_digit : enter_digit d2 d1 0 ≡ ((d1 * 10 + d2) % 256, d1, if d2 == 0 then 10 else d2)
  unfolding enter_digit
  second_digit = ground arith

  third_digit :
      enter_digit d3 d1 (if d2 == 0 then 10 else d2) ≡ ((d1 * 100 + d2 * 10 + d3) % 256, d1, d2)
  unfolding enter_digit
  third_digit = ground arith

-- Three digits entered on the keypad, the first of them not 0, are the ADB code that is pressed
-- and released when the Fn key comes up, reduced to a byte, unless that is 0; nothing of the
-- digits is left.
pub generate_and_see_adb_code-digits :
    (d1 d2 d3 : ℕ) (k : Keyboard)
    → 1 ≤ d1
    → d1 ≤ 9
    → d2 ≤ 9
    → d3 ≤ 9
    → (d1 * 100 + d2 * 10 + d3) % 256 ≢ 0
    → k.temp_code1 ≡ 0
    → k.temp_code2 ≡ 0
    → generate_and_see_adb_code 0x5d false (enter d3 (enter d2 (enter d1 k)))
      ≡ set_codes 0 0 0 (
          dispatch_chords
            ((((d1 * 100 + d2 * 10 + d3) % 256) ∷ []) ∷ [])
            (set_codes ((d1 * 100 + d2 * 10 + d3) % 256) d1 d2 k))
unfolding set_codes
generate_and_see_adb_code-digits d1 d2 d3 k h1 h2 h3 h4 h5 e1 e2 =
    let v = (d1 * 100 + d2 * 10 + d3) % 256 in
    let t2 = if d2 == 0 then 10 else d2 in
    let v2 = (d1 * 10 + d2) % 256 in
    let k1 = set_codes d1 d1 0 k in
    let k2 = set_codes v2 d1 t2 k1 in
    let p1 : enter d1 k ≡ k1 =
      enter_as d1 d1 d1 0 0 0 k h2 e1 e2 (first_digit d1 d2 d3 h1 h2 h3 h4) in
    let p2 : enter d2 k1 ≡ k2 =
      enter_as d2 v2 d1 t2 d1 0 k1 h3 refl refl (second_digit d1 d2 d3 h1 h2 h3 h4) in
    let p3 : enter d3 k2 ≡ set_codes v d1 d2 k2 =
      enter_as d3 v d1 d2 d1 t2 k2 h4 refl refl (third_digit d1 d2 d3 h1 h2 h3 h4) in
    let all : enter d3 (enter d2 (enter d1 k)) ≡ set_codes v d1 d2 k =
      ap (λ (x : Keyboard). enter d3 (enter d2 x)) p1
      ∙ ap (enter d3) p2
      ∙ p3
      ∙ twice v d1 d2 v2 d1 t2 k1
      ∙ twice v d1 d2 d1 d1 0 k in
    ap (generate_and_see_adb_code 0x5d false) all ∙ sent v d1 d2 k h5
