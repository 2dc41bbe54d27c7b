-- ===== src/Keyboard/Scan/Prefixes.antt =====
-- Scan codes behind a prefix, and keys that repeat.
use apple_ps2smart_touch_pad.Common.{
  ℕ, ◌<◌, Bool, true, false, not, ◌&&◌, ◌≡◌, ◌≢◌, refl, ap, sym, ◌∙◌, ◌-◌, arith, ◌==◌,
  if◌then◌else◌, length,
}
use apple_ps2smart_touch_pad.Keyboard.State.{Keyboard}
use apple_ps2smart_touch_pad.Keyboard.Vector.Laws.{
  kbv_is_keydown-kbv_keydown, kbv_is_keydown-kbv_keyup,
}
use apple_ps2smart_touch_pad.Keyboard.Codes.{is_down, set_extended_code}
use apple_ps2smart_touch_pad.Keyboard.Scan.{
  dispatch_scan_code, dispatch_extended, dispatch_normal, dispatch_recorded, dispatch_key_code,
  record_key, repeats, set_extend_count, set_key_bit_vector, sc_extend, sc_pause,
}

module _ {A : Type 0} (scan count : ℕ) (w x y z v : A) (h1 : scan ≢ 0xe0) (h2 : scan ≢ 0xe1) where
  abbrev chosen : A
  chosen =
      if scan == 0xe0
      then w
      else if scan == 0xe1
      then x
      else if count == 0
      then y
      else if count - 1 == 0
      then z
      else v

  chosen-dropped : count ≡ 2 → chosen ≡ v
  chosen-dropped e = ground arith

  chosen-taken : count ≡ 1 → chosen ≡ z
  chosen-taken e = ground arith

scan_dropped :
    (a : ℕ) (k : Keyboard)
    → a ≢ 0xe0
    → a ≢ 0xe1
    → k.extend_count ≡ 2
    → dispatch_scan_code a k ≡ set_extend_count 1 (set_extended_code true k)
unfolding dispatch_scan_code
scan_dropped a k h1 h2 e =
    let counted : ℕ → Keyboard = λ n. set_extend_count (n - 1) (set_extended_code true k) in
    chosen-dropped a k.extend_count (set_extend_count 1 k) (set_extend_count 2 k)
      (dispatch_normal a k) (dispatch_extended a (counted k.extend_count)) (counted k.extend_count)
      h1 h2 e
    ∙ ap counted e

scan_taken :
    (b : ℕ) (k : Keyboard)
    → b ≢ 0xe0
    → b ≢ 0xe1
    → k.extend_count ≡ 1
    → dispatch_scan_code b k ≡ dispatch_extended b (set_extend_count 0 (set_extended_code true k))
unfolding dispatch_scan_code
scan_taken b k h1 h2 e =
    let counted : ℕ → Keyboard = λ n. set_extend_count (n - 1) (set_extended_code true k) in
    chosen-taken b k.extend_count (set_extend_count 1 k) (set_extend_count 2 k)
      (dispatch_normal b k) (dispatch_extended b (counted k.extend_count)) (counted k.extend_count)
      h1 h2 e
    ∙ ap (λ (n : ℕ). dispatch_extended b (counted n)) e

same_count :
    (k : Keyboard)
    → set_extend_count 0 (
        set_extended_code true (set_extend_count 1 (set_extended_code true (set_extend_count 2 k))))
      ≡ set_extend_count 0 (set_extended_code true (set_extend_count 1 k))
unfolding set_extend_count set_extended_code
same_count k = refl

-- Behind the prefix of Pause the first scan code is dropped, and the second is taken as if it came
-- behind the extended prefix.
pub dispatch_scan_code-pause :
    (a b : ℕ) (k : Keyboard)
    → a ≢ 0xe0
    → a ≢ 0xe1
    → b ≢ 0xe0
    → b ≢ 0xe1
    → dispatch_scan_code b (dispatch_scan_code a (dispatch_scan_code sc_pause k))
      ≡ dispatch_scan_code b (dispatch_scan_code sc_extend k)
unfolding dispatch_scan_code set_extend_count
dispatch_scan_code-pause a b k h1 h2 h3 h4 =
    let paused = set_extend_count 2 k in
    let dropped = set_extend_count 1 (set_extended_code true paused) in
    ap (dispatch_scan_code b) (scan_dropped a paused h1 h2 refl)
    ∙ scan_taken b dropped h3 h4 refl
    ∙ ap (dispatch_extended b) (same_count k)
    ∙ sym (scan_taken b (set_extend_count 1 k) h3 h4 refl)

-- With eight words in the bit list, recording a key as down or up changes what is read for that
-- key alone.
pub record_key-is_down :
    (m n : ℕ) (down : Bool) (k : Keyboard)
    → length k.key_bit_vector ≡ 8
    → n < 256
    → is_down m (record_key n down k) ≡ (if m == n then down else is_down m k)
unfolding record_key set_key_bit_vector is_down
record_key-is_down m n true k l h = kbv_is_keydown-kbv_keydown m n k.key_bit_vector l h
record_key-is_down m n false k l h = kbv_is_keydown-kbv_keyup m n k.key_bit_vector l h

-- A key that has been recorded as down repeats without effect, unless it is one of the four keys
-- whose repetition is let through, and only until it is recorded as up.
pub dispatch_key_code-repeated :
    (n : ℕ) (k : Keyboard)
    → length k.key_bit_vector ≡ 8
    → n < 256
    → repeats n (record_key n true k) ≡ false
    → dispatch_key_code n true (record_key n true k) ≡ record_key n true k
unfolding dispatch_key_code
dispatch_key_code-repeated n k l h once =
    let k1 = record_key n true k in
    let skipped : (true && is_down n k1 && not (repeats n k1)) ≡ true =
      ground (arith, record_key-is_down n n true k l h) in
    ap (λ (b : Bool). if b then k1 else dispatch_recorded n true (record_key n true k1)) skipped
