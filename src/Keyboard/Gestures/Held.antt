-- ===== src/Keyboard/Gestures/Held.antt =====
-- The keys that the system takes to be held, after the events so far.
use apple_ps2smart_touch_pad.Common.{
  ℕ, ◌-◌, get_or, Bool, true, false, List, [], ◌∷◌, ◌++◌, Option, none, some, ◌≡◌, ◌≢◌, refl, ◌∙◌,
  ap, arith, ◌==◌, if◌then◌else◌,
}
use apple_ps2smart_touch_pad.Keyboard.State.{
  extended_adb, adb, Keyboard, Event, key, emit, dispatch_key, dispatch_sequence,
  set_release_gesture_key, set_osx_version,
}
use apple_ps2smart_touch_pad.Keyboard.Gestures.{
  chord, dispatch_chords, read_keyboard_modifiers, gesture_chords, gesture_combination,
  gesture_modifier, prepared, receive_gesture,
}
use apple_ps2smart_touch_pad.Keyboard.Combinations.{
  in_direction, dispatch_codes, process_key_combinations, combination_codes,
}

-- Whether a key is down behind an event, given whether it was before.
abbrev pub held_by : ℕ → Event → Bool → Bool
held_by code (key c down) held = if c == code then down else held
held_by code _ held = held

unfoldable pub held_from : ℕ → List Event → Bool → Bool
held_from code [] held = held
held_from code (e ∷ es) held = held_from code es (held_by code e held)

unfoldable pub is_held : ℕ → Keyboard → Bool
unfolding held_from
is_held code k = held_from code k.events false

abbrev pub after_keys : ℕ → List (ℕ × Bool) → Bool → Bool
after_keys code [] held = held
after_keys code ((c, down) ∷ ks) held = after_keys code ks (if c == code then down else held)

held_from-append :
    (code : ℕ) (es fs : List Event) (held : Bool)
    → held_from code (es ++ fs) held ≡ held_from code fs (held_from code es held)
unfolding held_from
held_from-append code [] fs held = refl
held_from-append code (e ∷ es) fs held = held_from-append code es fs (held_by code e held)

pub is_held-emit :
    (code : ℕ) (es : List Event) (k : Keyboard)
    → is_held code (emit es k) ≡ held_from code es (is_held code k)
unfolding is_held emit
is_held-emit code es k = held_from-append code k.events es false

pub is_held-dispatch_key :
    (code c : ℕ) (down : Bool) (k : Keyboard)
    → is_held code (dispatch_key c down k) ≡ (if c == code then down else is_held code k)
unfolding dispatch_key held_from is_held
is_held-dispatch_key code c down k =
    is_held-emit code (key c down ∷ []) (record k { now = k.world.uptime })

pub is_held-dispatch_sequence :
    (code : ℕ) (ks : List (ℕ × Bool)) (k : Keyboard)
    → is_held code (dispatch_sequence ks k) ≡ after_keys code ks (is_held code k)
unfolding dispatch_sequence
is_held-dispatch_sequence code [] k = refl
is_held-dispatch_sequence code ((c, down) ∷ ks) k =
    is_held-dispatch_sequence code ks (dispatch_key c down k)
    ∙ ap (λ (h : Bool). after_keys code ks h) (is_held-dispatch_key code c down k)

after_keys-append :
    (code : ℕ) (ks ls : List (ℕ × Bool)) (held : Bool)
    → after_keys code (ks ++ ls) held ≡ after_keys code ls (after_keys code ks held)
after_keys-append code [] ls held = refl
after_keys-append code ((c, down) ∷ ks) ls held =
    after_keys-append code ks ls (if c == code then down else held)

after_keys-chord : (code : ℕ) (codes : List ℕ) → after_keys code (chord codes) false ≡ false
unfolding chord
after_keys-chord code [] = refl
after_keys-chord code (c ∷ codes) = ground (
  arith,
  after_keys-append code (chord codes) ((c, false) ∷ []) (if c == code then true else false),
  after_keys-chord code codes,
)

pub is_held-dispatch_chords :
    (code : ℕ) (chords : List (List ℕ)) (k : Keyboard)
    → is_held code k ≡ false
    → is_held code (dispatch_chords chords k) ≡ false
unfolding dispatch_chords
is_held-dispatch_chords code [] k up = up
is_held-dispatch_chords code (codes ∷ chords) k up =
    is_held-dispatch_chords code chords (dispatch_sequence (chord codes) k) (
      is_held-dispatch_sequence code (chord codes) k
      ∙ ap (λ (h : Bool). after_keys code (chord codes) h) up
      ∙ after_keys-chord code codes)

abbrev among : ℕ → List ℕ → Bool
among code [] = false
among code (c ∷ cs) = if c == code then true else among code cs

after_keys-in_direction :
    (code : ℕ) (down : Bool) (codes : List ℕ) (held : Bool)
    → after_keys code (in_direction down codes) held ≡ (if among code codes then down else held)
after_keys-in_direction code down [] held = refl
after_keys-in_direction code down (c ∷ codes) held =
    ground (arith, after_keys-in_direction code down codes (if c == code then down else held))

dispatch_codes-twice :
    (code : ℕ) (codes : Option (List ℕ)) (k : Keyboard)
    → is_held code k ≡ false
    → is_held code (dispatch_codes codes false (dispatch_codes codes true k)) ≡ false
unfolding dispatch_codes is_held
dispatch_codes-twice code none k up = up
dispatch_codes-twice code (some codes) k up =
    let k1 = dispatch_sequence (in_direction true codes) k in
    ground (
      arith,
      is_held-dispatch_sequence code (in_direction false codes) k1,
      is_held-dispatch_sequence code (in_direction true codes) k,
      after_keys-in_direction code true codes (is_held code k),
      after_keys-in_direction code false codes (is_held code k1),
      up,
    )

is_held-combination :
    (code : ℕ) (keys : Option (List ℕ)) (k : Keyboard)
    → is_held code k ≡ false
    → is_held code
        (process_key_combinations keys false true (process_key_combinations keys true true k))
      ≡ false
unfolding process_key_combinations
is_held-combination code none k up = up
is_held-combination code (some keys) k up =
    dispatch_codes-twice code (combination_codes keys [] 0) k up

is_held-read_keyboard_modifiers :
    (code : ℕ) (k : Keyboard) → is_held code (read_keyboard_modifiers k) ≡ is_held code k
unfolding read_keyboard_modifiers is_held
is_held-read_keyboard_modifiers code k = ground arith

pub is_held-set_release_gesture_key :
    (code : ℕ) (b : Bool) (k : Keyboard)
    → is_held code (set_release_gesture_key b k) ≡ is_held code k
unfolding set_release_gesture_key is_held
is_held-set_release_gesture_key code b k = refl

pub is_held-set_osx_version :
    (code n : ℕ) (k : Keyboard) → is_held code (set_osx_version n k) ≡ is_held code k
unfolding set_osx_version is_held
is_held-set_osx_version code n k = refl

pub is_held-dispatch_release :
    (code c : ℕ) (k : Keyboard)
    → is_held code k ≡ false
    → is_held code (dispatch_key c false k) ≡ false
is_held-dispatch_release code c k up = ground (arith, is_held-dispatch_key code c false k)

is_held-gesture_modifier :
    (code n : ℕ) (k : Keyboard)
    → is_held code k ≡ false
    → n ≢ 1
    → n ≢ 62
    → is_held code (gesture_modifier n k) ≡ false
unfolding gesture_modifier
is_held-gesture_modifier code n k up h1 h2 =
    let cmd = extended_adb k.modifiers.command_key k in
    let k1 = read_keyboard_modifiers k in
    let k2 = dispatch_key (adb k1.modifiers.contrl_key k1) false k1 in
    let u1 : is_held code k1 ≡ false = is_held-read_keyboard_modifiers code k ∙ up in
    let u2 : is_held code k2 ≡ false =
      is_held-dispatch_release code (adb k1.modifiers.contrl_key k1) k1 u1 in
    let r = dispatch_key cmd false k in
    ground (
      arith,
      is_held-set_release_gesture_key code false (dispatch_chords ((cmd ∷ []) ∷ []) r),
      is_held-dispatch_chords code ((cmd ∷ []) ∷ []) r (is_held-dispatch_release code cmd k up),
      is_held-dispatch_chords code ((extended_adb k2.modifiers.contrl_key k2 ∷ []) ∷ []) k2 u2,
    )

pub is_held-prepared : (code n : ℕ) (k : Keyboard) → is_held code (prepared n k) ≡ is_held code k
unfolding prepared
is_held-prepared code n k =
    let k1 = set_osx_version n k in
    ground (
      arith,
      is_held-set_osx_version code n k,
      is_held-read_keyboard_modifiers code k1,
      is_held-read_keyboard_modifiers code k,
    )

-- A key that is up before a notification is up behind it: the keys of a gesture go down and up
-- again, unless it is the switch of applications or the control key that goes down.
pub receive_gesture_releases :
    (code n : ℕ) (k : Keyboard)
    → is_held code k ≡ false
    → n ≢ 1
    → n ≢ 62
    → is_held code (receive_gesture n k) ≡ false
unfolding receive_gesture gesture_combination
receive_gesture_releases code n k up h1 h2 =
    let k1 = prepared n k in
    let u1 : is_held code k1 ≡ false = is_held-prepared code n k ∙ up in
    let chords = gesture_chords n k1 in
    ground (
      arith,
      is_held-combination code (get_or k1.fx (n - 21) none) k1 u1,
      is_held-gesture_modifier code n (dispatch_chords chords k1)
          (is_held-dispatch_chords code chords k1 u1) h1 h2,
    )
