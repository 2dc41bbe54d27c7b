-- ===== src/Touchpad/Notified/Typing.antt =====
-- Typing: the keys that the keyboard driver tells of, and the touchpad's guard against touches that
-- were not meant.
use apple_ps2smart_touch_pad.Common.{
  ℕ, zero, suc, ◌&&◌, ◌+◌, ◌<◌, Bool, true, false, List, [], ◌∷◌, ◌≡◌, refl, ap, ◌∙◌, arith, leb,
  length, ◌⊎◌, inl, inr,
}
use apple_ps2smart_touch_pad.Keyboard.Combinations.{case_of}
use apple_ps2smart_touch_pad.Keyboard.Notices
use apple_ps2smart_touch_pad.Touchpad.Features.{Floats, Features}
use apple_ps2smart_touch_pad.Touchpad.Notified.{
  toggle_or_event, receive_quietly, receive_event, event_cases, toggle_of, toggle_cases, count_key,
  set_surroundings, enable_touchpad,
}

abbrev pub is_accidental : {F : Type 0} → Features F → Bool
is_accidental p = p.pad.surroundings.accidental_input

module _ {F : Type 0} (floats : Floats F) where
  -- Keys typed at the given times.
  unfoldable pub type_keys : List ℕ → Features F → Features F
  type_keys [] p = p
  type_keys (now ∷ times) p =
      type_keys times (receive_quietly floats now Notices.accidental_input p)

  receive_quietly-count_key :
      (now : ℕ) (p : Features F)
      → receive_quietly floats now Notices.accidental_input p ≡ count_key now p
  unfolding receive_quietly toggle_or_event receive_event event_cases toggle_of toggle_cases case_of
  receive_quietly-count_key now p = refl

  -- What the guard goes by.
  pub record IsGuarding (threshold : ℕ) (p : Features F) : Type 0 where
    pub typing : p.pad.surroundings.is_type_mode_enabled ≡ true
    pub after : p.acc_input_keys_count ≡ threshold

  count_key-IsGuarding :
      (t now : ℕ) (p : Features F) → IsGuarding t p → IsGuarding t (count_key now p)
  unfolding count_key set_surroundings
  count_key-IsGuarding t now p g = ground (arith, g)

  count_key_on :
      (now : ℕ) (p : Features F)
      → p.pad.surroundings.accidental_input ≡ true
      → (count_key now p).pad.surroundings.accidental_input ≡ true
  unfolding count_key set_surroundings
  count_key_on now p e = ground arith

  stays_on :
      (times : List ℕ) (p : Features F)
      → p.pad.surroundings.accidental_input ≡ true
      → is_accidental (type_keys times p) ≡ true
  unfolding type_keys
  stays_on [] p e = e
  stays_on (now ∷ times) p e =
      ap (λ q. is_accidental (type_keys times q)) (receive_quietly-count_key now p)
      ∙ stays_on times (count_key now p) (count_key_on now p e)

  reaches : (c t : ℕ) → c < t → (c + 1 ≡ t) ⊎ (c + 1 < t)
  reaches c t h = omega arith

  -- The key that reaches the threshold, and one that does not.
  count_key_last :
      (t now : ℕ) (p : Features F)
      → IsGuarding t p
      → t < 256
      → p.pad.surroundings.keys_count + 1 ≡ t
      → (count_key now p).pad.surroundings.accidental_input ≡ true
  unfolding count_key set_surroundings
  count_key_last t now p g hi e = ground (arith, g)

  count_key_early :
      (t now : ℕ) (p : Features F)
      → IsGuarding t p
      → t < 256
      → p.pad.surroundings.keys_count + 1 < t
      → p.pad.surroundings.accidental_input ≡ false
      → ((count_key now p).pad.surroundings.accidental_input ≡ false)
        × ((count_key now p).pad.surroundings.keys_count ≡ p.pad.surroundings.keys_count + 1)
  unfolding count_key set_surroundings
  count_key_early t now p g hi e off = ground (arith, g)

  counts :
      (t : ℕ) (times : List ℕ) (p : Features F)
      → IsGuarding t p
      → t < 256
      → p.pad.surroundings.keys_count < t
      → p.pad.surroundings.accidental_input ≡ false
      → is_accidental (type_keys times p) ≡ leb t (p.pad.surroundings.keys_count + length times)
  unfolding type_keys
  counts t [] p g hi low off = ground arith
  counts t (now ∷ times) p g hi low off =
      let q = count_key now p in
      let step = ap (λ q. is_accidental (type_keys times q)) (receive_quietly-count_key now p) in
      elim (reaches (p.pad.surroundings.keys_count) t low) [
        | inl last ↦ step ∙ stays_on times q (count_key_last t now p g hi last) ∙ ground (arith)
        | inr early ↦
            let (off', more) = count_key_early t now p g hi early off in
            step
            ∙ counts t times q (count_key-IsGuarding t now p g) hi (omega (arith, more)) off'
            ∙ ground (arith, more)
      ]

  count_key_at_once :
      (now : ℕ) (p : Features F)
      → IsGuarding 0 p
      → (count_key now p).pad.surroundings.accidental_input ≡ true
  unfolding count_key set_surroundings
  count_key_at_once now p g = ground (arith, g)

  -- From the notification that enables the touchpad on, with the guard on typing enabled, input is
  -- marked as accidental exactly when a key was typed and at least as many as the threshold says.
  pub type_keys-accidental_input :
      (now t : ℕ) (times : List ℕ) (p : Features F)
      → p.pad.surroundings.is_type_mode_enabled ≡ true
      → p.acc_input_keys_count ≡ t
      → t < 256
      → is_accidental (type_keys times (receive_quietly floats now Notices.enable_touchpad p))
        ≡ (leb 1 (length times) && leb t (length times))
  unfolding receive_quietly toggle_or_event receive_event event_cases toggle_of toggle_cases case_of
      enable_touchpad set_surroundings type_keys
  type_keys-accidental_input now zero [] p typing threshold hi = refl
  type_keys-accidental_input now zero (x ∷ times) p typing threshold hi =
      let p1 = enable_touchpad now p in
      let start : IsGuarding 0 p1 = record { typing = typing; after = threshold } in
      ap (λ q. is_accidental (type_keys times q)) (receive_quietly-count_key x p1)
      ∙ stays_on times (count_key x p1) (count_key_at_once x p1 start)
      ∙ ground arith
  type_keys-accidental_input now (suc t) times p typing threshold hi =
      let p1 = enable_touchpad now p in
      let start : IsGuarding (suc t) p1 = record { typing = typing; after = threshold } in
      counts (suc t) times p1 start hi (omega arith) refl ∙ ground arith
