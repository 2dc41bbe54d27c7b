-- ===== src/Touchpad/Notified/Twice.antt =====
-- The keys that toggle a feature of the touchpad.
use apple_ps2smart_touch_pad.Common.{
  ℕ, Bool, true, Option, none, some, ◌≡◌, refl, ap, ◌∙◌, subst, arith,
}
use apple_ps2smart_touch_pad.Keyboard.Combinations.{Cases, case_of-Cases}
use apple_ps2smart_touch_pad.Touchpad.Features.{
  Toggles, Floats, Features, nudge, toggle, set_toggles, report,
}
use apple_ps2smart_touch_pad.Touchpad.Notified.{
  toggle_of, toggle_cases, toggle_or_event, receive_quietly,
}

-- Two flips of a case change nothing.
unfoldable Restores : Option ((Toggles → Toggles) × (Toggles → Bool)) → Type 0
Restores none = true ≡ true
Restores (some f) = (t : Toggles) → f.0 (f.0 t) ≡ t

toggle_of-Restores : (n : ℕ) → Restores (toggle_of n)
unfolding toggle_of toggle_cases Restores Cases
toggle_of-Restores n =
    case_of-Cases Restores n toggle_cases none
      (
        λ t. ground arith,
        (
          λ t. ground arith,
          (
            λ t. ground arith,
            (
              λ t. ground arith,
              (
                λ t. ground arith,
                (
                  λ t. ground arith,
                  (
                    λ t. ground arith,
                    (λ t. ground arith, (λ t. ground arith, (λ t. ground arith, refl))),
                  ),
                ),
              ),
            ),
          ),
        ),
      )
      refl

module _ {F : Type 0} (floats : Floats F) where
  pub receive_quietly-toggle :
      (now n : ℕ) (f : (Toggles → Toggles) × (Toggles → Bool)) (p : Features F)
      → toggle_of n ≡ some f
      → receive_quietly floats now n p ≡ toggle f.0 f.1 p
  unfolding receive_quietly toggle_or_event
  receive_quietly-toggle now n f p e = ap (λ o. toggle_or_event floats o now n p) e

  -- A key that toggles features, pressed twice, leaves all features as they were; the pointer has
  -- been nudged twice, by the features as they were in between and as they are.
  pub receive_quietly-twice :
      (first second n : ℕ) (f : (Toggles → Toggles) × (Toggles → Bool)) (p : Features F)
      → toggle_of n ≡ some f
      → receive_quietly floats second n (receive_quietly floats first n p)
        ≡ nudge (f.1 p.toggles) (nudge (f.1 (f.0 p.toggles)) p)
  unfolding toggle nudge report set_toggles Restores
  receive_quietly-twice first second n f p e =
      let back : (t : Toggles) → f.0 (f.0 t) ≡ t = subst Restores e (toggle_of-Restores n) in
      let t = f.0 p.toggles in
      ap (receive_quietly floats second n) (receive_quietly-toggle first n f p e)
      ∙ receive_quietly-toggle second n f (toggle f.0 f.1 p) e
      ∙ ap (λ u. nudge (f.1 u) (set_toggles u (nudge (f.1 t) p))) (back p.toggles)
