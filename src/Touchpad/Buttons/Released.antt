-- ===== src/Touchpad/Buttons/Released.antt =====
-- The physical buttons: what is down for the system comes up again.
use apple_ps2smart_touch_pad.Common.{
  ℕ, Bool, true, false, List, [], ◌∷◌, ◌%◌, ◌==◌, ◌||◌, ◌≡◌, ◌⊎◌, inl, inr, refl, ◌∙◌, if_holds,
  bit_or, bit_or-right_zero, arith, subst, sym, if◌then◌else◌,
}
use apple_ps2smart_touch_pad.Touchpad.Features.{
  Features, notified, report, set_buttons, release_app_switch, set_app_switch_done, click,
}
use apple_ps2smart_touch_pad.Touchpad.Positions.{byte}
use apple_ps2smart_touch_pad.Touchpad.Timers.Reported.{buttons_from, report-buttons}
use apple_ps2smart_touch_pad.Touchpad.Buttons.{
  Buttons, button_bits, press, end_click, release, stop_pointer_enhance_timer, switch_buttons,
  process_physical_buttons, process_all_buttons,
}

unless_first :
    {A : Type 0} (P : A → Type 0) (a b : Bool) (x y : A)
    → P x
    → (a ≡ false → P y)
    → P (if a || b then x else y)
unless_first P true b x y px k = px
unless_first P false true x y px k = px
unless_first P false false x y px k = k refl

enabled_step :
    {A : Type 0} (P : A → Type 0) (off same : Bool) (x y z : A)
    → off ≡ false
    → (same ≡ true → P y)
    → P z
    → P (if off then x else if same then y else z)
enabled_step P true same x y z e k pz = absurd (ground arith)
enabled_step P false true x y z e k pz = k refl
enabled_step P false false x y z e k pz = pz

same_none : (state bits : ℕ) → bits ≡ 0 → (state == bits) ≡ true → state ≡ 0
same_none state bits e t = ground arith

module _ {F : Type 0} where
  unfoldable pub reported : Buttons F → ℕ
  reported b = buttons_from b.features.outputs 0

  -- The driver's record of the buttons: with none in its state, the system knows of none; with one,
  -- the release of it is due.
  unfoldable pub IsHeld : Buttons F → Type 0
  IsHeld b =
      (b.disable_clicks ≡ false)
      × (b.features.button_state ≡ 0 → reported b ≡ 0)
      × ((b.triggered ≡ true) ⊎ (b.features.button_state ≡ 0))

  press-IsHeld : (d : ℕ) (b : Buttons F) → b.disable_clicks ≡ false → IsHeld (press d b)
  unfolding IsHeld reported press report set_buttons buttons_from
  press-IsHeld d b on = (
    on,
    λ e.
        report-buttons (click d ∷ []) (set_buttons d (bit_or b.features.button_state d) b.features)
        ∙ bit_or-right_zero b.features.button_state d e,
    inl refl,
  )

  enabled : (b : Buttons F) → IsHeld b → b.disable_clicks ≡ false
  unfolding IsHeld
  enabled b (on, quiet, due) = on

  right_click-IsHeld : (b : Buttons F) → IsHeld b → IsHeld (record b { right_click = true })
  unfolding IsHeld reported
  right_click-IsHeld b h = h

  -- No button is down, for the driver or for the system.
  unfoldable pub IsClear : Features F → Type 0
  IsClear p = (p.button_state ≡ 0) × (buttons_from p.outputs 0 ≡ 0)

  unfoldable pub IsReleased : Buttons F → Type 0
  IsReleased b = (b.disable_clicks ≡ false) × IsClear b.features

  release_app_switch-IsClear : (p : Features F) → IsClear p → IsClear (release_app_switch p)
  unfolding IsClear release_app_switch set_app_switch_done report buttons_from
  release_app_switch-IsClear p (z, q) =
      if_holds IsClear p.is_app_switch_done _ p (z, report-buttons (notified 45 ∷ []) p ∙ q) (z, q)

  end_click-IsReleased :
      (d : ℕ) (b : Buttons F) → b.disable_clicks ≡ false → IsReleased (end_click d b)
  unfolding IsReleased IsClear end_click report set_buttons buttons_from
  end_click-IsReleased d b on = (
    on,
    release_app_switch-IsClear _
        (refl, report-buttons (click d ∷ click 0 ∷ []) (set_buttons d 0 b.features)),
  )

  IsHeld-IsReleased : (b : Buttons F) → IsHeld b → b.features.button_state ≡ 0 → IsReleased b
  unfolding IsHeld IsReleased IsClear reported
  IsHeld-IsReleased b (on, quiet, due) z = (on, (z, quiet z))

  IsReleased-IsHeld : (b : Buttons F) → IsReleased b → IsHeld b
  unfolding IsHeld IsReleased IsClear reported
  IsReleased-IsHeld b (on, (z, q)) = (on, λ _. q, inr z)

  kept-IsReleased : (b : Buttons F) → IsHeld b → b.triggered ≡ false → IsReleased b
  unfolding IsHeld
  kept-IsReleased b (on, quiet, inl t) f = absurd (ground arith)
  kept-IsReleased b (on, quiet, inr z) f = IsHeld-IsReleased b (on, quiet, inr z) z

  release-IsReleased : (d : ℕ) (b : Buttons F) → IsHeld b → IsReleased (release d b)
  unfolding IsReleased IsClear IsHeld release set_buttons stop_pointer_enhance_timer
  release-IsReleased d b h =
      let b1 = if b.triggered || b.right_click then end_click d b else b in
      let h1 : IsReleased b1 =
        unless_first IsReleased b.triggered b.right_click _ b
          (end_click-IsReleased d b (enabled b h)) (kept-IsReleased b h) in
      if_holds IsReleased b1.p_continuous_move _ _ h1 h1

  switch_buttons-IsHeld : (d : ℕ) (b : Buttons F) → IsHeld b → IsHeld (switch_buttons d b)
  unfolding switch_buttons
  switch_buttons-IsHeld d b h =
      let on = enabled b h in
      if_holds IsHeld (d == 4 || d == 3) _ _ (press-IsHeld (if b.enable_middle then 4 else 0) b on)
        (if_holds IsHeld (d == 1) _ _ (press-IsHeld 1 b on) (
          if_holds IsHeld (d == 2) _ _ (right_click-IsHeld (press 2 b) (press-IsHeld 2 b on))
            (IsReleased-IsHeld _ (release-IsReleased d b h))))

  noted : List ℕ → Buttons F → Buttons F
  noted packet b = record b {
    features = set_buttons (button_bits packet b) b.features.button_state b.features;
  }

  noted-IsHeld : (packet : List ℕ) (b : Buttons F) → IsHeld b → IsHeld (noted packet b)
  unfolding noted IsHeld reported set_buttons
  noted-IsHeld packet b h = h

  process-IsHeld :
      (packet : List ℕ) (b : Buttons F) → IsHeld b → IsHeld (process_physical_buttons packet b)
  unfolding process_physical_buttons noted
  process-IsHeld packet b h =
      let h1 : IsHeld (noted packet b) = noted-IsHeld packet b h in
      if_holds IsHeld b.disable_clicks b _ h (
        if_holds IsHeld (b.features.button_state == button_bits packet b) _ _ h1
          (switch_buttons-IsHeld (button_bits packet b) (noted packet b) h1))

  process_all-IsHeld :
      (packets : List (List ℕ)) (b : Buttons F) → IsHeld b → IsHeld (process_all_buttons packets b)
  unfolding process_all_buttons
  process_all-IsHeld [] b h = h
  process_all-IsHeld (packet ∷ packets) b h =
      process_all-IsHeld packets (process_physical_buttons packet b) (process-IsHeld packet b h)

  no_bits :
      (packet : List ℕ) (b : Buttons F)
      → byte packet 0 % 4 ≡ 0
      → byte packet 1 % 8 ≡ 0
      → button_bits packet b ≡ 0
  unfolding button_bits
  no_bits packet b e0 e1 = if_holds (λ n. n ≡ 0) _ _ _ e1 e0

  switch_none-IsReleased : (b : Buttons F) → IsHeld b → IsReleased (switch_buttons 0 b)
  unfolding switch_buttons
  switch_none-IsReleased b h = release-IsReleased 0 b h

  empty_packet-IsReleased :
      (packet : List ℕ) (b : Buttons F)
      → IsHeld b
      → button_bits packet b ≡ 0
      → IsReleased (process_physical_buttons packet b)
  unfolding process_physical_buttons noted set_buttons
  empty_packet-IsReleased packet b h e =
      let b1 = noted packet b in
      let h1 : IsHeld b1 = noted-IsHeld packet b h in
      enabled_step IsReleased b.disable_clicks (b.features.button_state == button_bits packet b) b
        b1 _ (enabled b h)
        (λ t.
          IsHeld-IsReleased b1 h1 (same_none b.features.button_state (button_bits packet b) e t))
        (subst (λ d. IsReleased (switch_buttons d b1)) (sym e) (switch_none-IsReleased b1 h1))

  -- If clicks are enabled, and at first no button is down for the system unless the driver's state has
  -- one and its release is due, then after any packets one with none of its button bits set lets
  -- go of all: the state has no button, and the system knows of none.
  pub process_all_buttons-release :
      (packets : List (List ℕ)) (packet : List ℕ) (b : Buttons F)
      → IsHeld b
      → byte packet 0 % 4 ≡ 0
      → byte packet 1 % 8 ≡ 0
      → IsReleased (process_physical_buttons packet (process_all_buttons packets b))
  process_all_buttons-release packets packet b h e0 e1 =
      let b1 = process_all_buttons packets b in
      empty_packet-IsReleased packet b1 (process_all-IsHeld packets b h) (no_bits packet b1 e0 e1)
