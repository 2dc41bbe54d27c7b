-- ===== src/Keyboard/Layouts/Distinct.antt =====
-- No key of a vendor's layout has two functions.
use apple_ps2smart_touch_pad.Common.{
  ℕ, Bool, true, false, not, ◌&&◌, ◌||◌, List, [], ◌∷◌, ◌≡◌, refl, ◌==◌,
}
use apple_ps2smart_touch_pad.Keyboard.State.{FnKeys}
use apple_ps2smart_touch_pad.Keyboard.Maps.{deadkey}
use apple_ps2smart_touch_pad.Keyboard.Layouts.{
  layout_asus, layout_dell, layout_acer, layout_samsung, layout_gigabyte, layout_lenovo, layout_hp,
  layout_lg, layout_msi,
}

-- The keys of the functions that every layout sets.
abbrev pub functions : FnKeys → List ℕ
functions f =
    f.system_sleep ∷ f.misson_ctl_fun ∷ f.launchpad_fun ∷ f.disp_sleep ∷ f.video_mirror ∷ f.touchpad
    ∷ f.bright_ness_down ∷ f.bright_ness_up ∷ f.vol_mute ∷ f.vol_down ∷ f.vol_up ∷ f.media_prev
    ∷ f.media_play ∷ f.media_next ∷ []

abbrev occurs : ℕ → List ℕ → Bool
occurs code [] = false
occurs code (c ∷ cs) = code == c || occurs code cs

-- No key but the one that does nothing occurs twice.
abbrev pub distinct : List ℕ → Bool
distinct [] = true
distinct (c ∷ cs) = (c == deadkey || not (occurs c cs)) && distinct cs

-- In the layouts of Asus, with a backlight or without, Dell, Acer, Samsung, Gigabyte, Lenovo, HP
-- and LG no key has two functions, whatever was configured before; in that of MSI some have.
pub layouts_distinct :
    (asus : Bool) (f : FnKeys)
    → (distinct (functions (layout_asus asus f)) ≡ true)
      × (distinct (functions (layout_dell f)) ≡ true)
      × (distinct (functions (layout_acer f)) ≡ true)
      × (distinct (functions (layout_samsung f)) ≡ true)
      × (distinct (functions (layout_gigabyte f)) ≡ true)
      × (distinct (functions (layout_lenovo f)) ≡ true)
      × (distinct (functions (layout_hp f)) ≡ true)
      × (distinct (functions (layout_lg f)) ≡ true)
      × (distinct (functions (layout_msi f)) ≡ false)
unfolding layout_asus layout_dell layout_acer layout_samsung layout_gigabyte layout_lenovo layout_hp
    layout_lg layout_msi
layouts_distinct true f = (refl, refl, refl, refl, refl, refl, refl, refl, refl)
layouts_distinct false f = (refl, refl, refl, refl, refl, refl, refl, refl, refl)
