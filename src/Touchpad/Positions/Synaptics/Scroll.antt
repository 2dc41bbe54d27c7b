-- ===== src/Touchpad/Positions/Synaptics/Scroll.antt =====
-- `Synaptics_report_absolute` of ApplePS2SmartTouchPad.cpp: the two loops over the scrolling of the
-- middle button. `m_scroll` is an `UInt32`, and `-4` is compared with it as 2^32 - 4.
use apple_ps2smart_touch_pad.Common.{
  ℕ, zero, suc, ◌+◌, ◌-◌, ◌*◌, ◌%◌, ◌^◌, ◌<◌, Option, none, some, if◌then◌else◌, leb, ◌≡◌, refl,
  arith, ◌⊎◌, inl, and_then,
}

unfoldable pub scroll_back : ℕ → ℕ → Option ℕ
scroll_back zero m = none
scroll_back (suc fuel) m = let rest = scroll_back fuel (m - 4) in if leb 4 m then rest else some m

unfoldable pub scroll_forward : ℕ → ℕ → Option ℕ
scroll_forward zero m = none
scroll_forward (suc fuel) m =
    let rest = scroll_forward fuel ((m + 4) % 2 ^ 32) in if leb m (2 ^ 32 - 4) then rest else some m

-- `m_scroll` is doubled, and runs through the two loops.
unfoldable pub middle_scroll : ℕ → ℕ → Option ℕ
unfolding scroll_back scroll_forward
middle_scroll fuel m = and_then (scroll_back fuel ((m + m) % 2 ^ 32)) (scroll_forward fuel)

-- What the first loop leaves, if it ends.
scroll_back_lem : (fuel m : ℕ) → (scroll_back fuel m ≡ none) ⊎ (scroll_back fuel m ≡ some (m % 4))
unfolding scroll_back
scroll_back_lem zero m = inl refl
scroll_back_lem (suc fuel) m = ground (arith, scroll_back_lem fuel (m - 4))

-- A multiple of four never leaves the second loop.
scroll_forward-none : (fuel m : ℕ) → m < 2 ^ 32 → m % 4 ≡ 0 → scroll_forward fuel m ≡ none
unfolding scroll_forward
scroll_forward-none zero m b e = refl
scroll_forward-none (suc fuel) m b e =
    ground (arith, scroll_forward-none fuel ((m + 4) % 4294967296))

-- An even amount never comes out of the two loops.
pub middle_scroll-none : (fuel m : ℕ) → m % 2 ≡ 0 → middle_scroll fuel m ≡ none
unfolding middle_scroll and_then
middle_scroll-none fuel m e =
    ground (arith, scroll_back_lem fuel ((m + m) % 4294967296), scroll_forward-none fuel 0)

-- With rounds enough the first loop ends.
scroll_back_returns : (fuel m : ℕ) → m < fuel → scroll_back fuel m ≡ some (m % 4)
unfolding scroll_back
scroll_back_returns zero m h = absurd (omega arith)
scroll_back_returns (suc fuel) m h = ground (arith, scroll_back_returns fuel (m - 4))

-- So does the second one from a number that is no multiple of four, here from an even one.
scroll_forward_returns :
    (fuel m : ℕ)
    → m % 4 ≡ 2
    → m < 2 ^ 32
    → 2 ^ 32 < m + 4 * fuel
    → scroll_forward fuel m ≡ some 4294967294
unfolding scroll_forward
scroll_forward_returns zero m e b h = absurd (omega arith)
scroll_forward_returns (suc fuel) m e b h =
    ground (arith, scroll_forward_returns fuel ((m + 4) % 4294967296))

-- An odd amount comes out, as an even one.
pub middle_scroll-odd :
    (fuel m : ℕ) → m % 2 ≡ 1 → 2 ^ 32 < fuel → middle_scroll fuel m ≡ some 4294967294
unfolding middle_scroll and_then
middle_scroll-odd fuel m e h =
    ground (arith, scroll_back_returns fuel ((m + m) % 4294967296), scroll_forward_returns fuel 2)
