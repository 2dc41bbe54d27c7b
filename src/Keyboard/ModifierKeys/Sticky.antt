-- ===== src/Keyboard/ModifierKeys/Sticky.antt =====
-- What the state machine of the modifier keys never does.
use apple_ps2smart_touch_pad.Common.{
  ℕ, ◌<◌, Bool, true, false, not, ◌&&◌, ◌||◌, List, [], ◌∷◌, Option, none, some, ◌≡◌, refl, ap,
  arith, ◌==◌, ltb, has, byte_passes, passes,
}
use apple_ps2smart_touch_pad.Keyboard.ModifierKeys.{Down, modifier_step}

abbrev with_notice : Option ℕ → List ℕ → List ℕ
with_notice none ns = ns
with_notice (some n) ns = n ∷ ns

-- The notifications of a run, each for a state of the keys.
unfoldable pub notices_of : List Down → ℕ → List ℕ
notices_of [] s = []
notices_of (d ∷ ds) s =
    let (notice, s') = modifier_step d s in with_notice notice (notices_of ds s')

unfoldable pub contains : ℕ → List ℕ → Bool
contains n [] = false
contains n (m ∷ ms) = m == n || contains n ms

abbrev is_notice : ℕ → Option ℕ → Bool
is_notice n none = false
is_notice n (some m) = m == n

-- A step from a byte leads to a byte and never says that the alternate function is off; once the
-- function has been on, a step keeps the mark of that and does not say that it is on.
abbrev safe_at : Down → ℕ → Bool
safe_at d s =
    let (notice, s') = modifier_step d s in
    ltb s' 256
    && not (is_notice 59 notice)
    && (not (has s 0x20) || has s' 0x20 && not (is_notice 58 notice))
    && (not (is_notice 58 notice) || has s' 0x20)

abbrev keys : Bool → Bool → Bool → Down
keys c l a = record { cmd = c; ctl = l; alt = a }

safe_table : (c l a : Bool) → passes (safe_at (keys c l a)) 0 256 ≡ true
unfolding modifier_step has passes
safe_table true true true = refl
safe_table true true false = refl
safe_table true false true = refl
safe_table true false false = refl
safe_table false true true = refl
safe_table false true false = refl
safe_table false false true = refl
safe_table false false false = refl

safe : (d : Down) (s : ℕ) → s < 256 → safe_at d s ≡ true
safe d s h = byte_passes (safe_at d) s h (safe_table d.cmd d.ctl d.alt)

contains-with_notice :
    (n : ℕ) (o : Option ℕ) (ns : List ℕ)
    → contains n (with_notice o ns) ≡ (is_notice n o || contains n ns)
unfolding contains
contains-with_notice n none ns = refl
contains-with_notice n (some m) ns = refl

alt_off_never : (ds : List Down) (s : ℕ) → s < 256 → contains 59 (notices_of ds s) ≡ false
unfolding notices_of contains
alt_off_never [] s h = refl
alt_off_never (d ∷ ds) s h =
    let r = modifier_step d s in
    let in_byte : r.1 < 256 = ground (arith, safe d s h) in
    ground (
      arith,
      safe d s h,
      contains-with_notice 59 r.0 (notices_of ds r.1),
      alt_off_never ds r.1 in_byte,
    )

alt_on_once :
    (ds : List Down) (s : ℕ) → s < 256 → has s 0x20 ≡ true → contains 58 (notices_of ds s) ≡ false
unfolding notices_of contains
alt_on_once [] s h on = refl
alt_on_once (d ∷ ds) s h on =
    let r = modifier_step d s in
    let in_byte : r.1 < 256 = ground (arith, safe d s h) in
    let marked : has r.1 0x20 ≡ true = ground (arith, safe d s h) in
    ground (
      arith,
      safe d s h,
      contains-with_notice 58 r.0 (notices_of ds r.1),
      alt_on_once ds r.1 in_byte marked,
    )

-- Behind the step that says that the alternate function is on, whatever keys go down and up, it is
-- not said again, and neither is it ever said that the function is off.
pub alternate_function_sticks :
    (d : Down) (ds : List Down) (s : ℕ)
    → s < 256
    → (modifier_step d s).0 ≡ some 58
    → (contains 58 (notices_of ds (modifier_step d s).1) ≡ false)
      × (contains 59 (notices_of (d ∷ ds) s) ≡ false)
alternate_function_sticks d ds s h e =
    let r = modifier_step d s in
    let on : is_notice 58 r.0 ≡ true = ap (is_notice 58) e in
    let in_byte : r.1 < 256 = ground (arith, safe d s h) in
    let marked : has r.1 0x20 ≡ true = ground (arith, safe d s h) in
    (alt_on_once ds r.1 in_byte marked, alt_off_never (d ∷ ds) s h)
