-- ===== src/Controller/Read/Reorder.antt =====
-- The specification of `readDataPort` on a sequence of arrivals: what it returns, and what it
-- hands to the interrupt handlers, in order.
use apple_ps2smart_touch_pad.Common.{
  ℕ, ◌+◌, ◌≤◌, true, false, List, [], ◌∷◌, ◌++◌, ◌≡◌, ◌≢◌, refl, arith, length,
}
use apple_ps2smart_touch_pad.Controller.State.{DeviceType, Delivery}
use apple_ps2smart_touch_pad.Controller.Port.{same_device, head_or_zero}
use apple_ps2smart_touch_pad.Controller.Read.{
  Held, nothing, first_held, second_held, third_held, hold, answer, own_byte, timed_out,
}
use apple_ps2smart_touch_pad.Controller.Read.Arrivals.{tagged, own_bytes, other_arrivals}

-- The first byte of the stream, after what the other stream sent before it.
unfoldable pub first_own : DeviceType → List Delivery → ℕ × List Delivery
first_own d [] = (0, [])
first_own d (x ∷ xs) = elim (same_device x.target d) [
  | true ↦ (x.byte, [])
  | false ↦ ((first_own d xs).0, x ∷ (first_own d xs).1)
]

unfoldable pub resolve : DeviceType → ℕ → Held → List Delivery → ℕ × List Delivery
unfolding own_byte timed_out
resolve d e h [] = (timed_out h, [])
resolve d e h (x ∷ xs) = elim (same_device x.target d) [
  | true ↦ elim (own_byte e h x.byte) [
    | answer r bs ↦ (r, tagged d bs)
    | hold h' ↦ resolve d e h' xs
  ]
  | false ↦ ((resolve d e h xs).0, x ∷ (resolve d e h xs).1)
]

-- The bytes put aside so far.
unfoldable pub held_bytes : Held → List ℕ
held_bytes nothing = []
held_bytes (first_held x) = x ∷ []
held_bytes (second_held x y) = x ∷ y ∷ []
held_bytes (third_held x y z) = x ∷ y ∷ z ∷ []

abbrev pub Avoids : ℕ → List ℕ → Type 0
Avoids e [] = Unit {0}
Avoids e (b ∷ bs) = (b ≢ e) × Avoids e bs

-- What is handed over when the expected byte is found after `pre`: the other stream's bytes as they
-- came, then the bytes put aside.
abbrev pub handed_on : DeviceType → Held → List Delivery → List Delivery
handed_on d h pre = other_arrivals d pre ++ tagged d (held_bytes h ++ own_bytes d pre)

module _ (d : DeviceType) (e : ℕ) (y : Delivery) (post : List Delivery) where
  pub resolve-match :
      (h : Held) (pre : List Delivery)
      → same_device y.target d ≡ true
      → y.byte ≡ e
      → Avoids e (own_bytes d pre)
      → length (held_bytes h) + length (own_bytes d pre) ≤ 3
      → resolve d e h (pre ++ y ∷ post) ≡ (e, handed_on d h pre)
  unfolding resolve held_bytes
  resolve-match nothing [] p q a l = ground arith
  resolve-match (first_held u) [] p q a l = ground arith
  resolve-match (second_held u v) [] p q a l = ground arith
  resolve-match (third_held u v w) [] p q a l = ground arith
  resolve-match nothing (x ∷ pre) p q a l =
      ground (arith, resolve-match nothing pre, resolve-match (first_held x.byte) pre)
  resolve-match (first_held u) (x ∷ pre) p q a l =
      ground (arith, resolve-match (first_held u) pre, resolve-match (second_held u x.byte) pre)
  resolve-match (second_held u v) (x ∷ pre) p q a l =
      ground (arith, resolve-match (second_held u v) pre, resolve-match (third_held u v x.byte) pre)
  resolve-match (third_held u v w) (x ∷ pre) p q a l =
      ground (arith, resolve-match (third_held u v w) pre)

  -- A fourth byte of the stream that does not match ends the wait.
  pub resolve_gives_up :
      (h : Held) (pre : List Delivery)
      → same_device y.target d ≡ true
      → y.byte ≢ e
      → Avoids e (own_bytes d pre)
      → length (held_bytes h) + length (own_bytes d pre) ≡ 3
      → resolve d e h (pre ++ y ∷ post) ≡ (
        head_or_zero (held_bytes h ++ own_bytes d pre),
        other_arrivals d pre ++ tagged d (y.byte ∷ []),
      )
  unfolding resolve held_bytes
  resolve_gives_up nothing [] p q a l = ground arith
  resolve_gives_up (first_held u) [] p q a l = ground arith
  resolve_gives_up (second_held u v) [] p q a l = ground arith
  resolve_gives_up (third_held u v w) [] p q a l = ground arith
  resolve_gives_up nothing (x ∷ pre) p q a l =
      ground (arith, resolve_gives_up nothing pre, resolve_gives_up (first_held x.byte) pre)
  resolve_gives_up (first_held u) (x ∷ pre) p q a l =
      ground
        (arith, resolve_gives_up (first_held u) pre, resolve_gives_up (second_held u x.byte) pre)
  resolve_gives_up (second_held u v) (x ∷ pre) p q a l =
      ground (
        arith,
        resolve_gives_up (second_held u v) pre,
        resolve_gives_up (third_held u v x.byte) pre,
      )
  resolve_gives_up (third_held u v w) (x ∷ pre) p q a l =
      ground (arith, resolve_gives_up (third_held u v w) pre)

module _ (d : DeviceType) (e : ℕ) where
  -- Nothing matches and the wait ends with bytes still put aside.
  pub resolve_times_out :
      (h : Held) (xs : List Delivery)
      → Avoids e (own_bytes d xs)
      → length (held_bytes h) + length (own_bytes d xs) ≤ 3
      → resolve d e h xs ≡ (head_or_zero (held_bytes h ++ own_bytes d xs), other_arrivals d xs)
  unfolding resolve held_bytes
  resolve_times_out nothing [] a l = refl
  resolve_times_out (first_held u) [] a l = refl
  resolve_times_out (second_held u v) [] a l = refl
  resolve_times_out (third_held u v w) [] a l = refl
  resolve_times_out nothing (x ∷ pre) a l =
      ground (arith, resolve_times_out nothing pre, resolve_times_out (first_held x.byte) pre)
  resolve_times_out (first_held u) (x ∷ pre) a l =
      ground
        (arith, resolve_times_out (first_held u) pre, resolve_times_out (second_held u x.byte) pre)
  resolve_times_out (second_held u v) (x ∷ pre) a l = ground (
    arith,
    resolve_times_out (second_held u v) pre,
    resolve_times_out (third_held u v x.byte) pre,
  )
  resolve_times_out (third_held u v w) (x ∷ pre) a l =
      ground (arith, resolve_times_out (third_held u v w) pre)
