-- ===== src/Controller/Read/Arrivals.antt =====
-- The bytes that arrive while `readDataPort` waits, as one sequence over both streams.
use apple_ps2smart_touch_pad.Common.{
  ℕ, ◌-◌, Bool, true, false, List, [], ◌∷◌, ◌++◌, ◌==◌, ◌≡◌, refl, sym, ap, ◌∙◌, arith,
  if◌then◌else◌,
}
use mathlib.Core.List.{append-nil, append_assoc}
use apple_ps2smart_touch_pad.Controller.State.{DeviceType, keyboard, mouse, Controller, Delivery}
use apple_ps2smart_touch_pad.Controller.Port.{
  same_device, output_ready, stream_of, head_or_zero, other_device, rest_of,
  dispatch_driver_interrupt,
}

-- With `n` polls left before the timeout, statuses `ss` and bytes `bs` to come.
unfoldable pub arrivals : ℕ → List ℕ → List ℕ → List Delivery
arrivals n [] bs = []
arrivals n (s ∷ ss) bs = elim (n == 0) [
  | true ↦ []
  | false ↦ elim (output_ready s) [
    | false ↦ arrivals (n - 1) ss bs
    | true ↦ record { target = stream_of s; byte = head_or_zero bs } ∷ arrivals n ss (rest_of bs)
  ]
]

-- What the client of a stream gets to see: all of it if its handler is installed, else nothing.
abbrev pub installed_in : Bool → Bool → DeviceType → Bool
installed_in k m keyboard = k
installed_in k m mouse = m

unfoldable pub deliverable : Bool → Bool → List Delivery → List Delivery
deliverable k m [] = []
deliverable k m (x ∷ xs) =
    if installed_in k m x.target then x ∷ deliverable k m xs else deliverable k m xs

pub deliverable-append :
    (k m : Bool) (xs ys : List Delivery)
    → deliverable k m (xs ++ ys) ≡ deliverable k m xs ++ deliverable k m ys
unfolding deliverable
deliverable-append k m [] ys = refl
deliverable-append k m (x ∷ xs) ys = ground (arith, deliverable-append k m xs ys)

abbrev pub seen_by : Controller → List Delivery → List Delivery
seen_by c = deliverable c.interrupt_installed_keyboard c.interrupt_installed_mouse

-- A byte reaches the log of its client exactly if the client has a handler installed.
pub dispatch_driver_interrupt_lem :
    (d : DeviceType) (b : ℕ) (c : Controller)
    → dispatch_driver_interrupt d b c
      ≡ record c { delivered = c.delivered ++ seen_by c (record { target = d; byte = b } ∷ []) }
unfolding dispatch_driver_interrupt deliverable
dispatch_driver_interrupt_lem keyboard b c = ground (arith, append-nil c.delivered)
dispatch_driver_interrupt_lem mouse b c = ground (arith, append-nil c.delivered)

-- The delivery of two runs of bytes, one after the other.
pub delivered_twice :
    (k m : Bool) (old xs ys : List Delivery)
    → (old ++ deliverable k m xs) ++ deliverable k m ys ≡ old ++ deliverable k m (xs ++ ys)
delivered_twice k m old xs ys =
    append_assoc old (deliverable k m xs) (deliverable k m ys)
    ∙ ap (λ zs. old ++ zs) (sym (deliverable-append k m xs ys))

pub other_device_lem : (a d : DeviceType) → same_device a d ≡ false → other_device d ≡ a
other_device_lem a d h = ground arith

abbrev pub tagged : DeviceType → List ℕ → List Delivery
tagged d [] = []
tagged d (b ∷ bs) = record { target = d; byte = b } ∷ tagged d bs

-- The bytes of the stream `d`, and the arrivals on the other one.
abbrev pub own_bytes : DeviceType → List Delivery → List ℕ
own_bytes d [] = []
own_bytes d (x ∷ xs) = if same_device x.target d then x.byte ∷ own_bytes d xs else own_bytes d xs

abbrev pub other_arrivals : DeviceType → List Delivery → List Delivery
other_arrivals d [] = []
other_arrivals d (x ∷ xs) =
    if same_device x.target d then other_arrivals d xs else x ∷ other_arrivals d xs
