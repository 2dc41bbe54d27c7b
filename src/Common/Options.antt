-- ===== src/Common/Options.antt =====
-- Results that may be missing: the next step, and what holds of a result that is there.
use mathlib.Core.Path.{◌≡◌, refl}
use mathlib.Core.Bool.{true}
use mathlib.Core.Option.{Option, none, some}

unfoldable pub and_then : {A B : Type 0} → Option A → (A → Option B) → Option B
and_then none f = none
and_then (some a) f = f a

unfoldable pub Holds : {A : Type 0} → (A → Type 0) → Option A → Type 0
Holds P none = true ≡ true
Holds P (some a) = P a

pub and_then-Holds :
    {A B : Type 0} (P : A → Type 0) (Q : B → Type 0) (o : Option A) (f : A → Option B)
    → Holds P o
    → ((a : A) → P a → Holds Q (f a))
    → Holds Q (and_then o f)
unfolding and_then Holds
and_then-Holds P Q none f h k = refl
and_then-Holds P Q (some a) f h k = k a h

pub Holds-both :
    {A : Type 0} (P Q : A → Type 0) (o : Option A)
    → Holds P o
    → Holds Q o
    → Holds (λ a. P a × Q a) o
unfolding Holds
Holds-both P Q none h k = refl
Holds-both P Q (some a) h k = (h, k)
