-- ===== src/Touchpad/Positions/Changes/Starts.antt =====
-- The fingers behind a change of their number: those that are cleared start where they are next.
use apple_ps2smart_touch_pad.Common.{
  ℕ, zero, suc, ◌+◌, ◌%◌, ◌<◌, Bool, true, false, List, [], ◌∷◌, ◌==◌, ◌≡◌, refl, sym, ap, subst,
  ◌∙◌, arith, pos, leb, if◌then◌else◌, length, length-set, get_or, set, ◌&&◌, some, ℤ,
}
use apple_ps2smart_touch_pad.Touchpad.Positions.{
  Finger, Hand, no_finger, finger, restarted, placed_at, update,
}
use apple_ps2smart_touch_pad.Touchpad.Positions.Synaptics.Placing.{
  place, starts_here, place_primary, place_secondary, fix_starts,
}
use apple_ps2smart_touch_pad.Touchpad.Positions.Synaptics.{SynapticsReport, stored, on_hand}
use apple_ps2smart_touch_pad.Touchpad.Positions.Changes.{
  Change, clears, first_cleared, cleared, change_from, clear_fingers, before_clearing, next_touch,
  process_fingers_change,
}

get_or-change_from :
    {A : Type 0} (change : ℕ → A → A) (first i : ℕ) (fs : List A) (j : ℕ) (d : A)
    → j < length fs
    → get_or (change_from change first i fs) j d
      ≡ (if leb first (i + j) then change (i + j) (get_or fs j d) else get_or fs j d)
unfolding change_from
get_or-change_from change first i [] j d h = absurd (omega arith)
get_or-change_from change first i (f ∷ fs) zero d h = let e : i + 0 ≡ i = omega arith in rw e refl
get_or-change_from change first i (f ∷ fs) (suc j) d h =
    get_or-change_from change first (suc i) fs j d (omega arith)
    ∙ (let e : suc i + j ≡ i + suc j = omega arith in rw e refl)

changed_finger :
    (b : Bool) (change : ℕ → Finger → Finger) (first j : ℕ) (fs : List Finger)
    → j < length fs
    → get_or (if b then change_from change first 0 fs else fs) j no_finger
      ≡ (if b && leb first j then change j (get_or fs j no_finger) else get_or fs j no_finger)
changed_finger true change first j fs h =
    get_or-change_from change first 0 fs j no_finger h
    ∙ (let e : 0 + j ≡ j = omega arith in rw e refl)
changed_finger false change first j fs h = refl

-- A finger behind the change is the one before it, cleared if it is among those that are.
pub process_fingers_change-finger :
    (c : Change) (j : ℕ)
    → j < length (before_clearing c).hand.fing
    → finger j (process_fingers_change c).hand ≡ (
        if clears (before_clearing c).hand && leb (first_cleared (before_clearing c).hand) j
        then cleared (before_clearing c).hand j (finger j (before_clearing c).hand)
        else finger j (before_clearing c).hand)
unfolding process_fingers_change clear_fingers next_touch
process_fingers_change-finger c j h =
    let before = (before_clearing c).hand in
    changed_finger (clears before) (cleared before) (first_cleared before) j before.fing h

packets-zero :
    (c : Change)
    → ((before_clearing c).hand.pad.gesture.fingers == 0) ≡ false
    → (process_fingers_change c).hand.pad.gesture.packets_count ≡ 0
unfolding process_fingers_change clear_fingers next_touch
packets-zero c e = rw e refl

-- Where a finger starts.
pub record StartsAt (x y : ℕ) (f : Finger) : Type 0 where
  pub starts_x : f.start_x ≡ x
  pub starts_y : f.start_y ≡ y
  pub last_is_x : f.last_x ≡ x
  pub last_is_y : f.last_y ≡ y
  pub no_way_x : f.tdx ≡ pos 0
  pub no_way_y : f.tdy ≡ pos 0

true_holds :
    {A : Type 0} (P : A → Type 0) (b : Bool) (x y : A) → b ≡ true → P x → P (if b then x else y)
true_holds P true x y e p = p
true_holds P false x y e p = absurd (ground arith)

starts_here-cleared :
    (after : Hand) (f : Finger)
    → after.pad.gesture.packets_count ≡ 0
    → f.start_x ≡ 0
    → f.start_y ≡ 0
    → starts_here after f ≡ true
unfolding starts_here
starts_here-cleared after f e sx sy = ground arith

place-StartsAt :
    (x y pressure : ℕ) (before after : Hand) (j : ℕ) (f : Finger)
    → after.pad.gesture.packets_count ≡ 0
    → StartsAt x y (place x y pressure after (cleared before j f))
unfolding place cleared placed_at restarted
place-StartsAt x y pressure before after j f e =
    let g = record (placed_at x y (cleared before j f)) { pressure = pressure } in
    true_holds (StartsAt x y) (starts_here after g) (restarted g) g
      (starts_here-cleared after g e refl refl)
      (record {
        starts_x = refl;
        starts_y = refl;
        last_is_x = refl;
        last_is_y = refl;
        no_way_x = refl;
        no_way_y = refl;
      })

finger-update :
    (i j : ℕ) (change : Finger → Finger) (h : Hand)
    → i < length h.fing
    → finger j (update (some i) change h) ≡ (if i == j then change (finger i h) else finger j h)
unfolding update
finger-update i j change h inside =
    ground (arith, get_or-set h.fing i j (change (finger i h)) inside)
  where
    get_or-set :
        (fs : List Finger) (i j : ℕ) (f : Finger)
        → i < length fs
        → get_or (set fs i f) j no_finger ≡ (if i == j then f else get_or fs j no_finger)
    get_or-set [] i j f l = absurd (omega arith)
    get_or-set (x ∷ fs) zero zero f l = refl
    get_or-set (x ∷ fs) zero (suc j) f l = ground arith
    get_or-set (x ∷ fs) (suc i) zero f l = ground arith
    get_or-set (x ∷ fs) (suc i) (suc j) f l = get_or-set fs i j f (omega arith) ∙ ground arith

update-hand :
    (i : ℕ) (change : Finger → Finger) (h : Hand)
    → let h1 = update (some i) change h in
      (h1.pad ≡ h.pad)
      × (h1.sid ≡ h.sid)
      × (h1.last_fingers ≡ h.last_fingers)
      × (length h1.fing ≡ length h.fing)
unfolding update
update-hand i change h = ground (arith, length-set h.fing i (change (finger i h)))

-- The fingers `i` and `j` are those that a packet places, and were cleared.
record TwoCleared (before h : Hand) (i j : ℕ) : Type 0 where
  first_place : h.pid ≡ some i
  second_place : h.sid ≡ some j
  others : (i == j) ≡ false
  first_inside : i < length h.fing
  second_inside : j < length h.fing
  afresh : h.pad.gesture.packets_count ≡ 0
  first_new : finger i h ≡ cleared before i (finger i before)
  second_new : finger j h ≡ cleared before j (finger j before)
  not_fixed : (h.last_fingers == 1 && h.pad.gesture.fingers == 2) ≡ false

primary_placed :
    (before h : Hand) (i j : ℕ) (x y : ℤ) (pressure : ℕ)
    → TwoCleared before h i j
    → 0 < pressure
    → let h1 = place_primary x y pressure h in
      (h1 ≡ update (some i) (place (stored x) (stored y) pressure h) h)
      × StartsAt (stored x) (stored y) (finger i h1)
      × (finger j h1 ≡ finger j h)
unfolding place_primary
primary_placed before h i j x y pressure t p =
    let f = place (stored x) (stored y) pressure h in
    let e : place_primary x y pressure h ≡ update (some i) f h = ground (arith, t.first_place) in
    let own : finger i (place_primary x y pressure h) ≡ f (finger i h) =
      ground (arith, e, finger-update i i f h t.first_inside) in
    let start : StartsAt (stored x) (stored y) (f (cleared before i (finger i before))) =
      place-StartsAt (stored x) (stored y) pressure before h i (finger i before) t.afresh in
    (
      e,
      subst (StartsAt (stored x) (stored y)) (sym (own ∙ ap f t.first_new)) start,
      ground (arith, e, finger-update i j f h t.first_inside, t.others),
    )

secondary_placed :
    (before : Hand) (i j : ℕ) (r : SynapticsReport)
    → r.hand.sid ≡ some j
    → (i == j) ≡ false
    → j < length r.hand.fing
    → r.hand.pad.gesture.packets_count ≡ 0
    → finger j r.hand ≡ cleared before j (finger j before)
    → (r.hand.last_fingers == 1 && r.hand.pad.gesture.fingers == 2) ≡ false
    → 0 < r.secondary_pressure
    → let h1 = (place_secondary r).hand in
      (finger i h1 ≡ finger i r.hand)
      × StartsAt (r.secondary_x % 65536) (r.secondary_y % 65536) (finger j h1)
unfolding place_secondary fix_starts on_hand
secondary_placed before i j r second others inside afresh new fixed p =
    let h = r.hand in
    let x = r.secondary_x % 65536 in
    let y = r.secondary_y % 65536 in
    let f = place x y r.secondary_pressure h in
    let kept = update-hand j f h in
    let e : (place_secondary r).hand ≡ update (some j) f h = ground (arith, second, kept, fixed) in
    let own : finger j (place_secondary r).hand ≡ f (finger j h) =
      ground (arith, e, finger-update j j f h inside) in
    let start : StartsAt x y (f (cleared before j (finger j before))) =
      place-StartsAt x y r.secondary_pressure before h j (finger j before) afresh in
    (
      ground (arith, e, finger-update j i f h inside, others),
      subst (StartsAt x y) (sym (own ∙ ap f new)) start,
    )

both_placed :
    (before : Hand) (i j : ℕ) (x y : ℤ) (pressure : ℕ) (r : SynapticsReport)
    → TwoCleared before r.hand i j
    → 0 < pressure
    → 0 < r.secondary_pressure
    → let h = (place_secondary (on_hand (place_primary x y pressure) r)).hand in
      StartsAt (stored x) (stored y) (finger i h)
      × StartsAt (r.secondary_x % 65536) (r.secondary_y % 65536) (finger j h)
unfolding on_hand
both_placed before i j x y pressure r t p q =
    let f = place (stored x) (stored y) pressure r.hand in
    let first = primary_placed before r.hand i j x y pressure t p in
    let kept = update-hand i f r.hand in
    let r1 : SynapticsReport = record r { hand = place_primary x y pressure r.hand } in
    let second =
      secondary_placed before i j r1 (ground (arith, first.0, kept, t.second_place)) t.others
        (ground (arith, first.0, kept, t.second_inside)) (ground (arith, first.0, kept, t.afresh))
        (first.2 ∙ t.second_new) (ground (arith, first.0, kept, t.not_fixed)) q in
    (subst (StartsAt (stored x) (stored y)) (sym second.0) first.1, second.1)

length-change_from :
    {A : Type 0} (change : ℕ → A → A) (first i : ℕ) (fs : List A)
    → length (change_from change first i fs) ≡ length fs
unfolding change_from
length-change_from change first i [] = refl
length-change_from change first i (f ∷ fs) = ap suc (length-change_from change first (suc i) fs)

length-process_fingers_change :
    (c : Change)
    → length (process_fingers_change c).hand.fing ≡ length (before_clearing c).hand.fing
unfolding process_fingers_change clear_fingers next_touch
length-process_fingers_change c =
    let h = (before_clearing c).hand in
    ground (arith, length-change_from (cleared h) (first_cleared h) 0 h.fing)

-- Where a change of the number of fingers is followed by the placing of the two fingers that a
-- Synaptics packet tells, which are different, both touch and are both among those whose data the
-- change clears, each of the two starts at its place: its start and its last position are there, and
-- no way is summed up. The new number is not 0, and the change is not one from one finger to two,
-- where the starts may be exchanged.
pub process_fingers_change-place :
    (c : Change) (i j : ℕ) (x y : ℤ) (pressure : ℕ) (r : SynapticsReport)
    → r.hand ≡ (process_fingers_change c).hand
    → r.hand.pid ≡ some i
    → r.hand.sid ≡ some j
    → (i == j) ≡ false
    → i < length (before_clearing c).hand.fing
    → j < length (before_clearing c).hand.fing
    → clears (before_clearing c).hand ≡ true
    → leb (first_cleared (before_clearing c).hand) i ≡ true
    → leb (first_cleared (before_clearing c).hand) j ≡ true
    → ((before_clearing c).hand.pad.gesture.fingers == 0) ≡ false
    → (r.hand.last_fingers == 1 && r.hand.pad.gesture.fingers == 2) ≡ false
    → 0 < pressure
    → 0 < r.secondary_pressure
    → let h = (place_secondary (on_hand (place_primary x y pressure) r)).hand in
      StartsAt (stored x) (stored y) (finger i h)
      × StartsAt (r.secondary_x % 65536) (r.secondary_y % 65536) (finger j h)
process_fingers_change-place c i j x y pressure r e pid sid others in1 in2 all one two some_fing
      fix =
    let before = (before_clearing c).hand in
    let fi : finger i (process_fingers_change c).hand ≡ cleared before i (finger i before) =
      ground (arith, process_fingers_change-finger c i in1, all, one) in
    let fj : finger j (process_fingers_change c).hand ≡ cleared before j (finger j before) =
      ground (arith, process_fingers_change-finger c j in2, all, two) in
    both_placed before i j x y pressure r (record {
      first_place = pid;
      second_place = sid;
      others = others;
      first_inside = ground (arith, e, length-process_fingers_change c, in1);
      second_inside = ground (arith, e, length-process_fingers_change c, in2);
      afresh = ap (λ (h : Hand). h.pad.gesture.packets_count) e ∙ packets-zero c some_fing;
      first_new = ap (finger i) e ∙ fi;
      second_new = ap (finger j) e ∙ fj;
      not_fixed = fix;
    })
