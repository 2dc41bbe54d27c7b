-- ===== src/Touchpad/Positions/Tracking.antt =====
-- The movement of a finger, summed up from packet to packet.
use apple_ps2smart_touch_pad.Common.{ℕ, List, [], ◌∷◌, ◌≡◌, arith, pos, sub_ℕ}
use apple_ps2smart_touch_pad.Touchpad.Positions.{
  Finger, plus_difference, followed, stopped, placed_at, restarted,
}
use apple_ps2smart_touch_pad.Touchpad.Positions.ElanV2v3.{start_or_follow}

-- The sums are the way from the start to the last position.
pub record IsTracked (f : Finger) : Type 0 where
  pub along_x : f.tdx ≡ sub_ℕ f.last_x f.start_x
  pub along_y : f.tdy ≡ sub_ℕ f.last_y f.start_y

difference_lem : (x last start : ℕ) → plus_difference (sub_ℕ last start) x last ≡ sub_ℕ x start
unfolding plus_difference
difference_lem x last start = ground arith

-- The positions of packets, one after the other.
unfoldable pub follow_all : List (ℕ × ℕ) → Finger → Finger
unfolding stopped followed placed_at
follow_all [] f = f
follow_all ((x, y) ∷ ps) f = follow_all ps (stopped (followed (placed_at x y f)))

follow_one-IsTracked :
    (x y : ℕ) (f : Finger) → IsTracked f → IsTracked (stopped (followed (placed_at x y f)))
unfolding stopped followed placed_at
follow_one-IsTracked x y f t = record {
  along_x = rw t.along_x (difference_lem x f.last_x f.start_x);
  along_y = rw t.along_y (difference_lem y f.last_y f.start_y);
}

follow_all-IsTracked : (ps : List (ℕ × ℕ)) (f : Finger) → IsTracked f → IsTracked (follow_all ps f)
unfolding follow_all
follow_all-IsTracked [] f t = t
follow_all-IsTracked ((x, y) ∷ ps) f t =
    follow_all-IsTracked ps (stopped (followed (placed_at x y f))) (follow_one-IsTracked x y f t)

zero_lem : (a : ℕ) → pos 0 ≡ sub_ℕ a a
zero_lem a = ground arith

-- From the first packet of a touch on, however many follow, the movement summed up for each axis is
-- the way from where the touch began to where it was last.
pub follow_all-start :
    (ps : List (ℕ × ℕ)) (f : Finger) → IsTracked (follow_all ps (start_or_follow f))
unfolding start_or_follow restarted
follow_all-start ps f =
    follow_all-IsTracked ps (start_or_follow f)
      (record { along_x = zero_lem f.x; along_y = zero_lem f.y })
