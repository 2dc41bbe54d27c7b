-- ===== src/Touchpad/Positions/ElanV4/Numbers.antt =====
-- The numbers of fingers in packets of version 4 and of FocalTech hardware, and the movements.
use apple_ps2smart_touch_pad.Common.{
  ℕ, zero, suc, ◌+◌, ◌-◌, ◌/◌, ◌%◌, ◌^◌, ◌<◌, ◌≤◌, List, some, ◌≡◌, arith, if◌then◌else◌, ltb, leb,
  length, ℤ, pos, negsuc, sub_ℕ,
}
use apple_ps2smart_touch_pad.Touchpad.Positions.{
  Finger, Hand, byte, update, add_to_coordinate, moved_by, ◌+ℤ◌, stopped,
}
use apple_ps2smart_touch_pad.Touchpad.Positions.ElanV4.{
  packet_finger, finger_id, focal_tech, read_finger,
}
use apple_ps2smart_touch_pad.Touchpad.Positions.Tracking.{IsTracked}

pub update-memory_faults :
    (i : ℕ) (change : Finger → Finger) (h : Hand)
    → (update (some i) change h).memory_faults
      ≡ h.memory_faults + (if ltb i (length h.fing) then 0 else 1)
unfolding update
update-memory_faults i change h = ground arith

finger_id_lem : (b i : ℕ) → finger_id b ≡ some i → b ≡ suc i
unfolding finger_id
finger_id_lem zero i e = ground arith
finger_id_lem (suc b) i e = ground arith

-- There are six fingers. Storing what an absolute packet tells goes out of bounds exactly if the
-- packet's number of the finger is seven or more: a byte 3 of 0xe0 or more with ELAN hardware, a
-- byte 1 of 0x70 or more with FocalTech.
pub read_finger-memory_faults :
    (packet : List ℕ) (fid : ℕ) (h : Hand)
    → length h.fing ≡ 6
    → packet_finger packet h ≡ some fid
    → (update (some fid) (read_finger packet h) h).memory_faults
      ≡ h.memory_faults
        + (if (if focal_tech h then leb 0x70 (byte packet 1) else leb 0xe0 (byte packet 3))
            then 1
            else 0)
unfolding packet_finger
read_finger-memory_faults packet fid h six e =
    let number = if focal_tech h then byte packet 1 / 16 else byte packet 3 / 32 in
    ground (arith, update-memory_faults fid (read_finger packet h) h, finger_id_lem number fid e)

-- A movement that stays within the coordinates.
unfoldable pub Stays : ℕ → ℤ → Type 0
Stays x (pos d) = x + d < 2 ^ 16
Stays x (negsuc d) = d + 1 ≤ x

move_lem :
    (x start : ℕ) (d : ℤ)
    → Stays x d
    → x < 2 ^ 16
    → sub_ℕ x start +ℤ d ≡ sub_ℕ (add_to_coordinate x d) start
unfolding Stays ◌+ℤ◌ add_to_coordinate
move_lem x start (pos d) s h = let e : (x + d) % 2 ^ 16 ≡ x + d = omega arith in rw e (ground arith)
move_lem x start (negsuc d) s h =
    let e : (x + 2 ^ 16 - (d + 1) % 2 ^ 16) % 2 ^ 16 ≡ x - (d + 1) = omega arith in
    rw e (ground arith)

-- A movement of two's complement that stays within the coordinates keeps the sums of movements the
-- way from the start to the finger.
pub moved_by-IsTracked :
    (dx dy : ℤ) (f : Finger)
    → IsTracked (stopped f)
    → f.x < 2 ^ 16
    → f.y < 2 ^ 16
    → Stays f.x dx
    → Stays f.y dy
    → IsTracked (stopped (moved_by dx dy f))
unfolding stopped moved_by
moved_by-IsTracked dx dy f t hx hy sx sy = record {
  along_x = rw t.along_x (move_lem f.x f.start_x dx sx hx);
  along_y = rw t.along_y (move_lem f.y f.start_y dy sy hy);
}
