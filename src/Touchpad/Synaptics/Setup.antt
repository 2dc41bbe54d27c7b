-- ===== src/Touchpad/Synaptics/Setup.antt =====
-- What the driver knows of a Synaptics touchpad when the set-up went well.
use apple_ps2smart_touch_pad.Common.{
  ◌≤◌, ◌≡◌, arith, refl, subst, sym, Bool, true, false, ◌||◌, List, [], ◌∷◌, if◌then◌else◌, has,
  leb, Bool-cases, inl, inr,
}
use apple_ps2smart_touch_pad.Interface.Device.{failed}
use apple_ps2smart_touch_pad.Interface.Settled.{HasSent, HasSent-send_synaptics_cmd}
use apple_ps2smart_touch_pad.Touchpad.{Touchpad}
use apple_ps2smart_touch_pad.Touchpad.Elan.Access.{no_params}
use apple_ps2smart_touch_pad.Touchpad.Synaptics.Modes.{
  mode_bytes, synaptics_set_absolute_mode-HasSent,
}
use apple_ps2smart_touch_pad.Touchpad.Connect.{
  synaptics_set_absolute_mode, synaptics_set_advanced_gesture_mode, synaptics_mode,
}
use apple_ps2smart_touch_pad.Touchpad.Synaptics.{
  Synaptics, query, steps, set_capabilities, identify, find_model, find_firmware, find_board,
  find_capabilities, find_ext_cap, find_ext_cap_0c, find_resolution, find_max, find_min,
  go_absolute, find_pass_through, find_click_pad, synaptics_setup_touchpad, id_is_synaptics,
  id_major, cap_multi_button_no, word,
}
use apple_ps2smart_touch_pad.Touchpad.Synaptics.Fields.{valid_ext_cap_buttons}

-- Steps that all go on lead from one condition to another.
unfoldable Leads :
    (from : Synaptics → Type 0)
    → List (Synaptics → Bool × Synaptics)
    → (to : Synaptics → Type 0) → Type 0
Leads from fs to = (s : Synaptics) → from s → (steps fs s).0 ≡ true → to (steps fs s).1

stay : (from : Synaptics → Type 0) → Leads from [] from
unfolding Leads steps
stay from s p e = p

next :
    (from between to : Synaptics → Type 0) (step : Synaptics → Bool × Synaptics)
    (rest : List (Synaptics → Bool × Synaptics))
    → ((s : Synaptics) → from s → (step s).0 ≡ true → between (step s).1)
    → Leads between rest to
    → Leads from (step ∷ rest) to
unfolding Leads steps
next from between to step rest one others s p e = elim (Bool-cases (step s).0) [
  | inl goes ↦ ground (arith, others (step s).1 (one s p goes))
  | inr stops ↦ ground arith
]

unfoldable Branded : Synaptics → Type 0
Branded s = id_is_synaptics s.identity ≡ true

unfoldable Capable : Synaptics → Type 0
Capable s = Branded s × (cap_multi_button_no s.ext_cap ≤ 8)

-- What the touchpad was told: the mode that the driver records, with absolute positions, and without
-- gestures of its own if it can do without.
pub record IsAbsolute (s : Synaptics) : Type 0 where
  pub sent : HasSent (mode_bytes s.pad.syn_mode) s.pad.host
  pub absolute : has s.pad.syn_mode 0x80 ≡ true
  pub gestures : 4 ≤ id_major s.identity → has s.pad.syn_mode 0x04 ≡ true
  pub packets : s.pad.syn_packet_type ≡ (if has s.model_id 0x80 then 0 else 3)

unfoldable Told : Synaptics → Type 0
Told s = Capable s × IsAbsolute s

identify_lem : (s : Synaptics) → (identify s).0 ≡ true → Branded (identify s).1
unfolding identify Branded
identify_lem s e = ground arith

find_model_lem : (s : Synaptics) → Branded s → Branded (find_model s).1
unfolding find_model query Branded
find_model_lem s p = ground arith

find_firmware_lem : (s : Synaptics) → Branded s → Branded (find_firmware s).1
unfolding find_firmware query Branded
find_firmware_lem s p = ground arith

find_board_lem : (s : Synaptics) → Branded s → Branded (find_board s).1
unfolding find_board query Branded
find_board_lem s p = ground arith

find_capabilities_lem :
    (s : Synaptics) → Branded s → (find_capabilities s).0 ≡ true → Capable (find_capabilities s).1
unfolding find_capabilities query Branded Capable set_capabilities cap_multi_button_no
find_capabilities_lem s p e = ground arith

find_ext_cap_lem : (s : Synaptics) → Capable s → Capable (find_ext_cap s).1
unfolding find_ext_cap query Branded Capable
find_ext_cap_lem s p = ground (arith, valid_ext_cap_buttons (word (query 0x09 s).1))

find_ext_cap_0c_lem : (s : Synaptics) → Capable s → Capable (find_ext_cap_0c s).1
unfolding find_ext_cap_0c query Branded Capable
find_ext_cap_0c_lem s p = ground arith

find_resolution_lem : (s : Synaptics) → Capable s → Capable (find_resolution s).1
unfolding find_resolution query Branded Capable
find_resolution_lem s p = ground arith

find_max_lem : (s : Synaptics) → Capable s → Capable (find_max s).1
unfolding find_max query Branded Capable
find_max_lem s p = ground arith

find_min_lem : (s : Synaptics) → Capable s → Capable (find_min s).1
unfolding find_min query Branded Capable
find_min_lem s p = ground arith

synaptics_mode_absolute :
    (t : Touchpad) → t.syn_absolute_mode ≡ true → has (synaptics_mode t) 0x80 ≡ true
unfolding synaptics_mode has
synaptics_mode_absolute t e = ground arith

synaptics_mode_gestures :
    (t : Touchpad) → t.syn_disable_gesture ≡ true → has (synaptics_mode t) 0x04 ≡ true
unfolding synaptics_mode has
synaptics_mode_gestures t e = ground arith

set_absolute_mode_mode :
    (t : Touchpad) → (synaptics_set_absolute_mode t).1.syn_mode ≡ synaptics_mode t
unfolding synaptics_set_absolute_mode synaptics_set_advanced_gesture_mode
set_absolute_mode_mode t = ground arith

-- The touchpad that the mode is set on.
abbrev to_absolute : Synaptics → Touchpad
to_absolute s = record s.pad {
  syn_disable_gesture = leb 4 (id_major s.identity) || s.pad.syn_disable_gesture;
  syn_absolute_mode = true;
}

go_absolute_lem : (s : Synaptics) → Capable s → (go_absolute s).0 ≡ true → Told (go_absolute s).1
unfolding go_absolute Branded Capable Told
go_absolute_lem s p e =
    let t = to_absolute s in
    let sent : (go_absolute s).1.pad.syn_mode ≡ synaptics_mode t =
      ground (arith, set_absolute_mode_mode t) in
    let ok : failed (synaptics_set_absolute_mode t).0 ≡ false = ground (arith, e) in
    let u : Synaptics = record s {
      pad = record (synaptics_set_absolute_mode t).1 {
        syn_packet_type = if has s.model_id 0x80 then 0 else 3;
      };
    } in
    let end : u ≡ (go_absolute s).1 = ground (arith, ok) in
    let told : HasSent (mode_bytes (synaptics_set_absolute_mode t).1.syn_mode)
        (synaptics_set_absolute_mode t).1.host =
      subst (λ mode. HasSent (mode_bytes mode) (synaptics_set_absolute_mode t).1.host)
        (sym (set_absolute_mode_mode t)) (synaptics_set_absolute_mode-HasSent t ok) in
    let mode : has (synaptics_mode t) 0x80 ≡ true = synaptics_mode_absolute t refl in
    (
      ground (arith, p),
      record {
        sent = subst (λ (u : Synaptics). HasSent (mode_bytes u.pad.syn_mode) u.pad.host) end told;
        absolute = ground (arith, sent, mode);
        gestures = λ old. ground (arith, sent, synaptics_mode_gestures t (ground arith));
        packets = ground arith;
      },
    )

find_pass_through_lem : (s : Synaptics) → Told s → Told (find_pass_through s).1
unfolding find_pass_through query Branded Capable Told
find_pass_through_lem s p =
    let kept =
      HasSent-send_synaptics_cmd (mode_bytes s.pad.syn_mode) 0x10 no_params s.pad.host p.1.sent in
    ground (arith, kept)

-- A touchpad that was set up.
pub record IsSetUp (s : Synaptics) : Type 0 where
  pub branded : id_is_synaptics s.identity ≡ true
  pub buttons : cap_multi_button_no s.ext_cap ≤ 8
  pub told : IsAbsolute s
  pub click_pad : s.pad.is_click_pad ≡ has s.pad.syn_ext_cap_0c 0x100000

find_click_pad_lem : (s : Synaptics) → Told s → IsSetUp (find_click_pad s).1
unfolding find_click_pad Told Branded Capable
find_click_pad_lem s p = ground arith

-- When a set-up goes well, the touchpad has said that it is a Synaptics one, at most eight buttons are
-- kept of its answers, and it was sent, behind the prefix to the mouse, the bytes that set the mode
-- the driver records, a mode with absolute positions and, from the major version 4 on, with its
-- gestures disabled. The packet type is the one that its model tells, and it is taken for a click
-- pad exactly if its capabilities say so.
pub synaptics_setup_touchpad-IsSetUp :
    (s : Synaptics) → (synaptics_setup_touchpad s).0 ≡ true → IsSetUp (synaptics_setup_touchpad s).1
unfolding synaptics_setup_touchpad Leads
synaptics_setup_touchpad-IsSetUp s =
    next (λ s. s ≡ s) Branded IsSetUp identify _ (λ s p. identify_lem s)
      (next Branded Branded IsSetUp find_model _ (λ s p e. find_model_lem s p)
        (next Branded Branded IsSetUp find_firmware _ (λ s p e. find_firmware_lem s p)
          (next Branded Branded IsSetUp find_board _ (λ s p e. find_board_lem s p)
            (next Branded Capable IsSetUp find_capabilities _ find_capabilities_lem (
              next Capable Capable IsSetUp find_ext_cap _ (λ s p e. find_ext_cap_lem s p)
                (next Capable Capable IsSetUp find_ext_cap_0c _ (λ s p e. find_ext_cap_0c_lem s p)
                  (next Capable Capable IsSetUp find_resolution _ (λ s p e. find_resolution_lem s p)
                    (next Capable Capable IsSetUp find_max _ (λ s p e. find_max_lem s p)
                      (next Capable Capable IsSetUp find_min _ (λ s p e. find_min_lem s p)
                        (next Capable Told IsSetUp go_absolute _ go_absolute_lem (
                          next Told Told IsSetUp find_pass_through _
                            (λ s p e. find_pass_through_lem s p)
                            (next Told IsSetUp IsSetUp find_click_pad _
                              (λ s p e. find_click_pad_lem s p) (stay IsSetUp)))))))))))))
      s refl
