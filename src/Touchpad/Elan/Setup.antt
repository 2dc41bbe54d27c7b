-- ===== src/Touchpad/Elan/Setup.antt =====
-- What a touchpad that `Elantech_setup_touchpad` accepts is set up with.
use apple_ps2smart_touch_pad.Common.{
  ℕ, ◌-◌, ◌/◌, ◌%◌, ◌≤◌, true, false, ◌≡◌, arith, ltb, ◌==◌, bit_and, has, bit_or, ◌*◌, ◌&&◌, [],
  ◌∷◌,
}
use apple_ps2smart_touch_pad.Interface.Device.{success, Host, submit, free_request, new_request}
use apple_ps2smart_touch_pad.Interface.{send, dp_reset, send_synaptics_cmd}
use apple_ps2smart_touch_pad.Touchpad.Elan.Properties.{set_properties_success}
use apple_ps2smart_touch_pad.Touchpad.{Touchpad}
use apple_ps2smart_touch_pad.Touchpad.Elan.Versions.{set_properties}
use apple_ps2smart_touch_pad.Touchpad.Elan.Mode.{write_mode, set_absolute_mode}
use apple_ps2smart_touch_pad.Touchpad.Elan.Ranges.{
  queried_range, reported_range, set_traces, range_of, set_range,
}
use apple_ps2smart_touch_pad.Touchpad.Elan.{
  query_capabilities, configure, setup_touchpad, etd_fw_version_query,
}
use apple_ps2smart_touch_pad.Touchpad.Elan.Access.{no_params}

-- The members that the later steps of the setup read are as they were.
pub record SameModel (t u : Touchpad) : Type 0 where
  pub same_version : u.hw_version ≡ t.hw_version
  pub same_firmware : u.fw_version ≡ t.fw_version
  pub same_capabs : u.elan_capabs ≡ t.elan_capabs
  pub same_click_pad : u.is_click_pad ≡ t.is_click_pad

write_mode-SameModel : (t : Touchpad) → SameModel t (write_mode t).1
unfolding write_mode
write_mode-SameModel t = ground arith

set_absolute_mode-SameModel : (t : Touchpad) → SameModel t (set_absolute_mode t).1
unfolding set_absolute_mode
set_absolute_mode-SameModel t =
    let (r, h) = submit (new_request (send dp_reset ∷ [])) t.host in
    ground (arith, write_mode-SameModel (record t { host = (free_request r h).1 }))

reported_range-SameModel : (t : Touchpad) → SameModel t (reported_range t).1
unfolding reported_range
reported_range-SameModel t = ground arith

queried_range-SameModel : (t : Touchpad) → SameModel t (queried_range t).1
unfolding queried_range
queried_range-SameModel t = ground arith

set_traces-SameModel : (t : Touchpad) → SameModel t (set_traces t).1
unfolding set_traces
set_traces-SameModel t = ground arith

range_of-SameModel : (t : Touchpad) → SameModel t (range_of t).1
unfolding range_of
range_of-SameModel t = ground (
  arith,
  queried_range-SameModel t,
  reported_range-SameModel t,
  set_traces-SameModel (reported_range t).1,
)

-- Ranges that are consistent: the centre is the half of the range, and on version 4, where the
-- width of a trace is computed, the number of traces is at least 2 and at most the range.
pub record IsRanged (t : Touchpad) : Type 0 where
  pub centre_x : t.xcenter ≡ t.xmax / 2
  pub centre_y : t.ycenter ≡ t.ymax / 2
  pub enough_traces : t.hw_version ≡ 4 → 2 ≤ t.elan_capabs.p1
  pub traces_fit : t.hw_version ≡ 4 → t.elan_capabs.p1 ≤ t.xmax
  pub width : t.hw_version ≡ 4 → t.traces_width ≡ t.xmax / (t.elan_capabs.p1 - 1) % 256

set_traces_lem :
    (t : Touchpad)
    → (set_traces t).0 ≡ true
    → (2 ≤ t.elan_capabs.p1)
      × (t.elan_capabs.p1 ≤ t.xmax)
      × ((set_traces t).1 ≡ record t { traces_width = t.xmax / (t.elan_capabs.p1 - 1) % 256 })
unfolding set_traces
set_traces_lem t e = ground arith

-- On version 4, the ranges that are accepted fit the traces.
record IsTraced (t : Touchpad) : Type 0 where
  enough : 2 ≤ t.elan_capabs.p1
  fit : t.elan_capabs.p1 ≤ t.xmax
  width : t.traces_width ≡ t.xmax / (t.elan_capabs.p1 - 1) % 256

range_of-IsTraced :
    (t : Touchpad) → t.hw_version ≡ 4 → (range_of t).0 ≡ true → IsTraced (range_of t).1
unfolding range_of
range_of-IsTraced t v e = let t1 = (reported_range t).1 in ground (arith, set_traces_lem t1)

set_range-IsRanged : (t : Touchpad) → (set_range t).0 ≡ success → IsRanged (set_range t).1
unfolding set_range
set_range-IsRanged t e = ground (arith, range_of-SameModel t, range_of-IsTraced t)

set_range-SameModel : (t : Touchpad) → SameModel t (set_range t).1
unfolding set_range
set_range-SameModel t = ground (arith, range_of-SameModel t)

-- What setting up leaves in a touchpad that is accepted.
pub record IsSetUp (t : Touchpad) : Type 0 where
  pub version_low : 2 ≤ t.hw_version
  pub version_high : t.hw_version ≤ 4
  pub click_pad : t.is_click_pad ≡ true → t.hw_version ≡ 4
  pub trackpoint : t.supports_track_point ≡ (bit_and t.elan_capabs.p0 0x80 == 0x80)
  pub ranged : IsRanged t

-- The same, before the ranges and the trackpoint are known.
record IsRecognised (t : Touchpad) : Type 0 where
  low : 2 ≤ t.hw_version
  high : t.hw_version ≤ 4
  click : t.is_click_pad ≡ true → t.hw_version ≡ 4

configure-IsSetUp :
    (t : Touchpad) → IsRecognised t → (configure t).0 ≡ true → IsSetUp (configure t).1
unfolding configure query_capabilities
configure-IsSetUp t v e =
    let t1 = (query_capabilities t).1 in
    let t2 = (set_absolute_mode t1).1 in
    ground (
      arith,
      v.low,
      v.high,
      v.click,
      set_absolute_mode-SameModel t1,
      set_range-SameModel t2,
      set_range-IsRanged t2,
    )

-- The touchpad after its firmware version has been read.
abbrev identified : ℕ → Host → Touchpad → Touchpad
identified fw h t = record t { host = h; fw_version = fw }

recognised :
    (t : Touchpad)
    → (set_properties t).0 ≡ success
    → t.hw_version ≤ 14
    → let t3 = (set_properties t).1 in
      let t4 = record t3 { is_click_pad = ltb 3 t3.hw_version && has t3.fw_version 0x1000 } in
      ltb t4.hw_version 2 ≡ false → IsRecognised t4
recognised t e h l = ground (arith, set_properties_success t h e)

-- A touchpad that the setup accepts, whatever it answers and however many tries it takes, has one of
-- the versions 2 to 4; it is a click pad on version 4 only, has a trackpoint exactly if the top bit
-- of its capabilities says so, and has consistent ranges: the centre is the half, and on version 4,
-- where the width of a trace is divided out, there are at least 2 traces and at most the range. The
-- version recorded before is not above 14.
pub setup_touchpad-IsSetUp :
    (t : Touchpad) → t.hw_version ≤ 14 → (setup_touchpad t).0 ≡ true → IsSetUp (setup_touchpad t).1
unfolding setup_touchpad
setup_touchpad-IsSetUp t h e =
    let (ret, param, h1) = send_synaptics_cmd etd_fw_version_query no_params t.host in
    let fw = bit_or (bit_or (param.p0 * 65536) (param.p1 * 256)) param.p2 in
    let t2 = identified fw h1 t in
    let t3 = (set_properties t2).1 in
    let t4 : Touchpad = record t3 {
      is_click_pad = ltb 3 t3.hw_version && has t3.fw_version 0x1000;
    } in
    ground (arith, recognised t2, configure-IsSetUp t4)
