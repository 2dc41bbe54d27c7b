-- ===== src/Tests/Power.antt =====
-- Power changes and the detection of multiplexing.
use apple_ps2smart_touch_pad.Common.{true, false, [], ◌∷◌, ◌≡◌, refl}
use apple_ps2smart_touch_pad.Controller.State.{Controller, sleep, doze, normal}
use apple_ps2smart_touch_pad.Controller.Mux.{set_mux_mode, detect_mux_mode_support}
use apple_ps2smart_touch_pad.Controller.Mux.Detection.{detect_mux_mode_support_lem}
use apple_ps2smart_touch_pad.Controller.Power.Transitions.{
  run_power, IsConsistent, run_power-IsConsistent,
}
use apple_ps2smart_touch_pad.Tests.Inputs.{controller}

abbrev awake : Controller
awake = controller [] []

abbrev asleep : Controller
asleep = record awake { current_power_state = sleep; hardware_offline = true }

detect_mux_mode_support_lem_example :
    (detect_mux_mode_support awake).uses_mux_mode
    ≡ (set_mux_mode true (record awake { uses_mux_mode = false })).0
detect_mux_mode_support_lem_example = (detect_mux_mode_support_lem awake).0

run_power-IsConsistent_example : IsConsistent (run_power (sleep ∷ doze ∷ normal ∷ []) awake)
run_power-IsConsistent_example =
    run_power-IsConsistent (sleep ∷ doze ∷ normal ∷ []) awake (refl, (refl, (refl, tt)))
      (record { offline = refl; known = refl })
