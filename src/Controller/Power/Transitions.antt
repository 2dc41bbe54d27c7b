-- ===== src/Controller/Power/Transitions.antt =====
-- The power states as a machine: what each transition does to the clients and the port, and what
-- holds after any run of them.
use apple_ps2smart_touch_pad.Common.{
  ℕ, Bool, true, false, List, [], ◌∷◌, ◌++◌, ◌≡◌, ◌≢◌, ◌⊎◌, arith, if◌then◌else◌, ◌<◌, ◌==◌,
  bit_and, ◌&&◌,
}
use mathlib.Core.List.{append-nil, append_assoc}
use apple_ps2smart_touch_pad.Controller.State.{
  keyboard, mouse, Controller, PowerState, sleep, normal, bad_state, PowerAction, PowerNotice,
  disable_device, enable_device, cp_get_command_byte, cp_set_command_byte,
}
use apple_ps2smart_touch_pad.Controller.Port.{write_command_port, clear_input_streams}
use apple_ps2smart_touch_pad.Controller.Read.{read_data_port}
use apple_ps2smart_touch_pad.Controller.Mux.{reset_ps2_controller, detect_mux_mode_support}
use apple_ps2smart_touch_pad.Controller.Mux.Clients.{
  SameClients, clear_input_streams-SameClients, reset_ps2_controller-SameClients,
  detect_mux_mode_support-SameClients, ask, write_command_port-SameClients,
  write_data_port-SameClients,
}
use apple_ps2smart_touch_pad.Controller.Power.{
  dispatch_driver_power_control, enabled_command_byte, enable_ports, wake_up, set_power_state_gated,
}

-- The messages that go out: to the keyboard's client first, to each one that is registered.
abbrev pub notices : PowerAction → Controller → List PowerNotice
notices a c =
    (if c.power_installed_keyboard then record { client = keyboard; action = a } ∷ [] else [])
    ++ (if c.power_installed_mouse then record { client = mouse; action = a } ∷ [] else [])

enable_ports-SameClients : (c : Controller) → SameClients c (enable_ports c)
unfolding enable_ports
enable_ports-SameClients c =
    let asked = read_data_port keyboard (write_command_port cp_get_command_byte c) in
    let b = enabled_command_byte asked.0 in
    ground (
      arith,
      ask cp_get_command_byte c,
      write_command_port-SameClients cp_set_command_byte asked.1,
      write_data_port-SameClients b (write_command_port cp_set_command_byte asked.1),
    )

dispatch_driver_power_control_lem :
    (a : PowerAction) (c : Controller)
    → dispatch_driver_power_control a c ≡ record c { notified = c.notified ++ notices a c }
unfolding dispatch_driver_power_control
dispatch_driver_power_control_lem a c = ground (
  arith,
  append-nil c.notified,
  append_assoc c.notified (record { client = keyboard; action = a } ∷ [])
      (record { client = mouse; action = a } ∷ []),
)

-- Going to sleep tells the clients to disable their devices, takes the hardware offline, and does
-- nothing else: no port is written.
pub set_power_state_gated-sleep :
    (c : Controller)
    → c.current_power_state ≢ sleep
    → set_power_state_gated sleep c ≡ record c {
      notified = c.notified ++ notices disable_device c;
      hardware_offline = true;
      current_power_state = sleep;
    }
unfolding set_power_state_gated
set_power_state_gated-sleep c h = ground (arith, dispatch_driver_power_control_lem disable_device c)

wake_up_lem :
    (c : Controller)
    → ((wake_up c).hardware_offline ≡ false)
      × ((wake_up c).notified ≡ c.notified ++ notices enable_device c)
unfolding wake_up
wake_up_lem c =
    let c0 = clear_input_streams c in
    let c1 = reset_ps2_controller c0 in
    let c2 = if c1.uses_mux_mode then detect_mux_mode_support c1 else c1 in
    let c3 : Controller = record (enable_ports c2) { hardware_offline = false } in
    ground (
      arith,
      clear_input_streams-SameClients c,
      reset_ps2_controller-SameClients c0,
      detect_mux_mode_support-SameClients c1,
      enable_ports-SameClients c2,
      dispatch_driver_power_control_lem enable_device c3,
    )

abbrev enables : ℕ → Bool
enables b =
    bit_and (enabled_command_byte b) 0x33 == 0x03
    && bit_and (enabled_command_byte b) 0xcc == bit_and b 0xcc

-- A byte read is a command byte, and the one written has both interrupts enabled, both clocks
-- running and its other four bits as they were read.
abbrev pub EnablesPorts : ℕ → ℕ → Type 0
EnablesPorts asked written =
    (255 < asked) ⊎ ((bit_and written 0x33 ≡ 0x03) × (bit_and written 0xcc ≡ bit_and asked 0xcc))

-- A run of power changes.
unfoldable pub run_power : List PowerState → Controller → Controller
unfolding set_power_state_gated
run_power [] c = c
run_power (p ∷ ps) c = run_power ps (set_power_state_gated p c)

abbrev pub is_sleep : PowerState → Bool
is_sleep sleep = true
is_sleep _ = false

abbrev pub is_bad : PowerState → Bool
is_bad (bad_state n) = true
is_bad _ = false

abbrev pub AllGood : List PowerState → Type 0
AllGood [] = Unit {0}
AllGood (p ∷ ps) = (is_bad p ≡ false) × AllGood ps

-- The hardware is offline exactly in the sleep state.
pub record IsConsistent (c : Controller) : Type 0 where
  pub offline : c.hardware_offline ≡ is_sleep c.current_power_state
  pub known : is_bad c.current_power_state ≡ false

set_power_state_gated-IsConsistent :
    (p : PowerState) (c : Controller)
    → is_bad p ≡ false
    → IsConsistent c
    → IsConsistent (set_power_state_gated p c)
unfolding set_power_state_gated
set_power_state_gated-IsConsistent p c h v =
    ground (arith, wake_up_lem c, dispatch_driver_power_control_lem disable_device c)

-- Through every run of the states sleep, doze and normal the hardware is offline exactly while the
-- controller sleeps.
pub run_power-IsConsistent :
    (ps : List PowerState) (c : Controller)
    → AllGood ps
    → IsConsistent c
    → IsConsistent (run_power ps c)
unfolding run_power
run_power-IsConsistent [] c a v = v
run_power-IsConsistent (p ∷ ps) c a v =
    run_power-IsConsistent ps (set_power_state_gated p c) a.1
      (set_power_state_gated-IsConsistent p c a.0 v)

-- A state that is none of the three, received while asleep, is recorded as the current one, so the
-- change to normal that follows it wakes nothing up: the hardware stays offline.
pub bad_state_strands :
    (n : ℕ) (c : Controller)
    → c.current_power_state ≡ sleep
    → c.hardware_offline ≡ true
    → let c' = run_power (bad_state n ∷ normal ∷ []) c in
      (c'.hardware_offline ≡ true) × (c'.current_power_state ≡ normal) × (c'.outs ≡ c.outs)
unfolding run_power
bad_state_strands n c h o = ground arith
