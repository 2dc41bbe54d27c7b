-- ===== src/Controller/Power.antt =====
-- Power management and the registration of clients in ApplePS2Controller.cpp:
-- `setPowerStateGated`, `dispatchDriverPowerControl` and the installation of actions. The clients'
-- power handlers are logged in the order of their calls, and not run.
pub mod Transitions
use apple_ps2smart_touch_pad.Common.{
  ℕ, Bool, true, false, List, [], ◌∷◌, ◌++◌, ◌==◌, if◌then◌else◌, clear_bits, bit_or,
}
use apple_ps2smart_touch_pad.Controller.State.{
  DeviceType, keyboard, mouse, Controller, PowerState, sleep, doze, normal, bad_state, PowerAction,
  PowerNotice, disable_device, enable_device, cp_get_command_byte, cp_set_command_byte,
  cb_enable_keyboard_irq, cb_enable_mouse_irq, cb_disable_keyboard_clock, cb_disable_mouse_clock,
}
use apple_ps2smart_touch_pad.Controller.Port.{
  write_command_port, write_data_port, clear_input_streams,
}
use apple_ps2smart_touch_pad.Controller.Read.{read_data_port}
use apple_ps2smart_touch_pad.Controller.Mux.{reset_ps2_controller, detect_mux_mode_support}

notify : Bool → DeviceType → PowerAction → Controller → Controller
notify installed d a c =
    if installed
    then record c { notified = c.notified ++ (record { client = d; action = a } ∷ []) }
    else c

unfoldable pub dispatch_driver_power_control : PowerAction → Controller → Controller
unfolding notify
dispatch_driver_power_control a c =
    let c' = notify c.power_installed_keyboard keyboard a c in
    notify c'.power_installed_mouse mouse a c'

-- The command byte with clocks and interrupts enabled.
unfoldable pub enabled_command_byte : ℕ → ℕ
enabled_command_byte b =
    bit_or (clear_bits b (bit_or cb_disable_keyboard_clock cb_disable_mouse_clock))
      (bit_or cb_enable_keyboard_irq cb_enable_mouse_irq)

-- "1. Enable the PS/2 port."
unfoldable pub enable_ports : Controller → Controller
enable_ports c =
    let (b, c') = read_data_port keyboard (write_command_port cp_get_command_byte c) in
    write_data_port (enabled_command_byte b) (write_command_port cp_set_command_byte c')

-- The transition from sleep to a working state.
unfoldable pub wake_up : Controller → Controller
wake_up c =
    let c1 = reset_ps2_controller (clear_input_streams c) in
    let c2 = if c1.uses_mux_mode then detect_mux_mode_support c1 else c1 in
    dispatch_driver_power_control enable_device
      (record (enable_ports c2) { hardware_offline = false })

unfoldable pub go_to_sleep : Controller → Controller
go_to_sleep c = record (dispatch_driver_power_control disable_device c) { hardware_offline = true }

-- From a working state nothing is to be done.
unfoldable pub wake_from : PowerState → Controller → Controller
wake_from sleep c = wake_up c
wake_from _ c = c

-- The cases of the `switch`.
unfoldable pub change_power : PowerState → Controller → Controller
unfolding wake_from go_to_sleep
change_power sleep c = go_to_sleep c
change_power doze c = wake_from c.current_power_state c
change_power normal c = wake_from c.current_power_state c
change_power (bad_state n) c = c

abbrev pub same_state : PowerState → PowerState → Bool
same_state sleep sleep = true
same_state doze doze = true
same_state normal normal = true
same_state (bad_state m) (bad_state n) = m == n
same_state _ _ = false

unfoldable pub set_power_state_gated : PowerState → Controller → Controller
unfolding change_power
set_power_state_gated p c =
    if same_state c.current_power_state p
    then c
    else record (change_power p c) { current_power_state = p }

-- `installInterruptAction`, `uninstallInterruptAction`.
unfoldable pub install_interrupt_action : DeviceType → Controller → Controller
install_interrupt_action keyboard c = record c { interrupt_installed_keyboard = true }
install_interrupt_action mouse c = record c { interrupt_installed_mouse = true }

unfoldable pub uninstall_interrupt_action : DeviceType → Controller → Controller
uninstall_interrupt_action keyboard c = record c { interrupt_installed_keyboard = false }
uninstall_interrupt_action mouse c = record c { interrupt_installed_mouse = false }

-- `installPowerControlAction`, `uninstallPowerControlAction`.
unfoldable pub install_power_control_action : DeviceType → Controller → Controller
install_power_control_action keyboard c = record c { power_installed_keyboard = true }
install_power_control_action mouse c = record c { power_installed_mouse = true }

unfoldable pub uninstall_power_control_action : DeviceType → Controller → Controller
uninstall_power_control_action keyboard c = record c { power_installed_keyboard = false }
uninstall_power_control_action mouse c = record c { power_installed_mouse = false }
