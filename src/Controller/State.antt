-- ===== src/Controller/State.antt =====
-- The state of ApplePS2Controller (ApplePS2Controller.h) and the constants of ApplePS2Device.h.
--
-- The hardware is outside the program. What it answers in a run is an input: `status_in` holds
-- what the coming reads of the command port return and `data_in` what those of the data port do,
-- in order; once a list is used up the port reads as 0. Every write to a port is kept in `outs`,
-- every call of a client's handler in `delivered` and `notified`, oldest first.
use apple_ps2smart_touch_pad.Common.{ℕ, Bool, List}

-- `PS2DeviceType`.
pub data DeviceType : Type 0 where
  keyboard mouse : DeviceType

-- `kPS2PowerStateSleep`, `kPS2PowerStateDoze`, `kPS2PowerStateNormal`; any other ordinal.
pub data PowerState : Type 0 where
  sleep doze normal : PowerState
  bad_state : ℕ → PowerState

-- `kPS2C_DisableDevice`, `kPS2C_EnableDevice`.
pub data PowerAction : Type 0 where
  disable_device enable_device : PowerAction

-- `outb(kCommandPort, b)` and `outb(kDataPort, b)`.
pub data PortWrite : Type 0 where
  to_command to_data : ℕ → PortWrite

-- A byte for a client's interrupt handler.
pub record Delivery : Type 0 where
  pub target : DeviceType
  pub byte : ℕ

-- A power message for a client's power handler.
pub record PowerNotice : Type 0 where
  pub client : DeviceType
  pub action : PowerAction

pub record Controller : Type 0 where
  pub status_in : List ℕ
  pub data_in : List ℕ
  pub outs : List PortWrite
  pub delivered : List Delivery
  pub notified : List PowerNotice
  pub interrupt_installed_keyboard : Bool
  pub interrupt_installed_mouse : Bool
  pub power_installed_keyboard : Bool
  pub power_installed_mouse : Bool
  pub keyboard_queue : List ℕ
  pub keyboard_queue_unused : ℕ
  pub extended_state : Bool
  pub modifier_state : ℕ
  pub debugging_enabled : Bool
  pub current_power_state : PowerState
  pub hardware_offline : Bool
  pub uses_mux_mode : Bool
  pub mux_route_prefix : ℕ

abbrev pub output_ready_bit : ℕ
output_ready_bit = 0x01

abbrev pub input_busy_bit : ℕ
input_busy_bit = 0x02

abbrev pub mouse_data_bit : ℕ
mouse_data_bit = 0x20

-- `timeoutCounter` of `readDataPort`.
abbrev pub read_timeout : ℕ
read_timeout = 10000

abbrev pub sc_acknowledge : ℕ
sc_acknowledge = 0xfa

abbrev pub cp_get_command_byte : ℕ
cp_get_command_byte = 0x20

abbrev pub cp_set_command_byte : ℕ
cp_set_command_byte = 0x60

abbrev pub cp_write_mouse_output_buffer : ℕ
cp_write_mouse_output_buffer = 0xd3

abbrev pub cp_transmit_to_mouse : ℕ
cp_transmit_to_mouse = 0xd4

abbrev pub dp_set_defaults_and_disable : ℕ
dp_set_defaults_and_disable = 0xf5

abbrev pub rp_routing_prefix_aux_port : ℕ
rp_routing_prefix_aux_port = 0x90

abbrev pub cb_enable_keyboard_irq : ℕ
cb_enable_keyboard_irq = 0x01

abbrev pub cb_enable_mouse_irq : ℕ
cb_enable_mouse_irq = 0x02

abbrev pub cb_disable_keyboard_clock : ℕ
cb_disable_keyboard_clock = 0x10

abbrev pub cb_disable_mouse_clock : ℕ
cb_disable_mouse_clock = 0x20
