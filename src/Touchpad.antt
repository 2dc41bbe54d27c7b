-- ===== src/Touchpad.antt =====
-- ApplePS2SmartTouchPad/ApplePS2SmartTouchPad.cpp: the touchpad driver's state.
pub mod Elan
pub mod Synaptics
pub mod Connect
pub mod Packets
pub mod Features
pub mod Notified
pub mod Swipes
pub mod Positions
pub mod Timers
pub mod Buttons
use apple_ps2smart_touch_pad.Common.{ℕ, Bool, true, false, List}
use apple_ps2smart_touch_pad.Interface.Device.{Host, Params}

-- `_touchpadVendor`: `STD_MOUSE`, `STD_ELAN_TECH`, `STD_FOCAL_TECH`, `STD_SYNAPTICS`.
pub data Vendor : Type 0 where
  std_mouse std_elan_tech std_focal_tech std_synaptics : Vendor

abbrev pub is_synaptics : Vendor → Bool
is_synaptics std_synaptics = true
is_synaptics _ = false

-- The members that the gesture code writes and the packet code reads.
pub record Gesture : Type 0 where
  pub fingers : ℕ
  pub button_data : ℕ
  pub packets_count : ℕ

-- What the keyboard driver and the poll of the surroundings leave: `_kbEvent`, the lid, the Fn key
-- and the external mouse. Times are `uint64_t`.
pub record Surroundings : Type 0 where
  pub usb_mouse_disables_trackpad : Bool
  pub external_mouse_found : Bool
  pub last_mouse_check : ℕ
  pub mouse_poll_rate : ℕ
  pub is_asus_notebook : Bool
  pub enable_lid_polling : Bool
  pub last_fn_key_check : ℕ
  pub acpi_poll_rate : ℕ
  pub fn_key_disabled_touchpad : Bool
  pub lid_closed : Bool
  pub is_type_mode_enabled : Bool
  pub accidental_input : Bool
  pub last_key_press_time : ℕ
  pub acc_input_time_out : ℕ
  pub tap_enable_touchpad : Bool
  pub keys_count : ℕ
  pub disable_touchpad : Bool

-- The members of `ApplePS2SmartTouchpad` and of its structs that the modelled operations use;
-- `host` is what the driver reaches through `_device`.
pub record Touchpad : Type 0 where
  pub host : Host
  pub vendor : Vendor
  pub packet_buffer : List ℕ
  pub packet_byte_count : ℕ
  pub end_packets_count : ℕ
  pub packet_size : ℕ
  pub mode_set_tries : ℕ
  pub gesture : Gesture
  pub surroundings : Surroundings
  pub sample_rate : ℕ
  pub resolution : ℕ
  pub scaling : ℕ
  pub hw_version : ℕ
  pub is_click_pad : Bool
  pub xmin : ℕ
  pub ymin : ℕ
  pub xmax : ℕ
  pub ymax : ℕ
  pub xcenter : ℕ
  pub ycenter : ℕ
  pub fw_version : ℕ
  pub elan_capabs : Params
  pub v3_elan_legacy_mode : Bool
  pub parity_check : Bool
  pub jumpy_cursor : Bool
  pub reports_pressure : Bool
  pub crc_enabled : Bool
  pub supports_track_point : Bool
  pub traces_width : ℕ
  pub reg_07 : ℕ
  pub reg_10 : ℕ
  pub reg_11 : ℕ
  pub reg_21 : ℕ
  pub disable_trackpoint : Bool
  pub syn_packet_type : ℕ
  pub syn_mode : ℕ
  pub syn_absolute_mode : Bool
  pub syn_disable_gesture : Bool
  pub syn_capabilities : ℕ
  pub syn_ext_cap_0c : ℕ
