-- ===== src/Keyboard.antt =====
-- ApplePS2Keyboard/ApplePS2Keyboard.cpp: the keyboard driver.
pub mod Vector
pub mod State
pub mod Notices
pub mod Combinations
pub mod Gestures
pub mod Layouts
pub mod Config
pub mod Lights
pub mod Backlight
pub mod Setup
pub mod Preferences
pub mod Functions
pub mod Special
pub mod Codes
pub mod Pressed
pub mod ModifierKeys
pub mod Scan
pub mod Maps
