-- ===== src/Controller.antt =====
-- ApplePS2Controller/ApplePS2Controller.cpp: the driver of the keyboard and mouse controller.
pub mod State
pub mod Port
pub mod Read
pub mod Request
pub mod Escape
pub mod Mux
pub mod Power
pub mod Notifications
