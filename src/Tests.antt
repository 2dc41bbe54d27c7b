-- ===== src/Tests.antt =====
-- Runs of the modelled code at concrete inputs.
pub mod Inputs
pub mod Reads
pub mod Requests
pub mod Power
pub mod Pads
pub mod Keys
pub mod Gestures
mod Together
mod Reports
