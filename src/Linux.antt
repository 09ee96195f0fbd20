-- ===== src/Linux.antt =====
-- The Linux half of the plugin (linux/).
pub mod Uinput
pub mod Focus
pub mod Immersive
pub mod Keyboard
pub mod Wheel
pub mod Values
pub mod Monitors
pub mod Mouse
pub mod Capture
pub mod TextInput
pub mod Plugin
pub mod Integral
