-- ===== src/Windows.antt =====
-- The Windows part of the plugin.
pub mod Blocker
pub mod CursorLock
pub mod Displays
pub mod Editing
pub mod Gamepad
pub mod Injection
pub mod Pointer
pub mod Service
pub mod Tracking
