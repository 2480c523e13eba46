-- ===== src/Manager.antt =====
-- src/manager.rs: the methods of `DeviceManager`.
pub mod Store
pub mod Unmoved
pub mod Select
pub mod Detach
pub mod Claim
pub mod Attach
pub mod Pci
pub mod Routing
pub mod Gate
pub mod Passes
pub mod Observe
pub mod Evdev
pub mod VmmArgs
