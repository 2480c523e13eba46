-- ===== src/Config.antt =====
-- src/config.rs: the configuration, and the rules that say which VM may have which device.
pub mod Types
pub mod Selectors
pub mod Usb
pub mod Pci
pub mod Vms
pub mod Load
pub mod Rules
