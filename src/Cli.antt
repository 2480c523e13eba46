-- ===== src/Cli.antt =====
-- src/bin/ghaf-device.rs: the command-line client.
pub mod Escape
pub mod Print
pub mod Selectors
pub mod Retry
pub mod Commands
pub mod Run
