-- ===== src/Crosvm.antt =====
-- src/crosvm.rs: the commands to Crosvm's control socket and their replies, and `bind_vfio`.
pub mod Replies
pub mod Commands
pub mod Vfio
pub mod Settled
pub mod Rounds
