-- ===== src/Mount.antt =====
-- crates/alloyfs-mount-kernel: the daemon behind the kernel module.
pub mod Abi
pub mod Handles
pub mod Readdir
