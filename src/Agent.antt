-- ===== src/Agent.antt =====
-- crates/alloyfs-agent: the server side.
pub mod Locks
pub mod Hub
pub mod Versions
pub mod Symlinks
pub mod Export
pub mod Session
