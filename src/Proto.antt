-- ===== src/Proto.antt =====
-- crates/alloyfs-proto: the paths, messages and frames that both ends of a connection speak.
pub mod Errors
pub mod Path
pub mod Messages
pub mod Frame
