-- ===== src/Common.antt =====
-- crates/alloyfs-common: what the server and the client share.
pub mod Exclude
pub mod Coalesce
pub mod Action
pub mod Files
