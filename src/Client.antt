-- ===== src/Client.antt =====
-- crates/alloyfs-client: the client side.
pub mod Reconcile
pub mod Cache
pub mod Inodes
pub mod Manifest
pub mod Errno
pub mod Symlinks
pub mod Remote
pub mod Effect
pub mod Local
pub mod Overlay
pub mod ReadAhead
