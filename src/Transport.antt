-- ===== src/Transport.antt =====
-- crates/alloyfs-transport: one connection between a client and a server.
pub mod Handshake
pub mod Mux
