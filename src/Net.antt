-- ===== src/Net.antt =====
-- crates/tak-net: who a peer is, and which groups its messages go to.
pub mod Auth
pub mod Conn
