-- ===== src/Server.antt =====
-- crates/tak-server: what the server does with the bytes of a connection.
pub mod Firehose
pub mod GroupPolicy
pub mod Pipeline
pub mod Connection
