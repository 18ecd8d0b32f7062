-- ===== src/Server/Connection/Groups.antt =====
-- Who hears whom: the filter of a connection of crates/tak-server/src/firehose.rs against the
-- messages of another.
use tak_rs.Bus.Platform.{Platform}
