-- ===== src/Bus.antt =====
-- crates/tak-bus: the subscription registry and the fan-out of messages.
pub mod Groups
pub mod Identity
pub mod TypeIndex
pub mod Platform
pub mod Filter
pub mod State
pub mod Registry
pub mod Dispatch
pub mod Tests
