-- ===== src/Vopr.antt =====
-- crates/tak-bus-vopr: the simulator that runs the bus beside an abstract model of it.
pub mod Model
pub mod Runner
pub mod Minimize
