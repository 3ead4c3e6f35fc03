-- ===== src/Daemon.antt =====
-- The daemon of crates/flip-daemon between the clients and the device.
pub mod Router
pub mod Device
pub mod Pump
pub mod Owner
pub mod Session
mod Tests
