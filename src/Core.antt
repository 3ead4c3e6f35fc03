-- ===== src/Core.antt =====
-- crates/flip-core: the transport and the device link.
pub mod Reader
pub mod Device
pub mod Loopback
pub mod Serial
mod Tests
