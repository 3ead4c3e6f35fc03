-- ===== src/Proto.antt =====
-- crates/flip-proto: the wire contract shared by the firmware and the host.
pub mod Bytes
pub mod Crc
pub mod Frame
pub mod Value
pub mod Messages
mod Tests
