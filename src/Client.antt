-- ===== src/Client.antt =====
-- crates/flip-client: what the client library sends to the device and reads from it.
pub mod Signal
pub mod SubGhz
pub mod Capture
pub mod Daemon
pub mod LinkProbe
mod Tests
