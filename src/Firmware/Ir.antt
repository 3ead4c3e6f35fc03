-- ===== src/Firmware/Ir.antt =====
-- firmware/src/ir_instrument.rs.
pub mod Capture
pub mod Transmit
