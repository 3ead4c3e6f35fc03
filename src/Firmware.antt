-- ===== src/Firmware.antt =====
-- The Flipper application of firmware/src: its instruments, their table and its main loop.
pub mod Params
pub mod Registry
pub mod Loop
pub mod Usb
pub mod Main
pub mod Stream
pub mod Ir
pub mod SubGhz
mod Tests
