-- ===== src/Cli.antt =====
-- crates/flip-cli: the command line.
pub mod Kv
pub mod Render
pub mod Shown
pub mod Run
mod Tests
