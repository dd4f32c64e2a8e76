-- ===== src/Cli.antt =====
-- crates/cli: the command line.
pub mod Baseline
pub mod Config
pub mod Metadata
pub mod Report
pub mod Pretty
pub mod Run
pub mod Setup
pub mod Tests
