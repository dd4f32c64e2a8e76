-- ===== src/Analyzer.antt =====
-- crates/analyzer/src/lib.rs: walking the sources, running the checks and collecting the findings.
pub mod Paths
pub mod Errors
pub mod Suppress
pub mod Dedup
pub mod Host
pub mod Filter
pub mod Scan
pub mod Tests
