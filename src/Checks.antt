-- ===== src/Checks.antt =====
-- crates/checks: the findings, the registry of the checks and the groupings (src/lib.rs).
pub mod Syntax
pub mod Ast
pub mod Finding
pub mod Names
pub mod Registry
pub mod Grouping
pub mod Detectors
pub mod Tests
