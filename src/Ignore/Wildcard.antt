-- ===== src/Ignore/Wildcard.antt =====
-- `wildcard` of crates/rowd-core/src/ignore.rs.
pub mod Loop
pub mod Glob
pub mod Termination
pub mod Exact
pub mod Stars
