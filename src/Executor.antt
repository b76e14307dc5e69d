-- ===== src/Executor.antt =====
-- The user-space executor (crates/tlapix-executor/src).
pub mod MapWriter
pub mod Conflicts
pub mod Expiry
pub mod Failures
pub mod Integrity
