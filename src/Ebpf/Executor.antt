-- ===== src/Ebpf/Executor.antt =====
-- crates/tlapix-ebpf/src/executor.rs: the enforcing programs.
pub mod Headers
pub mod Programs
pub mod Agreement
pub mod Equality
pub mod Verdicts
