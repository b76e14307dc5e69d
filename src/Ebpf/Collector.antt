-- ===== src/Ebpf/Collector.antt =====
-- crates/tlapix-ebpf/src/main.rs: the observing programs.
pub mod Headers
pub mod Chain
pub mod Events
pub mod Bounds
pub mod Errors
