-- ===== src/Collector.antt =====
-- The user-space collector (crates/tlapix-collector/src).
pub mod Buffer
pub mod Channel
pub mod Dedup
pub mod Tests
