-- ===== src/Analyzer.antt =====
-- crates/tlapix-analyzer: what is wrong with an observed certificate.
pub mod SniMatch
pub mod Reasoning
pub mod Anomaly
pub mod Shadow
pub mod Escalation
pub mod Reconciliation
pub mod Renewal
mod Tests
