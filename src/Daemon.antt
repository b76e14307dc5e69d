-- ===== src/Daemon.antt =====
-- The daemon (crates/tlapix-daemon/src).
pub mod Webhooks
