-- ===== src/Storage/Retention.antt =====
-- The retention of crates/tlapix-common/src/storage.rs: what is too old is deleted.
pub mod Blocked
use tlapix.Common.{
  ℕ, ◌*◌, Bool, true, false, Option, List, length, Result, ok, err, ◌>>=◌, ◌>>◌, pure,
}
use tlapix.Common.Int.{ℤ, pos, ltb_ℤ, ◌-ℤ◌}
use tlapix.Storage.Rows.{CertificateRow, AuditLogRow}
use tlapix.Storage.Sql.{select_where, delete_where}
use tlapix.Storage.Database.{Database, Db, blocking}
use tlapix.Storage.Certificates.{delete_certificates}

-- `retention_days as i64 * 24 * 60 * 60 * 1000` of a u32.
abbrev pub cutoff_ms : ℤ → ℕ → ℤ
cutoff_ms now_ms retention_days = now_ms -ℤ pos (retention_days * 86400000)

abbrev pub unseen_since : ℤ → CertificateRow → Bool
unseen_since cutoff r = ltb_ℤ r.last_seen cutoff

abbrev pub logged_before : ℤ → AuditLogRow → Bool
logged_before cutoff l = ltb_ℤ l.created_at cutoff

module _ {F : Type 0} where
  unfoldable pub cleanup_old_certificates : ℤ → ℕ → Db F ℕ
  unfolding blocking delete_certificates
  cleanup_old_certificates now_ms retention_days =
      blocking (delete_certificates (unseen_since (cutoff_ms now_ms retention_days)))

  unfoldable pub cleanup_old_audit_logs : ℤ → ℕ → Db F ℕ
  unfolding blocking select_where delete_where
  cleanup_old_audit_logs now_ms retention_days = blocking λ db.
      let old = logged_before (cutoff_ms now_ms retention_days) in
      (
        ok (length (select_where old db.audit_log)),
        record db { audit_log = delete_where old db.audit_log },
      )

  -- The clock is read by each of the two.
  unfoldable pub run_retention_cleanup : ℤ → ℤ → Db F (ℕ × ℕ)
  unfolding cleanup_old_certificates cleanup_old_audit_logs
  run_retention_cleanup now_ms later_ms = do
    certs_deleted ← cleanup_old_certificates now_ms 90
    logs_deleted ← cleanup_old_audit_logs later_ms 90
    pure (certs_deleted, logs_deleted)
