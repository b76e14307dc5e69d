-- ===== src/Storage/Integrity/Statements.antt =====
-- Every statement of crates/tlapix-common/src/storage.rs keeps the tables consistent.
use tlapix.Common.{ℕ, refl, not, Option, [], ◌∷◌, ◌++◌, bytes_eq}
use tlapix.Common.Int.{ℤ}
use tlapix.Common.Text.{Text}
use tlapix.Types.{Fingerprint, CertificateMetadata}
use tlapix.Storage.Rows.{
  Json, ActionDirectiveRow, ShadowCertificateRow, RenewalPredictionRow, AuditLogRow,
  CertificateInventoryRow, InventoryRefreshLogRow,
}
use tlapix.Storage.Sql.{delete_where, is_key, upsert}
use tlapix.Storage.Sql.Laws.{delete-IsUnique, upsert-IsUnique}
use tlapix.Storage.Database.{Database}
use tlapix.Storage.Certificates.{delete_certificate, touch_certificate, upsert_certificate}
use tlapix.Storage.Directives.{
  insert_action_directive, update_directive_status, mark_directive_failed, delete_action_directive,
}
use tlapix.Storage.Shadows.{upsert_shadow_certificate, delete_shadow_certificate}
use tlapix.Storage.Records.{
  inventory_key, imported, upsert_renewal_prediction, delete_renewal_prediction, insert_audit_log,
  upsert_inventory_entry, remove_stale_inventory_entries, delete_inventory_entry,
  insert_refresh_log,
}
use tlapix.Storage.Retention.{
  cutoff_ms, unseen_since, logged_before, cleanup_old_certificates, cleanup_old_audit_logs,
}
use tlapix.Storage.Integrity.{IsConsistent}
use tlapix.Storage.Integrity.Keeps.{
  blocked-Stays, delete_certificates-Stays, insert_directive-Stays, upsert_shadow-Stays,
  upsert_prediction-Stays, insert_refresh-Stays, upsert_cert-Stays, touch_cert-Stays,
  delete_cert-Stays, update_status-Stays, mark_failed-Stays, delete_directive-Stays,
  delete_shadow-Stays, delete_prediction-Stays, with_inventory, with_audit,
}

-- The statements that change a table.
pub data Statement (F : Type 0) : Type 0 where
  upsert_cert : Json → ℤ → CertificateMetadata → Statement F
  touch_cert : ℤ → Fingerprint → ℤ → Statement F
  delete_cert : Fingerprint → Statement F
  insert_directive : ActionDirectiveRow → Statement F
  update_status : ℤ → Text → Text → Option Text → Statement F
  mark_failed : ℤ → Text → ℤ → Text → Statement F
  delete_directive : Text → Statement F
  upsert_shadow : ShadowCertificateRow → Statement F
  delete_shadow : Fingerprint → Statement F
  upsert_prediction : RenewalPredictionRow F → Statement F
  delete_prediction : Fingerprint → Statement F
  insert_audit : ℤ → AuditLogRow → Statement F
  upsert_inventory : CertificateInventoryRow → Statement F
  remove_stale : Text → Statement F
  delete_inventory : Fingerprint → Statement F
  insert_refresh : InventoryRefreshLogRow → Statement F
  cleanup_certs : ℤ → ℕ → Statement F
  cleanup_logs : ℤ → ℕ → Statement F

module _ {F : Type 0} where
  abbrev pub execute : Statement F → Database F → Database F
  execute (upsert_cert json now cert) db = (upsert_certificate json now cert db).1
  execute (touch_cert now fp seen) db = (touch_certificate now fp seen db).1
  execute (delete_cert fp) db = (delete_certificate fp db).1
  execute (insert_directive row) db = (insert_action_directive row db).1
  execute (update_status now id status reason) db =
      (update_directive_status now id status reason db).1
  execute (mark_failed now id n reason) db = (mark_directive_failed now id n reason db).1
  execute (delete_directive id) db = (delete_action_directive id db).1
  execute (upsert_shadow row) db = (upsert_shadow_certificate row db).1
  execute (delete_shadow fp) db = (delete_shadow_certificate fp db).1
  execute (upsert_prediction row) db = (upsert_renewal_prediction row db).1
  execute (delete_prediction fp) db = (delete_renewal_prediction fp db).1
  execute (insert_audit fresh row) db = (insert_audit_log fresh row db).1
  execute (upsert_inventory row) db = (upsert_inventory_entry row db).1
  execute (remove_stale id) db = (remove_stale_inventory_entries id db).1
  execute (delete_inventory fp) db = (delete_inventory_entry fp db).1
  execute (insert_refresh row) db = (insert_refresh_log row db).1
  execute (cleanup_certs now days) db = (cleanup_old_certificates now days db).1
  execute (cleanup_logs now days) db = (cleanup_old_audit_logs now days db).1

  -- Whatever statement runs, with whatever values and faults, a consistent database stays consistent:
  -- fingerprints and identifiers are unique in their tables, and every directive, shadow row and
  -- prediction refers to a certificate that is stored.
  pub execute-IsConsistent :
      (st : Statement F) (db : Database F) → IsConsistent db → IsConsistent (execute st db)
  unfolding insert_audit_log upsert_inventory_entry remove_stale_inventory_entries
      delete_inventory_entry cleanup_old_certificates cleanup_old_audit_logs
  execute-IsConsistent (upsert_cert json now cert) = upsert_cert-Stays json now cert
  execute-IsConsistent (touch_cert now fp seen) = touch_cert-Stays now fp seen
  execute-IsConsistent (delete_cert fp) = delete_cert-Stays fp
  execute-IsConsistent (insert_directive row) = insert_directive-Stays row
  execute-IsConsistent (update_status now id status reason) =
      update_status-Stays now id status reason
  execute-IsConsistent (mark_failed now id n reason) = mark_failed-Stays now id n reason
  execute-IsConsistent (delete_directive id) = delete_directive-Stays id
  execute-IsConsistent (upsert_shadow row) = upsert_shadow-Stays row
  execute-IsConsistent (delete_shadow fp) = delete_shadow-Stays fp
  execute-IsConsistent (upsert_prediction row) = upsert_prediction-Stays row
  execute-IsConsistent (delete_prediction fp) = delete_prediction-Stays fp
  execute-IsConsistent (insert_audit fresh row) =
      blocked-Stays _ (λ db. with_audit db (db.audit_log ++ record row { id = fresh } ∷ []))
  execute-IsConsistent (upsert_inventory row) = blocked-Stays _ (λ db c.
      with_inventory db (upsert inventory_key row (imported row) db.certificate_inventory)
        (upsert-IsUnique inventory_key row (imported row) db.certificate_inventory (λ r. refl)
          c.inventory)
        c)
  execute-IsConsistent (remove_stale id) = blocked-Stays _ (λ db c.
      with_inventory db
        (delete_where (λ e. not (bytes_eq e.last_refresh_id id)) db.certificate_inventory)
        (delete-IsUnique inventory_key (λ e. not (bytes_eq e.last_refresh_id id))
          db.certificate_inventory c.inventory)
        c)
  execute-IsConsistent (delete_inventory fp) = blocked-Stays _ (λ db c.
      with_inventory db (delete_where (is_key inventory_key fp) db.certificate_inventory)
        (delete-IsUnique inventory_key (is_key inventory_key fp) db.certificate_inventory
          c.inventory)
        c)
  execute-IsConsistent (insert_refresh row) = insert_refresh-Stays row
  execute-IsConsistent (cleanup_certs now days) =
      blocked-Stays _ (delete_certificates-Stays (unseen_since (cutoff_ms now days)))
  execute-IsConsistent (cleanup_logs now days) =
      blocked-Stays _
        (λ db. with_audit db (delete_where (logged_before (cutoff_ms now days)) db.audit_log))
