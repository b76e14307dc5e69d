-- ===== src/Storage/Records.antt =====
-- The tables of renewal predictions, the inventory and the two logs (crates/tlapix-common/src/storage.rs).
use tlapix.Common.{
  ℕ, Bool, not, ◌&&◌, Option, List, [], ◌∷◌, ◌++◌, if◌then◌else◌, bytes_eq, length, ltb, ok, err,
}
use tlapix.Common.Int.{ℤ, ltb_ℤ}
use tlapix.Common.Text.{Text}
use tlapix.Types.{Fingerprint}
use tlapix.Storage.Rows.{
  RenewalPredictionRow, AuditLogRow, CertificateInventoryRow, InventoryRefreshLogRow,
}
use tlapix.Storage.Sql.{
  select_where, delete_where, exists, is_key, find, upsert, order_by_desc, first,
}
use tlapix.Storage.Database.{foreign_key, unique, sqlite, Db, blocking}
use tlapix.Storage.Certificates.{cert_key}

abbrev pub prediction_key : {F : Type 0} → RenewalPredictionRow F → Fingerprint
prediction_key p = p.cert_fingerprint

abbrev pub inventory_key : CertificateInventoryRow → Fingerprint
inventory_key e = e.fingerprint

abbrev pub refresh_key : InventoryRefreshLogRow → Text
refresh_key l = l.id

abbrev pub predicted :
    {F : Type 0} → RenewalPredictionRow F → RenewalPredictionRow F → RenewalPredictionRow F
predicted row p = record row { cert_fingerprint = p.cert_fingerprint; created_at = p.created_at }

abbrev pub imported : CertificateInventoryRow → CertificateInventoryRow → CertificateInventoryRow
imported row e = record row { fingerprint = e.fingerprint }

-- ORDER BY timestamp ASC
unfoldable pub insert_asc : AuditLogRow → List AuditLogRow → List AuditLogRow
insert_asc r [] = r ∷ []
insert_asc r (q ∷ rows) =
    let rest = insert_asc r rows in if ltb_ℤ q.timestamp r.timestamp then q ∷ rest else r ∷ q ∷ rows

unfoldable pub order_by_timestamp : List AuditLogRow → List AuditLogRow
unfolding insert_asc
order_by_timestamp [] = []
order_by_timestamp (r ∷ rows) = insert_asc r (order_by_timestamp rows)

module _ {F : Type 0} where
  unfoldable pub upsert_renewal_prediction : RenewalPredictionRow F → Db F (Unit {0})
  unfolding blocking exists upsert
  upsert_renewal_prediction row = blocking λ db.
      if not (exists (is_key prediction_key row.cert_fingerprint) db.renewal_predictions)
        && not (exists (is_key cert_key row.cert_fingerprint) db.certificates)
      then (err (sqlite foreign_key), db)
      else (
        ok tt,
        record db {
          renewal_predictions = upsert prediction_key row (predicted row) db.renewal_predictions;
        },
      )

  unfoldable pub get_renewal_prediction : Fingerprint → Db F (Option (RenewalPredictionRow F))
  unfolding blocking find
  get_renewal_prediction fp =
      blocking λ db. (ok (find prediction_key fp db.renewal_predictions), db)

  unfoldable pub delete_renewal_prediction : Fingerprint → Db F (Unit {0})
  unfolding blocking delete_where
  delete_renewal_prediction fp = blocking λ db. (
    ok tt,
    record db {
      renewal_predictions = delete_where (is_key prediction_key fp) db.renewal_predictions;
    },
  )

  unfoldable pub list_all_renewal_predictions : Db F (List (RenewalPredictionRow F))
  unfolding blocking
  list_all_renewal_predictions = blocking λ db. (ok db.renewal_predictions, db)

  -- The identifier of the row is the database's: `fresh`.
  unfoldable pub insert_audit_log : ℤ → AuditLogRow → Db F (Unit {0})
  unfolding blocking
  insert_audit_log fresh row =
      blocking
        λ db. (ok tt, record db { audit_log = db.audit_log ++ record row { id = fresh } ∷ [] })

  unfoldable pub get_audit_logs_by_correlation : Text → Db F (List AuditLogRow)
  unfolding blocking select_where order_by_timestamp
  get_audit_logs_by_correlation correlation_id = blocking λ db. (
    ok (
        order_by_timestamp
          (select_where (λ l. bytes_eq l.correlation_id correlation_id) db.audit_log)),
    db,
  )

  unfoldable pub upsert_inventory_entry : CertificateInventoryRow → Db F (Unit {0})
  unfolding blocking upsert
  upsert_inventory_entry row = blocking λ db. (
    ok tt,
    record db {
      certificate_inventory = upsert inventory_key row (imported row) db.certificate_inventory;
    },
  )

  -- `SELECT COUNT(*) … > 0`
  unfoldable pub inventory_contains : Fingerprint → Db F Bool
  unfolding blocking select_where
  inventory_contains fp = blocking λ db.
      (ok (ltb 0 (length (select_where (is_key inventory_key fp) db.certificate_inventory))), db)

  unfoldable pub remove_stale_inventory_entries : Text → Db F ℕ
  unfolding blocking select_where delete_where
  remove_stale_inventory_entries refresh_id = blocking λ db.
      let stale = λ (e : CertificateInventoryRow). not (bytes_eq e.last_refresh_id refresh_id) in
      (
        ok (length (select_where stale db.certificate_inventory)),
        record db { certificate_inventory = delete_where stale db.certificate_inventory },
      )

  unfoldable pub delete_inventory_entry : Fingerprint → Db F (Unit {0})
  unfolding blocking delete_where
  delete_inventory_entry fp = blocking λ db. (
    ok tt,
    record db {
      certificate_inventory = delete_where (is_key inventory_key fp) db.certificate_inventory;
    },
  )

  unfoldable pub insert_refresh_log : InventoryRefreshLogRow → Db F (Unit {0})
  unfolding blocking exists
  insert_refresh_log row = blocking λ db.
      if exists (is_key refresh_key row.id) db.inventory_refresh_log
      then (err (sqlite unique), db)
      else (ok tt, record db { inventory_refresh_log = db.inventory_refresh_log ++ row ∷ [] })

  unfoldable pub get_latest_refresh_log : Db F (Option InventoryRefreshLogRow)
  unfolding blocking order_by_desc
  get_latest_refresh_log =
      blocking λ db. (ok (first (order_by_desc (λ l. l.timestamp) db.inventory_refresh_log)), db)
