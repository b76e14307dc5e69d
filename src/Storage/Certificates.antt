-- ===== src/Storage/Certificates.antt =====
-- The table `certificates` of crates/tlapix-common/src/storage.rs.
pub mod RoundTrip
use tlapix.Common.{
  ℕ, ◌*◌, Bool, true, false, not, ◌||◌, Option, none, some, List, [], ◌∷◌, map, if◌then◌else◌,
  length, Result, ok, err,
}
use tlapix.Common.Int.{ℤ, pos, ltb_ℤ, ◌+ℤ◌, ◌*ℤ◌}
use tlapix.Common.Text.{Text}
use tlapix.Types.{Fingerprint, CertificateMetadata}
use tlapix.Storage.Rows.{
  Json, CertificateRow, ActionDirectiveRow, ShadowCertificateRow, RenewalPredictionRow,
  certificate_to_row, row_to_certificate_metadata, timestamp_millis,
}
use tlapix.Storage.Sql.{
  select_where, delete_where, update_where, exists, is_key, find, upsert, order_by_desc, limit_rows,
}
use tlapix.Storage.Database.{SqliteError, foreign_key, StorageError, sqlite, Database, Db, blocking}

abbrev pub cert_key : CertificateRow → Fingerprint
cert_key r = r.fingerprint

-- The SET of a certificate that is seen again. SQLite counts in 64 bits; a count at their end, which
-- becomes a REAL, is beyond the model.
abbrev pub touched : ℤ → ℤ → CertificateRow → CertificateRow
touched last_seen_ms now_ms r = record r {
  last_seen = last_seen_ms;
  connection_count = r.connection_count +ℤ pos 1;
  updated_at = now_ms;
}

abbrev pub read_row : Json → Option CertificateRow → Option CertificateMetadata
read_row json none = none
read_row json (some r) = some (row_to_certificate_metadata json r)

-- `days as i64 * 24 * 60 * 60 * 1000`
abbrev pub days_ms : ℤ → ℤ
days_ms days = days *ℤ pos 86400000

module _ {F : Type 0} where
  -- FOREIGN KEY: a certificate that a row of another table refers to.
  unfoldable pub referenced : Database F → CertificateRow → Bool
  unfolding exists
  referenced db r =
      exists (is_key (λ d. d.cert_fingerprint) r.fingerprint) db.action_directives
      || exists (is_key (λ s. s.fingerprint) r.fingerprint) db.shadow_certificates
      || exists (is_key (λ p. p.cert_fingerprint) r.fingerprint) db.renewal_predictions

  -- DELETE FROM certificates WHERE: the statement fails as a whole if one of its rows is referred to.
  unfoldable pub delete_certificates : (CertificateRow → Bool) → Db F ℕ
  unfolding referenced select_where delete_where exists
  delete_certificates p db =
      let doomed = select_where p db.certificates in
      if exists (referenced db) doomed
      then (err (sqlite foreign_key), db)
      else (ok (length doomed), record db { certificates = delete_where p db.certificates })

  unfoldable pub delete_certificate : Fingerprint → Db F (Unit {0})
  unfolding blocking delete_certificates
  delete_certificate fp = blocking λ db.
      let (r, db') = delete_certificates (is_key cert_key fp) db in
      (elim r [ ok n ↦ ok tt | err e ↦ err e ], db')

  -- A fingerprint that is unknown changes no row.
  unfoldable pub touch_certificate : ℤ → Fingerprint → ℤ → Db F (Unit {0})
  unfolding blocking update_where
  touch_certificate now_ms fp last_seen_ms = blocking λ db. (
    ok tt,
    record db {
      certificates =
          update_where (is_key cert_key fp) (touched last_seen_ms now_ms) db.certificates;
    },
  )

  unfoldable pub list_certificate_fingerprints : Db F (List Fingerprint)
  unfolding blocking
  list_certificate_fingerprints = blocking λ db. (ok (map cert_key db.certificates), db)

  unfoldable pub list_recent_fingerprints : ℕ → Db F (List Fingerprint)
  unfolding blocking order_by_desc limit_rows
  list_recent_fingerprints limit = blocking λ db.
      (ok (map cert_key (limit_rows limit (order_by_desc (λ r. r.last_seen) db.certificates))), db)

  unfoldable pub count_certificates : Db F ℕ
  unfolding blocking
  count_certificates = blocking λ db. (ok (length db.certificates), db)

  module _ (json : Json) where
    unfoldable pub upsert_certificate : ℤ → CertificateMetadata → Db F (Unit {0})
    unfolding blocking upsert certificate_to_row
    upsert_certificate now_ms cert = blocking λ db.
        let row = certificate_to_row json now_ms cert in
        (
          ok tt,
          record db {
            certificates = upsert cert_key row (touched row.last_seen now_ms) db.certificates;
          },
        )

    unfoldable pub get_certificate : Fingerprint → Db F (Option CertificateMetadata)
    unfolding blocking find row_to_certificate_metadata
    get_certificate fp = blocking λ db. (ok (read_row json (find cert_key fp db.certificates)), db)

    unfoldable pub list_certificates_expiring_within_days : ℤ → ℤ → Db F (List CertificateMetadata)
    unfolding blocking select_where row_to_certificate_metadata
    list_certificates_expiring_within_days now_ms days = blocking λ db. (
      ok (
          map (row_to_certificate_metadata json)
            (select_where (λ r. not (ltb_ℤ (now_ms +ℤ days_ms days) r.not_after)) db.certificates)),
      db,
    )

    unfoldable pub list_all_certificates : ℕ → Db F (List CertificateMetadata)
    unfolding blocking order_by_desc limit_rows row_to_certificate_metadata
    list_all_certificates limit = blocking λ db. (
      ok (
          map (row_to_certificate_metadata json)
            (limit_rows limit (order_by_desc (λ r. r.last_seen) db.certificates))),
      db,
    )
