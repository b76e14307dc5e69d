-- ===== src/Storage/Shadows.antt =====
-- The table `shadow_certificates` of crates/tlapix-common/src/storage.rs. The level is stored as its
-- text, which is read back as the level (`risk_level_stored` in Storage/Tests.antt).
use tlapix.Common.{not, ◌&&◌, Option, List, if◌then◌else◌, ok, err}
use tlapix.Types.{Fingerprint}
use tlapix.Storage.Rows.{ShadowCertificateRow}
use tlapix.Storage.Sql.{select_where, delete_where, exists, is_key, find, upsert}
use tlapix.Storage.Database.{foreign_key, sqlite, Db, blocking}
use tlapix.Storage.Certificates.{cert_key}

abbrev pub shadow_key : ShadowCertificateRow → Fingerprint
shadow_key s = s.fingerprint

-- DO UPDATE SET
abbrev pub reclassified : ShadowCertificateRow → ShadowCertificateRow → ShadowCertificateRow
reclassified row s = record s {
  risk_level = row.risk_level;
  last_escalated = row.last_escalated;
  escalation_count = row.escalation_count;
  is_resolved = row.is_resolved;
  resolved_at = row.resolved_at;
}

module _ {F : Type 0} where
  -- A new row needs its certificate.
  unfoldable pub upsert_shadow_certificate : ShadowCertificateRow → Db F (Unit {0})
  unfolding blocking exists upsert
  upsert_shadow_certificate row = blocking λ db.
      if not (exists (is_key shadow_key row.fingerprint) db.shadow_certificates)
        && not (exists (is_key cert_key row.fingerprint) db.certificates)
      then (err (sqlite foreign_key), db)
      else (
        ok tt,
        record db {
          shadow_certificates = upsert shadow_key row (reclassified row) db.shadow_certificates;
        },
      )

  unfoldable pub get_shadow_certificate : Fingerprint → Db F (Option ShadowCertificateRow)
  unfolding blocking find
  get_shadow_certificate fp = blocking λ db. (ok (find shadow_key fp db.shadow_certificates), db)

  unfoldable pub list_unresolved_shadow_certificates : Db F (List ShadowCertificateRow)
  unfolding blocking select_where
  list_unresolved_shadow_certificates =
      blocking λ db. (ok (select_where (λ s. not s.is_resolved) db.shadow_certificates), db)

  unfoldable pub delete_shadow_certificate : Fingerprint → Db F (Unit {0})
  unfolding blocking delete_where
  delete_shadow_certificate fp = blocking λ db. (
    ok tt,
    record db { shadow_certificates = delete_where (is_key shadow_key fp) db.shadow_certificates },
  )
