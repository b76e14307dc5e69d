-- ===== src/Storage/Integrity/Tables.antt =====
-- A database stays consistent when one of its tables is replaced (crates/tlapix-common/src/storage.rs).
use tlapix.Common.{inl, inr, ◌∙◌, Bool, List, Bool-cases}
use tlapix.Storage.Rows.{
  CertificateRow, ActionDirectiveRow, ShadowCertificateRow, RenewalPredictionRow, AuditLogRow,
  CertificateInventoryRow, InventoryRefreshLogRow,
}
use tlapix.Storage.Sql.{update_where, exists, is_key, IsUnique, upsert}
use tlapix.Storage.Sql.Laws.{KeepsKey, exists-append, exists-update}
use tlapix.Storage.Database.{Database, next}
use tlapix.Storage.Certificates.{cert_key}
use tlapix.Storage.Directives.{directive_key}
use tlapix.Storage.Shadows.{shadow_key}
use tlapix.Storage.Records.{prediction_key, inventory_key, refresh_key}
use tlapix.Storage.Integrity.{Refers, directive_cert, IsConsistent, Covers, Covers-Refers}

pub update-Covers :
    (p : CertificateRow → Bool) (f : CertificateRow → CertificateRow) (certs : List CertificateRow)
    → KeepsKey cert_key f
    → Covers certs (update_where p f certs)
update-Covers p f certs keeps fp h = exists-update cert_key fp p f certs keeps ∙ h

pub upsert-Covers :
    (r : CertificateRow) (f : CertificateRow → CertificateRow) (certs : List CertificateRow)
    → KeepsKey cert_key f
    → Covers certs (upsert cert_key r f certs)
unfolding upsert
upsert-Covers r f certs keeps fp h =
    elim (Bool-cases (exists (is_key cert_key (cert_key r)) certs)) [
      | inl there ↦
          rw (upsert, there) (update-Covers (is_key cert_key (cert_key r)) f certs keeps fp h)
      | inr new ↦ rw (upsert, new, exists-append cert_key (is_key cert_key fp) certs r, h)
    ]

module _ {F : Type 0} where
  pub next-IsConsistent : (db : Database F) → IsConsistent db → IsConsistent (next db)
  next-IsConsistent db c = record {
    certificates = c.certificates;
    directives = c.directives;
    shadows = c.shadows;
    predictions = c.predictions;
    inventory = c.inventory;
    refreshes = c.refreshes;
    directives_refer = c.directives_refer;
    shadows_refer = c.shadows_refer;
    predictions_refer = c.predictions_refer;
  }

  pub with_certificates :
      (db : Database F) (certs : List CertificateRow)
      → IsUnique cert_key certs
      → Covers db.certificates certs
      → IsConsistent db
      → IsConsistent (record db { certificates = certs })
  with_certificates db certs u covers c = record {
    certificates = u;
    directives = c.directives;
    shadows = c.shadows;
    predictions = c.predictions;
    inventory = c.inventory;
    refreshes = c.refreshes;
    directives_refer =
        Covers-Refers directive_cert db.certificates certs db.action_directives covers
          c.directives_refer;
    shadows_refer =
        Covers-Refers shadow_key db.certificates certs db.shadow_certificates covers
          c.shadows_refer;
    predictions_refer =
        Covers-Refers prediction_key db.certificates certs db.renewal_predictions covers
          c.predictions_refer;
  }

  pub with_directives :
      (db : Database F) (ds : List ActionDirectiveRow)
      → IsUnique directive_key ds
      → Refers directive_cert db.certificates ds
      → IsConsistent db
      → IsConsistent (record db { action_directives = ds })
  with_directives db ds u refer c = record {
    certificates = c.certificates;
    directives = u;
    shadows = c.shadows;
    predictions = c.predictions;
    inventory = c.inventory;
    refreshes = c.refreshes;
    directives_refer = refer;
    shadows_refer = c.shadows_refer;
    predictions_refer = c.predictions_refer;
  }

  pub with_shadows :
      (db : Database F) (rows : List ShadowCertificateRow)
      → IsUnique shadow_key rows
      → Refers shadow_key db.certificates rows
      → IsConsistent db
      → IsConsistent (record db { shadow_certificates = rows })
  with_shadows db rows u refer c = record {
    certificates = c.certificates;
    directives = c.directives;
    shadows = u;
    predictions = c.predictions;
    inventory = c.inventory;
    refreshes = c.refreshes;
    directives_refer = c.directives_refer;
    shadows_refer = refer;
    predictions_refer = c.predictions_refer;
  }

  pub with_predictions :
      (db : Database F) (rows : List (RenewalPredictionRow F))
      → IsUnique prediction_key rows
      → Refers prediction_key db.certificates rows
      → IsConsistent db
      → IsConsistent (record db { renewal_predictions = rows })
  with_predictions db rows u refer c = record {
    certificates = c.certificates;
    directives = c.directives;
    shadows = c.shadows;
    predictions = u;
    inventory = c.inventory;
    refreshes = c.refreshes;
    directives_refer = c.directives_refer;
    shadows_refer = c.shadows_refer;
    predictions_refer = refer;
  }

  pub with_others :
      (db : Database F) (audit : List AuditLogRow) (inventory : List CertificateInventoryRow)
      (logs : List InventoryRefreshLogRow)
      → IsUnique inventory_key inventory
      → IsUnique refresh_key logs
      → IsConsistent db
      → IsConsistent (record db {
        audit_log = audit;
        certificate_inventory = inventory;
        inventory_refresh_log = logs;
      })
  with_others db audit inventory logs u v c = record {
    certificates = c.certificates;
    directives = c.directives;
    shadows = c.shadows;
    predictions = c.predictions;
    inventory = u;
    refreshes = v;
    directives_refer = c.directives_refer;
    shadows_refer = c.shadows_refer;
    predictions_refer = c.predictions_refer;
  }
