-- ===== src/Storage/Integrity/Keeps.antt =====
-- Each statement of crates/tlapix-common/src/storage.rs and the consistency of the tables.
use tlapix.Common.{
  inl, inr, refl, Bool, not, ◌&&◌, Option, List, [], ◌∷◌, ◌++◌, Bool-cases, Keeps, arith,
}
use tlapix.Common.Int.{ℤ}
use tlapix.Common.Text.{Text}
use tlapix.Types.{Fingerprint, CertificateMetadata}
use tlapix.Storage.Rows.{
  Json, CertificateRow, ActionDirectiveRow, ShadowCertificateRow, RenewalPredictionRow, AuditLogRow,
  CertificateInventoryRow, InventoryRefreshLogRow, certificate_to_row,
}
use tlapix.Storage.Sql.{select_where, delete_where, update_where, exists, is_key, IsUnique, upsert}
use tlapix.Storage.Sql.Laws.{
  KeepsKey, update-IsUnique, delete-IsUnique, append-IsUnique, upsert-IsUnique,
}
use tlapix.Storage.Database.{Database, Db, blocking, blocking-Keeps}
use tlapix.Storage.Certificates.{
  cert_key, referenced, touched, delete_certificates, delete_certificate, touch_certificate,
  upsert_certificate,
}
use tlapix.Storage.Directives.{
  directive_key, with_status, as_failed, insert_action_directive, update_directive_status,
  mark_directive_failed, delete_action_directive,
}
use tlapix.Storage.Shadows.{
  shadow_key, reclassified, upsert_shadow_certificate, delete_shadow_certificate,
}
use tlapix.Storage.Records.{
  prediction_key, inventory_key, refresh_key, predicted, upsert_renewal_prediction,
  delete_renewal_prediction, insert_refresh_log,
}
use tlapix.Storage.Integrity.{
  directive_cert, IsConsistent, append-Refers, delete-Refers, update-Refers, upsert-Refers,
  unreferenced-Refers,
}
use tlapix.Storage.Integrity.Tables.{
  next-IsConsistent, with_certificates, with_directives, with_shadows, with_predictions,
  with_others, update-Covers, upsert-Covers,
}

module _ {F : Type 0} where
  abbrev pub Stays : {A : Type 0} → Db F A → Type 0
  Stays op = Keeps IsConsistent op

  pub blocked-Stays : {A : Type 0} (op : Db F A) → Stays op → Stays (blocking op)
  blocked-Stays op keeps = blocking-Keeps IsConsistent next-IsConsistent op keeps

  pub delete_certificates-Stays :
      (p : CertificateRow → Bool) → Stays (delete_certificates {F = F} p)
  unfolding delete_certificates referenced exists
  delete_certificates-Stays p db c =
      elim (Bool-cases (exists (referenced db) (select_where p db.certificates))) [
        | inl held ↦ rw (delete_certificates, held) c
        | inr free ↦
            rw (delete_certificates, free)
              (record {
                certificates = delete-IsUnique cert_key p db.certificates c.certificates;
                directives = c.directives;
                shadows = c.shadows;
                predictions = c.predictions;
                inventory = c.inventory;
                refreshes = c.refreshes;
                directives_refer =
                    unreferenced-Refers directive_cert db.certificates p (referenced db)
                      db.action_directives free (λ r e. ground arith) c.directives_refer;
                shadows_refer =
                    unreferenced-Refers shadow_key db.certificates p (referenced db)
                      db.shadow_certificates free (λ r e. ground arith) c.shadows_refer;
                predictions_refer =
                    unreferenced-Refers prediction_key db.certificates p (referenced db)
                      db.renewal_predictions free (λ r e. ground arith) c.predictions_refer;
              })
      ]

  pub insert_directive-Stays :
      (row : ActionDirectiveRow) → Stays (insert_action_directive {F = F} row)
  unfolding insert_action_directive
  insert_directive-Stays row = blocked-Stays _ (λ db c.
      elim (Bool-cases (exists (is_key directive_key row.id) db.action_directives)) [
        | inl taken ↦ rw taken c
        | inr new ↦
            elim (Bool-cases (exists (is_key cert_key row.cert_fingerprint) db.certificates)) [
              | inr unknown ↦ rw (new, unknown) c
              | inl there ↦
                  rw (new, there)
                    (with_directives db (db.action_directives ++ row ∷ [])
                      (append-IsUnique directive_key db.action_directives row new c.directives)
                      (append-Refers directive_cert db.certificates db.action_directives row there
                        c.directives_refer)
                      c)
            ]
      ])

  pub upsert_shadow-Stays :
      (row : ShadowCertificateRow) → Stays (upsert_shadow_certificate {F = F} row)
  unfolding upsert_shadow_certificate
  upsert_shadow-Stays row = blocked-Stays _ (λ db c.
      elim (Bool-cases (
        not (exists (is_key shadow_key row.fingerprint) db.shadow_certificates)
        && not (exists (is_key cert_key row.fingerprint) db.certificates))) [
          | inl refused ↦ rw refused c
          | inr allowed ↦ rw allowed (
              with_shadows db (upsert shadow_key row (reclassified row) db.shadow_certificates)
                (upsert-IsUnique shadow_key row (reclassified row) db.shadow_certificates
                  (λ r. refl) c.shadows)
                (upsert-Refers shadow_key db.certificates row (reclassified row)
                  db.shadow_certificates (λ r. refl) allowed c.shadows_refer)
                c)
        ])

  pub upsert_prediction-Stays :
      (row : RenewalPredictionRow F) → Stays (upsert_renewal_prediction row)
  unfolding upsert_renewal_prediction
  upsert_prediction-Stays row = blocked-Stays _ (λ db c.
      elim (Bool-cases (
        not (exists (is_key prediction_key row.cert_fingerprint) db.renewal_predictions)
        && not (exists (is_key cert_key row.cert_fingerprint) db.certificates))) [
          | inl refused ↦ rw refused c
          | inr allowed ↦ rw allowed (
              with_predictions db (upsert prediction_key row (predicted row) db.renewal_predictions)
                (upsert-IsUnique prediction_key row (predicted row) db.renewal_predictions
                  (λ r. refl) c.predictions)
                (upsert-Refers prediction_key db.certificates row (predicted row)
                  db.renewal_predictions (λ r. refl) allowed c.predictions_refer)
                c)
        ])

  pub insert_refresh-Stays : (row : InventoryRefreshLogRow) → Stays (insert_refresh_log {F = F} row)
  unfolding insert_refresh_log
  insert_refresh-Stays row = blocked-Stays _ (λ db c.
      elim (Bool-cases (exists (is_key refresh_key row.id) db.inventory_refresh_log)) [
        | inl taken ↦ rw taken c
        | inr new ↦ rw new (
            with_others db db.audit_log db.certificate_inventory
              (db.inventory_refresh_log ++ row ∷ []) c.inventory
              (append-IsUnique refresh_key db.inventory_refresh_log row new c.refreshes) c)
      ])

  pub upsert_cert-Stays :
      (json : Json) (now : ℤ) (cert : CertificateMetadata)
      → Stays (upsert_certificate {F = F} json now cert)
  unfolding upsert_certificate
  upsert_cert-Stays json now cert = blocked-Stays _ (λ db c.
      let row = certificate_to_row json now cert in
      with_certificates db (upsert cert_key row (touched row.last_seen now) db.certificates)
        (upsert-IsUnique cert_key row (touched row.last_seen now) db.certificates (λ r. refl)
          c.certificates)
        (upsert-Covers row (touched row.last_seen now) db.certificates (λ r. refl)) c)

  pub touch_cert-Stays :
      (now : ℤ) (fp : Fingerprint) (seen : ℤ) → Stays (touch_certificate {F = F} now fp seen)
  unfolding touch_certificate
  touch_cert-Stays now fp seen = blocked-Stays _ (λ db c.
      with_certificates db (update_where (is_key cert_key fp) (touched seen now) db.certificates)
        (update-IsUnique cert_key (is_key cert_key fp) (touched seen now) db.certificates
          (λ r. refl) c.certificates)
        (update-Covers (is_key cert_key fp) (touched seen now) db.certificates (λ r. refl)) c)

  pub delete_cert-Stays : (fp : Fingerprint) → Stays (delete_certificate {F = F} fp)
  unfolding delete_certificate
  delete_cert-Stays fp =
      blocked-Stays _ (λ db c. delete_certificates-Stays (is_key cert_key fp) db c)

  change_directives-IsConsistent :
      (p : ActionDirectiveRow → Bool) (f : ActionDirectiveRow → ActionDirectiveRow)
      (db : Database F)
      → KeepsKey directive_key f
      → KeepsKey directive_cert f
      → IsConsistent db
      → IsConsistent (record db { action_directives = update_where p f db.action_directives })
  change_directives-IsConsistent p f db ids certs c =
      with_directives db (update_where p f db.action_directives)
        (update-IsUnique directive_key p f db.action_directives ids c.directives)
        (update-Refers directive_cert db.certificates p f db.action_directives certs
          c.directives_refer)
        c

  pub update_status-Stays :
      (now : ℤ) (id status : Text) (reason : Option Text)
      → Stays (update_directive_status {F = F} now id status reason)
  unfolding update_directive_status
  update_status-Stays now id status reason = blocked-Stays _ (λ db c.
      change_directives-IsConsistent (is_key directive_key id) (with_status status now reason) db
        (λ r. refl) (λ r. refl) c)

  pub mark_failed-Stays :
      (now : ℤ) (id : Text) (n : ℤ) (reason : Text)
      → Stays (mark_directive_failed {F = F} now id n reason)
  unfolding mark_directive_failed
  mark_failed-Stays now id n reason = blocked-Stays _ (λ db c.
      change_directives-IsConsistent (is_key directive_key id) (as_failed n reason now) db
        (λ r. refl) (λ r. refl) c)

  pub delete_directive-Stays : (id : Text) → Stays (delete_action_directive {F = F} id)
  unfolding delete_action_directive
  delete_directive-Stays id = blocked-Stays _ (λ db c.
      with_directives db (delete_where (is_key directive_key id) db.action_directives)
        (delete-IsUnique directive_key (is_key directive_key id) db.action_directives c.directives)
        (delete-Refers directive_cert db.certificates (is_key directive_key id) db.action_directives
          c.directives_refer)
        c)

  pub delete_shadow-Stays : (fp : Fingerprint) → Stays (delete_shadow_certificate {F = F} fp)
  unfolding delete_shadow_certificate
  delete_shadow-Stays fp = blocked-Stays _ (λ db c.
      with_shadows db (delete_where (is_key shadow_key fp) db.shadow_certificates)
        (delete-IsUnique shadow_key (is_key shadow_key fp) db.shadow_certificates c.shadows)
        (delete-Refers shadow_key db.certificates (is_key shadow_key fp) db.shadow_certificates
          c.shadows_refer)
        c)

  pub delete_prediction-Stays : (fp : Fingerprint) → Stays (delete_renewal_prediction {F = F} fp)
  unfolding delete_renewal_prediction
  delete_prediction-Stays fp = blocked-Stays _ (λ db c.
      with_predictions db (delete_where (is_key prediction_key fp) db.renewal_predictions)
        (delete-IsUnique prediction_key (is_key prediction_key fp) db.renewal_predictions
          c.predictions)
        (delete-Refers prediction_key db.certificates (is_key prediction_key fp)
          db.renewal_predictions c.predictions_refer)
        c)

  pub with_inventory :
      (db : Database F) (inventory : List CertificateInventoryRow)
      → IsUnique inventory_key inventory
      → IsConsistent db
      → IsConsistent (record db { certificate_inventory = inventory })
  with_inventory db inventory u c =
      with_others db db.audit_log inventory db.inventory_refresh_log u c.refreshes c

  pub with_audit :
      (db : Database F) (audit : List AuditLogRow)
      → IsConsistent db
      → IsConsistent (record db { audit_log = audit })
  with_audit db audit c =
      with_others db audit db.certificate_inventory db.inventory_refresh_log c.inventory c.refreshes
        c
