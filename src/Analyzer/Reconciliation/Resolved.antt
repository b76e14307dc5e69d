-- ===== src/Analyzer/Reconciliation/Resolved.antt =====
-- The first phase of crates/tlapix-analyzer/src/reconciliation.rs: the rows of certificates that the
-- inventory has.
use tlapix.Common.{
  ℕ, suc, ◌≡◌, refl, ap, sym, subst, Bool, true, false, not, ◌&&◌, List, [], ◌∷◌, bytes_eq,
  bytes_eq_iff, ltb, length, Bool-cases, inl, inr, map_err, Yields, bind-Yields, map_err-Yields,
  arith,
}
use tlapix.Common.Int.{ℤ}
use tlapix.Types.{Fingerprint}
use tlapix.Storage.Rows.{
  CertificateRow, CertificateInventoryRow, ActionDirectiveRow, ShadowCertificateRow,
}
use tlapix.Storage.Sql.{select_where, is_key}
use tlapix.Storage.Sql.Coverage.{Covered, mended-Covered, harmless-Covered}
use tlapix.Storage.Database.{Database, blocking, Quiet}
use tlapix.Storage.Directives.{list_pending_directives_by_fingerprint, update_directive_status}
use tlapix.Storage.Shadows.{shadow_key, reclassified, upsert_shadow_certificate}
use tlapix.Storage.Records.{inventory_key, inventory_contains}
use tlapix.Analyzer.Escalation.Rows.{AllIn, update-AllIn}
use tlapix.Analyzer.Escalation.Table.{upsert_known}
use tlapix.Analyzer.Reconciliation.{
  ReconciliationResult, storage, resolved_row, cancel_loop, resolve_shadow, resolve_known,
  resolve_loop,
}

-- `inventory_contains` of a table.
abbrev pub in_inventory : List CertificateInventoryRow → Fingerprint → Bool
in_inventory inventory fp = ltb 0 (length (select_where (is_key inventory_key fp) inventory))

-- A row that the inventory should have resolved.
abbrev pub is_outdated : List CertificateInventoryRow → ShadowCertificateRow → Bool
is_outdated inventory s = not s.is_resolved && in_inventory inventory s.fingerprint

abbrev pub same_certificate : ShadowCertificateRow → ShadowCertificateRow → Bool
same_certificate d r = bytes_eq r.fingerprint d.fingerprint

module _ {F : Type 0} (resolved_ms : ℕ → ℤ) (status_ms : ℕ → ℕ → ℤ)
    (inventory : List CertificateInventoryRow) (certs : List CertificateRow) where
  -- No operation to come fails, the inventory and the certificates are as given, the rows still to come
  -- are in the table, and every outdated row is among them.
  abbrev pub Left : List ShadowCertificateRow → Database F → Type 0
  Left ds db =
      Quiet db
      × (db.certificate_inventory ≡ inventory)
      × (db.certificates ≡ certs)
      × AllIn ds db.shadow_certificates
      × Covered (is_outdated inventory) same_certificate ds db.shadow_certificates

  cancel-Yields :
      (ds : List ShadowCertificateRow) (k j : ℕ) (pending : List ActionDirectiveRow)
      (result : ReconciliationResult) (db : Database F)
      → Left ds db
      → Yields (λ r. Left ds) (cancel_loop resolved_ms status_ms k j pending result db)
  unfolding cancel_loop update_directive_status blocking
  cancel-Yields ds k j [] result db h = (result, refl, h)
  cancel-Yields ds k j (d ∷ pending) result db (quiet, inv, same, there, covered) =
      rw quiet (cancel-Yields ds k (suc j) pending _ _ (refl, inv, same, there, covered))

  stored-Yields :
      (s : ShadowCertificateRow) (now : ℤ) (ds : List ShadowCertificateRow) (db : Database F)
      → Left (s ∷ ds) db
      → Yields (λ r. Left ds) (upsert_shadow_certificate (resolved_row now s) db)
  unfolding resolved_row
  stored-Yields s now ds db (quiet, inv, same, (here, there), covered) =
      subst (Yields (λ r. Left ds))
        (sym (upsert_known db.shadow_certificates (resolved_row now s) db (refl, quiet) here))
        (
          tt,
          refl,
          (
            quiet,
            inv,
            same,
            update-AllIn (is_key shadow_key s.fingerprint) (reclassified (resolved_row now s)) ds
                db.shadow_certificates (λ r. refl) there,
            mended-Covered (is_outdated inventory) same_certificate
                (is_key shadow_key s.fingerprint) (reclassified (resolved_row now s)) s ds
                db.shadow_certificates (λ r. refl) (λ r h. h) covered,
          ),
        )

  pending-Yields :
      (ds : List ShadowCertificateRow) (fp : Fingerprint) (db : Database F)
      → Left ds db
      → Yields (λ r. Left ds) (list_pending_directives_by_fingerprint fp db)
  unfolding list_pending_directives_by_fingerprint blocking
  pending-Yields ds fp db (quiet, inv, same, there, covered) =
      rw quiet (_, refl, (refl, inv, same, there, covered))

  shadow-Yields :
      (k : ℕ) (s : ShadowCertificateRow) (ds : List ShadowCertificateRow)
      (result : ReconciliationResult) (db : Database F)
      → Left (s ∷ ds) db
      → Yields (λ r. Left ds) (resolve_shadow resolved_ms status_ms k s result db)
  unfolding resolve_shadow
  shadow-Yields k s ds result db h =
      bind-Yields (λ r. Left ds) (λ r. Left ds)
        (map_err storage (upsert_shadow_certificate (resolved_row (resolved_ms k) s))) _ db
        (map_err-Yields (λ r. Left ds) storage
          (upsert_shadow_certificate (resolved_row (resolved_ms k) s)) db
          (stored-Yields s (resolved_ms k) ds db h))
        (λ u db1 h1.
          bind-Yields (λ r. Left ds) (λ r. Left ds)
            (map_err storage (list_pending_directives_by_fingerprint s.fingerprint)) _ db1
            (map_err-Yields (λ r. Left ds) storage
              (list_pending_directives_by_fingerprint s.fingerprint) db1
              (pending-Yields ds s.fingerprint db1 h1))
            (λ pending db2 h2.
              bind-Yields (λ r. Left ds) (λ r. Left ds)
                (cancel_loop resolved_ms status_ms k 0 pending result) _ db2
                (cancel-Yields ds k 0 pending result db2 h2) (λ cancelled db3 h3. (_, refl, h3))))

  contains-Yields :
      (s : ShadowCertificateRow) (ds : List ShadowCertificateRow) (db : Database F)
      → Left ds db
      → Yields
          (λ b db'. (b ≡ in_inventory inventory s.fingerprint) × Left ds db')
          (inventory_contains s.fingerprint db)
  unfolding inventory_contains blocking
  contains-Yields s ds db (quiet, inv, same, there, covered) =
      rw quiet
        (_, refl, (ap (λ i. in_inventory i s.fingerprint) inv, (refl, inv, same, there, covered)))

  known-Yields :
      (k : ℕ) (s : ShadowCertificateRow) (ds : List ShadowCertificateRow)
      (result : ReconciliationResult) (db : Database F)
      → Left (s ∷ ds) db
      → Yields (λ r. Left ds) (resolve_known resolved_ms status_ms k s result db)
  unfolding resolve_known
  known-Yields k s ds result db h =
      bind-Yields (λ b db'. (b ≡ in_inventory inventory s.fingerprint) × Left (s ∷ ds) db')
        (λ r. Left ds) (map_err storage (inventory_contains s.fingerprint)) _ db
        (map_err-Yields (λ b db'. (b ≡ in_inventory inventory s.fingerprint) × Left (s ∷ ds) db')
          storage (inventory_contains s.fingerprint) db (contains-Yields s (s ∷ ds) db h))
        (λ b db1 (answer, (quiet, inv, same, (here, there), covered)). elim (Bool-cases b) [
          | inl known ↦
              rw known (shadow-Yields k s ds result db1 (quiet, inv, same, (here, there), covered))
          | inr gone ↦ rw gone (
            result,
            refl,
            (
              quiet,
              inv,
              same,
              there,
              harmless-Covered (is_outdated inventory) same_certificate s ds db1.shadow_certificates
                  (λ r alike. still_gone b r answer gone alike) covered,
            ),
          )
        ])
    where
      still_gone :
          (b : Bool) (r : ShadowCertificateRow)
          → b ≡ in_inventory inventory s.fingerprint
          → b ≡ false
          → same_certificate s r ≡ true
          → is_outdated inventory r ≡ false
      still_gone b r answer gone alike = ground (
        arith,
        bytes_eq_iff r.fingerprint s.fingerprint,
        ap (in_inventory inventory) {x = r.fingerprint} {y = s.fingerprint},
      )

  pub loop-Yields :
      (k : ℕ) (ds : List ShadowCertificateRow) (result : ReconciliationResult) (db : Database F)
      → Left ds db
      → Yields (λ r. Left []) (resolve_loop resolved_ms status_ms k ds result db)
  unfolding resolve_loop
  loop-Yields k [] result db h = (result, refl, h)
  loop-Yields k (s ∷ ds) result db h =
      bind-Yields (λ r. Left ds) (λ r. Left []) (resolve_known resolved_ms status_ms k s result) _
        db (known-Yields k s ds result db h) (λ so_far db1 h1. loop-Yields (suc k) ds so_far db1 h1)
