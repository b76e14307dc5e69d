-- ===== src/Analyzer/Reconciliation/Pass.antt =====
-- After a pass of crates/tlapix-analyzer/src/reconciliation.rs no certificate of the inventory is an
-- unresolved shadow certificate.
use tlapix.Common.{
  ℕ, suc, ◌*◌, ◌≡◌, refl, ap, ◌∙◌, true, false, not, ◌&&◌, Option, none, some, List, [], ◌∷◌,
  bytes_eq_iff, bytes_eq_refl, Bool-cases, inl, inr, map_err, Yields, bind-Yields, map_err-Yields,
  arith,
}
use tlapix.Common.Int.{ℤ, pos, ltb_ℤ, ◌-ℤ◌}
use tlapix.Types.{Fingerprint, CertificateMetadata}
use tlapix.Storage.Rows.{
  Json, CertificateRow, CertificateInventoryRow, ShadowCertificateRow, timestamp_millis,
}
use tlapix.Storage.Sql.{update_where, exists, is_key, find, upsert}
use tlapix.Storage.Sql.Laws.{exists-append, not_exists_find}
use tlapix.Storage.Sql.Coverage.{select-Covered, Covered-over}
use tlapix.Storage.Database.{Database, blocking, Quiet}
use tlapix.Storage.Certificates.{cert_key, read_row, get_certificate}
use tlapix.Storage.Shadows.{
  shadow_key, reclassified, upsert_shadow_certificate, get_shadow_certificate,
  list_unresolved_shadow_certificates,
}
use tlapix.Analyzer.Escalation.Rows.{select-AllIn}
use tlapix.Analyzer.Reconciliation.{
  ReconciliationResult, storage, removed_row, resolve_loop, add_shadow, classify_removed,
  classify_found, reclassify_removed, removed_loop, reconcile_inventory,
}
use tlapix.Analyzer.Reconciliation.Resolved.{
  in_inventory, is_outdated, same_certificate, Left, loop-Yields,
}

-- None of the certificates is in the inventory.
abbrev pub NoneIn : List CertificateInventoryRow → List Fingerprint → Type 0
NoneIn inventory [] = Unit
NoneIn inventory (fp ∷ fps) = (in_inventory inventory fp ≡ false) × NoneIn inventory fps

update-outdated :
    (inventory : List CertificateInventoryRow) (row : ShadowCertificateRow)
    (table : List ShadowCertificateRow)
    → in_inventory inventory row.fingerprint ≡ false
    → exists (is_outdated inventory) table ≡ false
    → exists
        (is_outdated inventory)
        (update_where (is_key shadow_key row.fingerprint) (reclassified row) table)
      ≡ false
unfolding update_where exists
update-outdated inventory row [] gone h = refl
update-outdated inventory row (r ∷ table) gone h =
    ground
      (arith, update-outdated inventory row table gone, bytes_eq_iff r.fingerprint row.fingerprint)

upsert-outdated :
    (inventory : List CertificateInventoryRow) (row : ShadowCertificateRow)
    (table : List ShadowCertificateRow)
    → in_inventory inventory row.fingerprint ≡ false
    → exists (is_outdated inventory) table ≡ false
    → exists (is_outdated inventory) (upsert shadow_key row (reclassified row) table) ≡ false
unfolding upsert
upsert-outdated inventory row table gone h =
    elim (Bool-cases (exists (is_key shadow_key row.fingerprint) table)) [
      | inl there ↦ rw (upsert, there) (update-outdated inventory row table gone h)
      | inr new ↦
          rw (upsert, new)
            (ground (arith, exists-append shadow_key (is_outdated inventory) table row))
    ]

certified_lem :
    (json : Json) (certs : List CertificateRow) (fp : Fingerprint) (cert : CertificateMetadata)
    → some cert ≡ read_row json (find cert_key fp certs)
    → exists (is_key cert_key fp) certs ≡ true
certified_lem json certs fp cert found = elim (Bool-cases (exists (is_key cert_key fp) certs)) [
  | inl there ↦ there
  | inr unknown ↦
      absurd (some_none (found ∙ ap (read_row json) (not_exists_find cert_key fp certs unknown)))
]
  where
    some_none : some cert ≡ none → ⊥
    some_none e = cc

module _ {F : Type 0} (json : Json) (removed_ms : ℕ → ℤ) (inventory : List CertificateInventoryRow)
    (certs : List CertificateRow) where
  -- No operation to come fails, the inventory and the certificates are as given, and no row is outdated.
  abbrev Clean : Database F → Type 0
  Clean db =
      Quiet db
      × (db.certificate_inventory ≡ inventory)
      × (db.certificates ≡ certs)
      × (exists (is_outdated inventory) db.shadow_certificates ≡ false)

  inserted-Yields :
      (row : ShadowCertificateRow) (db : Database F)
      → in_inventory inventory row.fingerprint ≡ false
      → exists (is_key cert_key row.fingerprint) certs ≡ true
      → Clean db
      → Yields (λ r. Clean) (upsert_shadow_certificate row db)
  unfolding upsert_shadow_certificate blocking
  inserted-Yields row db gone certified (quiet, inv, same, none_left) =
      rw (quiet, same, certified, allowed)
        (
          tt,
          refl,
          (refl, inv, refl, upsert-outdated inventory row db.shadow_certificates gone none_left),
        )
    where
      allowed :
          (not (exists (is_key shadow_key row.fingerprint) db.shadow_certificates) && false) ≡ false
      allowed = ground arith

  existing-Yields :
      (fp : Fingerprint) (db : Database F)
      → Clean db
      → Yields (λ r. Clean) (get_shadow_certificate fp db)
  unfolding get_shadow_certificate blocking
  existing-Yields fp db (quiet, inv, same, none_left) =
      rw quiet (_, refl, (refl, inv, same, none_left))

  added-Yields :
      (k : ℕ) (fp : Fingerprint) (cert : CertificateMetadata) (result : ReconciliationResult)
      (existing : Option ShadowCertificateRow) (db : Database F)
      → in_inventory inventory fp ≡ false
      → exists (is_key cert_key fp) certs ≡ true
      → Clean db
      → Yields (λ r. Clean) (add_shadow json removed_ms k fp cert result existing db)
  unfolding add_shadow removed_row
  added-Yields k fp cert result (some row) db gone certified h = (result, refl, h)
  added-Yields k fp cert result none db gone certified h =
      bind-Yields (λ r. Clean) (λ r. Clean)
        (map_err storage (upsert_shadow_certificate (removed_row (removed_ms k) fp cert))) _ db
        (map_err-Yields (λ r. Clean) storage
          (upsert_shadow_certificate (removed_row (removed_ms k) fp cert)) db
          (inserted-Yields (removed_row (removed_ms k) fp cert) db gone certified h))
        (λ u db2 h2. (_, refl, h2))

  classify-Yields :
      (k : ℕ) (fp : Fingerprint) (cert : CertificateMetadata) (result : ReconciliationResult)
      (db : Database F)
      → in_inventory inventory fp ≡ false
      → exists (is_key cert_key fp) certs ≡ true
      → Clean db
      → Yields (λ r. Clean) (classify_removed json removed_ms k fp cert result db)
  unfolding classify_removed
  classify-Yields k fp cert result db gone certified h =
      bind-Yields (λ r. Clean) (λ r. Clean) (map_err storage (get_shadow_certificate fp)) _ db
        (map_err-Yields (λ r. Clean) storage (get_shadow_certificate fp) db
          (existing-Yields fp db h))
        (λ existing db1 h1. added-Yields k fp cert result existing db1 gone certified h1)

  judged-Yields :
      (day_ago : ℤ) (k : ℕ) (fp : Fingerprint) (result : ReconciliationResult)
      (found : Option CertificateMetadata) (db : Database F)
      → in_inventory inventory fp ≡ false
      → found ≡ read_row json (find cert_key fp certs)
      → Clean db
      → Yields (λ r. Clean) (classify_found json removed_ms day_ago k fp result found db)
  unfolding classify_found
  judged-Yields day_ago k fp result none db gone answer h = (result, refl, h)
  judged-Yields day_ago k fp result (some cert) db gone answer h =
      elim (Bool-cases (ltb_ℤ (timestamp_millis cert.last_seen) day_ago)) [
        | inl old ↦ rw old (result, refl, h)
        | inr recent ↦
            rw recent
              (classify-Yields k fp cert result db gone (certified_lem json certs fp cert answer) h)
      ]

  found-Yields :
      (fp : Fingerprint) (db : Database F)
      → Clean db
      → Yields
          (λ found db'. (found ≡ read_row json (find cert_key fp certs)) × Clean db')
          (get_certificate json fp db)
  unfolding get_certificate blocking
  found-Yields fp db (quiet, inv, same, none_left) =
      rw quiet
        (_, refl, (ap (λ c. read_row json (find cert_key fp c)) same, (refl, inv, same, none_left)))

  removed-Yields :
      (day_ago : ℤ) (k : ℕ) (fp : Fingerprint) (result : ReconciliationResult) (db : Database F)
      → in_inventory inventory fp ≡ false
      → Clean db
      → Yields (λ r. Clean) (reclassify_removed json removed_ms day_ago k fp result db)
  unfolding reclassify_removed
  removed-Yields day_ago k fp result db gone h =
      bind-Yields (λ found db'. (found ≡ read_row json (find cert_key fp certs)) × Clean db')
        (λ r. Clean) (map_err storage (get_certificate json fp)) _ db
        (map_err-Yields (λ found db'. (found ≡ read_row json (find cert_key fp certs)) × Clean db')
          storage (get_certificate json fp) db (found-Yields fp db h))
        (λ found db1 (answer, h1). judged-Yields day_ago k fp result found db1 gone answer h1)

  removed_loop-Yields :
      (day_ago : ℤ) (k : ℕ) (fps : List Fingerprint) (result : ReconciliationResult)
      (db : Database F)
      → NoneIn inventory fps
      → Clean db
      → Yields (λ r. Clean) (removed_loop json removed_ms day_ago k fps result db)
  unfolding removed_loop
  removed_loop-Yields day_ago k [] result db gone h = (result, refl, h)
  removed_loop-Yields day_ago k (fp ∷ fps) result db (gone, rest) h =
      bind-Yields (λ r. Clean) (λ r. Clean) (reclassify_removed json removed_ms day_ago k fp result)
        _ db (removed-Yields day_ago k fp result db gone h)
        (λ so_far db1 h1. removed_loop-Yields day_ago (suc k) fps so_far db1 rest h1)

module _ {F : Type 0} (json : Json) (resolved_ms : ℕ → ℤ) (status_ms : ℕ → ℕ → ℤ) (now_ms : ℤ)
    (removed_ms : ℕ → ℤ) where
  unresolved-Yields :
      (db : Database F)
      → Quiet db
      → Yields
          (λ rows. Left resolved_ms status_ms db.certificate_inventory db.certificates rows)
          (list_unresolved_shadow_certificates db)
  unfolding list_unresolved_shadow_certificates blocking
  unresolved-Yields db quiet = rw quiet (
    _,
    refl,
    (
      refl,
      refl,
      refl,
      select-AllIn (λ s. not s.is_resolved) db.shadow_certificates,
      select-Covered (is_outdated db.certificate_inventory) same_certificate
          (λ s. not s.is_resolved) db.shadow_certificates (λ r h. ground arith)
          (λ r. bytes_eq_refl r.fingerprint),
    ),
  )

  -- Where no operation fails and no removed certificate is in the inventory, a pass succeeds, leaves the
  -- inventory as it is, and leaves no unresolved shadow certificate that is in it.
  pub reconcile_inventory-none_outdated :
      (removed : List Fingerprint) (db : Database F)
      → Quiet db
      → NoneIn db.certificate_inventory removed
      → Yields
          (λ (result : ReconciliationResult) (db' : Database F).
            (db'.certificate_inventory ≡ db.certificate_inventory)
            × (exists (is_outdated db.certificate_inventory) db'.shadow_certificates ≡ false))
          (reconcile_inventory json resolved_ms status_ms now_ms removed_ms removed db)
  unfolding reconcile_inventory
  reconcile_inventory-none_outdated removed db quiet gone =
      let inventory = db.certificate_inventory in
      let Done = λ (result : ReconciliationResult) (db' : Database F).
        (db'.certificate_inventory ≡ inventory)
        × (exists (is_outdated inventory) db'.shadow_certificates ≡ false) in
      let LeftAfter = λ (rows : List ShadowCertificateRow).
        Left resolved_ms status_ms inventory db.certificates rows in
      bind-Yields LeftAfter Done (map_err storage list_unresolved_shadow_certificates) _ db
        (map_err-Yields LeftAfter storage list_unresolved_shadow_certificates db
          (unresolved-Yields db quiet))
        (λ rows db1 h1.
          bind-Yields (λ r. LeftAfter []) Done (resolve_loop resolved_ms status_ms 0 rows _) _ db1
            (loop-Yields resolved_ms status_ms inventory db.certificates 0 rows _ db1 h1)
            (λ resolved db2 (calm, inv, same, there, covered).
              let (result, ended, (calm', inv', same', over)) =
                removed_loop-Yields json removed_ms inventory db.certificates
                  (now_ms -ℤ pos (24 * 60 * 60 * 1000)) 0 removed resolved db2 gone
                  (
                    calm,
                    inv,
                    same,
                    Covered-over (is_outdated inventory) same_certificate db2.shadow_certificates
                        covered,
                  ) in
              (result, ended, (inv', over))))
