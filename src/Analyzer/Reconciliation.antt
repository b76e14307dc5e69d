-- ===== src/Analyzer/Reconciliation.antt =====
-- crates/tlapix-analyzer/src/reconciliation.rs: what a refreshed inventory means for shadow certificates.
-- The readings of the clock are parameters: `k` counts the certificates of a phase and `j` the directives
-- of one of them. Log lines are left out.
pub mod Resolved
pub mod Pass
mod Tests
use tlapix.Common.{
  Option, ℕ, suc, ◌+◌, ◌*◌, ◌%◌, ◌^◌, true, false, none, some, List, [], ◌∷◌, if◌then◌else◌, Exec,
  ◌>>=◌, ◌>>◌, pure, map_err,
}
use tlapix.Common.Int.{ℤ, pos, ltb_ℤ, ◌-ℤ◌}
use tlapix.Common.Text.{text}
use tlapix.Types.{Fingerprint, CertificateMetadata, RiskLevel}
use tlapix.Storage.Rows.{Json, ActionDirectiveRow, ShadowCertificateRow, timestamp_millis}
use tlapix.Storage.Database.{StorageError, Database}
use tlapix.Storage.Certificates.{get_certificate}
use tlapix.Storage.Directives.{list_pending_directives_by_fingerprint, update_directive_status}
use tlapix.Storage.Shadows.{
  upsert_shadow_certificate, get_shadow_certificate, list_unresolved_shadow_certificates,
}
use tlapix.Storage.Records.{inventory_contains}

pub record ReconciliationResult : Type 0 where
  pub shadows_resolved : ℕ
  pub directives_cancelled : ℕ
  pub new_shadows_from_removal : ℕ

pub data ReconciliationError : Type 0 where
  storage : StorageError → ReconciliationError

-- `n += 1` of a u32.
abbrev pub suc_u32 : ℕ → ℕ
suc_u32 n = (n + 1) % 2 ^ 32

unfoldable pub resolved_row : ℤ → ShadowCertificateRow → ShadowCertificateRow
resolved_row now_ms s = record s { is_resolved = true; resolved_at = some now_ms }

-- The row of a certificate that was removed from the inventory.
unfoldable pub removed_row : ℤ → Fingerprint → CertificateMetadata → ShadowCertificateRow
unfolding timestamp_millis
removed_row now_ms fp cert = record {
  fingerprint = fp;
  risk_level = RiskLevel.low;
  first_classified = now_ms;
  last_escalated = none;
  escalation_count = pos 0;
  source_ip = cert.source_ip;
  destination_ip = cert.destination_ip;
  first_seen = timestamp_millis cert.first_seen;
  is_resolved = false;
  resolved_at = none;
}

-- The operations of the storage as steps of the pass.
abbrev pub Pass : Type 0 → Type 0 → Type 0
Pass F A = Exec (Database F) ReconciliationError A

module _ {F : Type 0} (resolved_ms : ℕ → ℤ) (status_ms : ℕ → ℕ → ℤ) where
  unfoldable pub cancel_loop :
      ℕ → ℕ → List ActionDirectiveRow → ReconciliationResult → Pass F ReconciliationResult
  unfolding update_directive_status
  cancel_loop k j [] result = pure result
  cancel_loop k j (d ∷ pending) result = do
    map_err storage (
        update_directive_status (status_ms k j) d.id (text "expired")
          (some (text "Certificate appeared in inventory; shadow resolved")))
    cancel_loop k (suc j) pending
        (record result { directives_cancelled = suc_u32 result.directives_cancelled })

  unfoldable pub resolve_shadow :
      ℕ → ShadowCertificateRow → ReconciliationResult → Pass F ReconciliationResult
  unfolding resolved_row upsert_shadow_certificate list_pending_directives_by_fingerprint
      cancel_loop
  resolve_shadow k s result = do
    map_err storage (upsert_shadow_certificate (resolved_row (resolved_ms k) s))
    pending ← map_err storage (list_pending_directives_by_fingerprint s.fingerprint)
    cancelled ← cancel_loop k 0 pending result
    pure (record cancelled { shadows_resolved = suc_u32 cancelled.shadows_resolved })

  unfoldable pub resolve_known :
      ℕ → ShadowCertificateRow → ReconciliationResult → Pass F ReconciliationResult
  unfolding inventory_contains resolve_shadow
  resolve_known k s result = do
    in_inventory ← map_err storage (inventory_contains s.fingerprint)
    if in_inventory then resolve_shadow k s result else pure result

  unfoldable pub resolve_loop :
      ℕ → List ShadowCertificateRow → ReconciliationResult → Pass F ReconciliationResult
  unfolding resolve_known
  resolve_loop k [] result = pure result
  resolve_loop k (s ∷ shadows) result = do
    so_far ← resolve_known k s result
    resolve_loop (suc k) shadows so_far

module _ {F : Type 0} (json : Json) (removed_ms : ℕ → ℤ) where
  -- A certificate in traffic that the storage has no shadow row of.
  -- Only a certificate without a shadow row gets one.
  unfoldable pub add_shadow :
      ℕ
      → Fingerprint
      → CertificateMetadata
      → ReconciliationResult
      → Option ShadowCertificateRow
      → Pass F ReconciliationResult
  unfolding removed_row upsert_shadow_certificate
  add_shadow k fp cert result (some existing_shadow) = pure result
  add_shadow k fp cert result none = do
    map_err storage (upsert_shadow_certificate (removed_row (removed_ms k) fp cert))
    pure (record result { new_shadows_from_removal = suc_u32 result.new_shadows_from_removal })

  unfoldable pub classify_removed :
      ℕ → Fingerprint → CertificateMetadata → ReconciliationResult → Pass F ReconciliationResult
  unfolding get_shadow_certificate add_shadow
  classify_removed k fp cert result = do
    existing_shadow ← map_err storage (get_shadow_certificate fp)
    add_shadow k fp cert result existing_shadow

  -- Only a certificate that was seen within the day is classified.
  unfoldable pub classify_found :
      ℤ
      → ℕ
      → Fingerprint
      → ReconciliationResult
      → Option CertificateMetadata
      → Pass F ReconciliationResult
  unfolding timestamp_millis classify_removed
  classify_found day_ago_ms k fp result none = pure result
  classify_found day_ago_ms k fp result (some cert) =
      if ltb_ℤ (timestamp_millis cert.last_seen) day_ago_ms
      then pure result
      else classify_removed k fp cert result

  unfoldable pub reclassify_removed :
      ℤ → ℕ → Fingerprint → ReconciliationResult → Pass F ReconciliationResult
  unfolding get_certificate classify_found
  reclassify_removed day_ago_ms k fp result = do
    cert ← map_err storage (get_certificate json fp)
    classify_found day_ago_ms k fp result cert

  unfoldable pub removed_loop :
      ℤ → ℕ → List Fingerprint → ReconciliationResult → Pass F ReconciliationResult
  unfolding reclassify_removed
  removed_loop day_ago_ms k [] result = pure result
  removed_loop day_ago_ms k (fp ∷ removed) result = do
    so_far ← reclassify_removed day_ago_ms k fp result
    removed_loop day_ago_ms (suc k) removed so_far

module _ {F : Type 0} (json : Json) (resolved_ms : ℕ → ℤ) (status_ms : ℕ → ℕ → ℤ) (now_ms : ℤ)
    (removed_ms : ℕ → ℤ) where
  -- `now_ms` is read between the phases.
  unfoldable pub reconcile_inventory : List Fingerprint → Pass F ReconciliationResult
  unfolding list_unresolved_shadow_certificates resolve_loop removed_loop
  reconcile_inventory removed_fingerprints = do
    unresolved ← map_err storage list_unresolved_shadow_certificates
    resolved ←
        resolve_loop resolved_ms status_ms 0 unresolved
          (record { shadows_resolved = 0; directives_cancelled = 0; new_shadows_from_removal = 0 })
    removed_loop json removed_ms (now_ms -ℤ pos (24 * 60 * 60 * 1000)) 0 removed_fingerprints
        resolved
