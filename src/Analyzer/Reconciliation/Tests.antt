-- ===== src/Analyzer/Reconciliation/Tests.antt =====
-- A pass, and its theorem at it.
use tlapix.Common.{ℕ, ◌≡◌, refl, true, false, [], ◌∷◌, map, Result, ok, Yields, replicate}
use tlapix.Common.Int.{pos}
use tlapix.Common.Text.{text}
use tlapix.Types.{RiskLevel}
use tlapix.Storage.Sql.{exists}
use tlapix.Storage.Database.{Database}
use tlapix.Storage.Directives.{list_pending_directives_by_fingerprint}
use tlapix.Storage.Shadows.{get_shadow_certificate, list_unresolved_shadow_certificates}
use tlapix.Storage.Records.{inventory_contains}
use tlapix.Storage.Tests.{programs, json, directive, shadow_row, two_certificates}
use tlapix.Analyzer.Reconciliation.{
  ReconciliationResult, ReconciliationError, resolved_row, removed_row, cancel_loop, resolve_shadow,
  resolve_known, resolve_loop, add_shadow, classify_removed, classify_found, reclassify_removed,
  removed_loop, reconcile_inventory,
}
use tlapix.Analyzer.Reconciliation.Resolved.{is_outdated}
use tlapix.Analyzer.Reconciliation.Pass.{NoneIn, reconcile_inventory-none_outdated}

-- The first certificate has come into the inventory, the second has left it.
abbrev refreshed : Database ℕ
refreshed = record two_certificates {
  shadow_certificates = shadow_row 1 RiskLevel.high ∷ [];
  action_directives = directive "d" 1 ∷ [];
  certificate_inventory =
      record {
        fingerprint = replicate 32 1;
        subject = text "CN=shop.example.com";
        source = text "file";
        imported_at = pos 9;
        last_refresh_id = text "r";
      }
      ∷ [];
}

abbrev passed : Result ReconciliationError ReconciliationResult × Database ℕ
passed =
    reconcile_inventory json (λ k. pos 20) (λ k j. pos 20) (pos 20) (λ k. pos 20)
      (replicate 32 2 ∷ []) refreshed

counts_run :
    passed.0
    ≡ ok (record { shadows_resolved = 1; directives_cancelled = 1; new_shadows_from_removal = 1 })
unfolding programs resolved_row removed_row cancel_loop resolve_shadow resolve_known resolve_loop
    add_shadow classify_removed classify_found reclassify_removed removed_loop reconcile_inventory
    list_pending_directives_by_fingerprint get_shadow_certificate
    list_unresolved_shadow_certificates inventory_contains
counts_run = refl

resolved_run : map (λ s. s.is_resolved) passed.1.shadow_certificates ≡ true ∷ false ∷ []
unfolding programs resolved_row removed_row cancel_loop resolve_shadow resolve_known resolve_loop
    add_shadow classify_removed classify_found reclassify_removed removed_loop reconcile_inventory
    list_pending_directives_by_fingerprint get_shadow_certificate
    list_unresolved_shadow_certificates inventory_contains
resolved_run = refl

removed_is_gone : NoneIn refreshed.certificate_inventory (replicate 32 2 ∷ [])
unfolding programs
removed_is_gone = (refl, tt)

reconcile_inventory-none_outdated_example :
    Yields
      (λ (result : ReconciliationResult) (db : Database ℕ).
        (db.certificate_inventory ≡ refreshed.certificate_inventory)
        × (exists (is_outdated refreshed.certificate_inventory) db.shadow_certificates ≡ false))
      passed
reconcile_inventory-none_outdated_example =
    reconcile_inventory-none_outdated json (λ k. pos 20) (λ k j. pos 20) (pos 20) (λ k. pos 20)
      (replicate 32 2 ∷ []) refreshed refl removed_is_gone
