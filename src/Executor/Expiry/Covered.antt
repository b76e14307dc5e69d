-- ===== src/Executor/Expiry/Covered.antt =====
-- Which overdue directives a sweep of crates/tlapix-executor/src/expiry.rs still has before it.
use tlapix.Common.{
  ◌≡◌, refl, ap, Bool, true, false, ◌&&◌, ◌||◌, none, List, [], ◌∷◌, ◌++◌, bytes_eq, bytes_eq_iff,
  bytes_eq_refl, arith,
}
use tlapix.Common.Int.{ℤ}
use tlapix.Common.Text.{text}
use tlapix.Common.Time.{DateTime}
use tlapix.Types.{Fingerprint}
use tlapix.Storage.Rows.{Json, CertificateRow, ActionDirectiveRow}
use tlapix.Storage.Sql.{select_where, update_where, exists, is_key, find}
use tlapix.Storage.Sql.Coverage
use tlapix.Storage.Sql.Coverage.{mended-Covered, harmless-Covered, grown-Covered}
use tlapix.Storage.Certificates.{cert_key, read_row}
use tlapix.Storage.Directives.{directive_key, has_status, with_status}
use tlapix.Executor.Expiry.{should_expire}

module _ (json : Json) (cutoff : DateTime) (certs : List CertificateRow) where
  abbrev pub is_stale : Fingerprint → Bool
  is_stale fp = should_expire cutoff (read_row json (find cert_key fp certs))

  -- In force, that is active or pending, for a certificate that is gone or was not seen since the cutoff.
  abbrev pub is_overdue : ActionDirectiveRow → Bool
  is_overdue d =
      (has_status (text "active") d || has_status (text "pending") d) && is_stale d.cert_fingerprint

  -- The same identifier and the same certificate.
  abbrev same_directive : ActionDirectiveRow → ActionDirectiveRow → Bool
  same_directive d r = bytes_eq d.id r.id && bytes_eq d.cert_fingerprint r.cert_fingerprint

  abbrev to_come : List ActionDirectiveRow → ActionDirectiveRow → Bool
  to_come ds r = exists (λ d. same_directive d r) ds

  -- Every overdue row of the table is among the directives that are still to come.
  abbrev pub Covered : List ActionDirectiveRow → List ActionDirectiveRow → Type 0
  Covered ds table = Coverage.Covered is_overdue same_directive ds table

  pub marked-Covered :
      (now : ℤ) (d : ActionDirectiveRow) (ds table : List ActionDirectiveRow)
      → Covered (d ∷ ds) table
      → Covered ds
          (update_where (is_key directive_key d.id) (with_status (text "expired") now none) table)
  unfolding bytes_eq
  marked-Covered now d ds table =
      mended-Covered is_overdue same_directive (is_key directive_key d.id)
        (with_status (text "expired") now none) d ds table (λ r. refl)
        (λ r same. ground (arith, bytes_eq_iff d.id r.id, bytes_eq_iff r.id d.id))

  pub fresh-Covered :
      (d : ActionDirectiveRow) (ds table : List ActionDirectiveRow)
      → is_stale d.cert_fingerprint ≡ false
      → Covered (d ∷ ds) table
      → Covered ds table
  fresh-Covered d ds table fresh = harmless-Covered is_overdue same_directive d ds table (λ r same.
      ground (
        arith,
        bytes_eq_iff d.cert_fingerprint r.cert_fingerprint,
        ap is_stale {x = d.cert_fingerprint} {y = r.cert_fingerprint},
      ))

  exists-append :
      (p : ActionDirectiveRow → Bool) (xs ys : List ActionDirectiveRow)
      → exists p (xs ++ ys) ≡ (exists p xs || exists p ys)
  unfolding exists
  exists-append p [] ys = refl
  exists-append p (x ∷ xs) ys = ground (arith, exists-append p xs ys)

  abbrev pub in_force : List ActionDirectiveRow → List ActionDirectiveRow
  in_force table =
      select_where (has_status (text "active")) table
      ++ select_where (has_status (text "pending")) table

  to_come-in_force :
      (table : List ActionDirectiveRow) (r : ActionDirectiveRow)
      → to_come (in_force table) r ≡ (
          to_come (select_where (has_status (text "active")) table) r
          || to_come (select_where (has_status (text "pending")) table) r)
  to_come-in_force table r =
      exists-append (λ d. bytes_eq d.id r.id && bytes_eq d.cert_fingerprint r.cert_fingerprint)
        (select_where (has_status (text "active")) table)
        (select_where (has_status (text "pending")) table)

  to_come-select :
      (p : ActionDirectiveRow → Bool) (q : ActionDirectiveRow) (table : List ActionDirectiveRow)
      (r : ActionDirectiveRow)
      → to_come (select_where p (q ∷ table)) r ≡ (
          (p q && (bytes_eq q.id r.id && bytes_eq q.cert_fingerprint r.cert_fingerprint))
          || to_come (select_where p table) r)
  unfolding select_where exists
  to_come-select p q table r = ground arith

  in_force-grows :
      (q : ActionDirectiveRow) (table : List ActionDirectiveRow) (r : ActionDirectiveRow)
      → to_come (in_force table) r ≡ true
      → to_come (in_force (q ∷ table)) r ≡ true
  in_force-grows q table r h = ground (
    arith,
    to_come-in_force table r,
    to_come-in_force (q ∷ table) r,
    to_come-select (has_status (text "active")) q table r,
    to_come-select (has_status (text "pending")) q table r,
  )

  first_to_come :
      (r : ActionDirectiveRow) (table : List ActionDirectiveRow)
      → is_overdue r ≡ true
      → to_come (in_force (r ∷ table)) r ≡ true
  first_to_come r table h = ground (
    arith,
    to_come-in_force (r ∷ table) r,
    to_come-select (has_status (text "active")) r table r,
    to_come-select (has_status (text "pending")) r table r,
    bytes_eq_refl r.id,
    bytes_eq_refl r.cert_fingerprint,
  )

  pub in_force-Covered : (table : List ActionDirectiveRow) → Covered (in_force table) table
  unfolding exists
  in_force-Covered [] = refl
  in_force-Covered (r ∷ table) = ground (
    arith,
    first_to_come r table,
    grown-Covered is_overdue same_directive (in_force table) (in_force (r ∷ table)) table
        (in_force-grows r table) (in_force-Covered table),
  )

  pub Covered-over :
      (table : List ActionDirectiveRow) → Covered [] table → exists is_overdue table ≡ false
  Covered-over table = Coverage.Covered-over is_overdue same_directive table
