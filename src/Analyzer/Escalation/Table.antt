-- ===== src/Analyzer/Escalation/Table.antt =====
-- What a run of `escalate_stale_shadows` (crates/tlapix-analyzer/src/shadow_escalation.rs) makes of the
-- table of shadow certificates.
use tlapix.Common.{
  ap₂, ℕ, suc, ◌≡◌, inl, inr, refl, ap, sym, subst, true, none, List, [], ◌∷◌, map, Bool-cases, ok,
  Keeps, bind-Keeps, arith,
}
use tlapix.Common.Int.{ℤ}
use tlapix.Common.Text.{Text, text}
use tlapix.Common.Time.{DateTime}
use tlapix.Types.{Fingerprint}
use tlapix.Storage.Rows.{ActionDirectiveRow, ShadowCertificateRow}
use tlapix.Storage.Sql.{select_where, update_where, exists, is_key, upsert, IsUnique}
use tlapix.Storage.Database.{Database, Db, blocking, blocking-Keeps, next, Quiet}
use tlapix.Storage.Directives.{
  insert_action_directive, update_directive_status, list_pending_directives_by_fingerprint,
}
use tlapix.Storage.Shadows.{
  shadow_key, reclassified, upsert_shadow_certificate, list_unresolved_shadow_certificates,
}
use tlapix.Analyzer.Escalation.{
  is_critical, is_due, updated_row, replace_loop, replace_prior_directives, raise_alert,
  escalate_row, escalate_rows, escalate_stale_shadows,
}
use tlapix.Analyzer.Escalation.Raised.{raised, risen-raised}
use tlapix.Analyzer.Escalation.Rows.{
  is_open, risen, stepped, worked_off, AllIn, select-AllIn, stepped-AllIn, worked_off-map,
}

map-same :
    (f g : ShadowCertificateRow → ShadowCertificateRow) (rows : List ShadowCertificateRow)
    → ((s : ShadowCertificateRow) → f s ≡ g s)
    → map f rows ≡ map g rows
map-same f g [] same = refl
map-same f g (s ∷ rows) same = ap₂ (λ x xs. x ∷ xs) (same s) (map-same f g rows same)

module _ {F : Type 0} where
  -- The shadow certificates are as given, and no operation to come fails.
  abbrev pub HasShadows : List ShadowCertificateRow → Database F → Type 0
  HasShadows table db = (db.shadow_certificates ≡ table) × Quiet db

  next-HasShadows :
      (table : List ShadowCertificateRow) (db : Database F)
      → HasShadows table db
      → HasShadows table (next db)
  next-HasShadows table db (same, quiet) = (same, rw quiet refl)

  -- An operation that leaves the shadow certificates alone.
  quiet-HasShadows :
      (table : List ShadowCertificateRow) {A : Type 0} (op : Db F A)
      → Keeps (HasShadows table) op
      → Keeps (HasShadows table) (blocking op)
  quiet-HasShadows table op keeps =
      blocking-Keeps (HasShadows table) (next-HasShadows table) op keeps

  replaced-HasShadows :
      (status_ms : ℕ → ℕ → ℤ) (table : List ShadowCertificateRow) (i k : ℕ)
      (pending : List ActionDirectiveRow)
      → Keeps (HasShadows table) (replace_loop status_ms i k pending)
  unfolding replace_loop update_directive_status
  replaced-HasShadows status_ms table i k [] = λ db h. h
  replaced-HasShadows status_ms table i k (d ∷ pending) =
      bind-Keeps (HasShadows table)
        (update_directive_status (status_ms i k) d.id (text "replaced") none)
        (λ _. replace_loop status_ms i (suc k) pending) (quiet-HasShadows table _ (λ db h. h))
        (λ _. replaced-HasShadows status_ms table i (suc k) pending)

  prior-HasShadows :
      (status_ms : ℕ → ℕ → ℤ) (table : List ShadowCertificateRow) (i : ℕ) (fp : Fingerprint)
      → Keeps (HasShadows table) (replace_prior_directives status_ms i fp)
  unfolding replace_prior_directives list_pending_directives_by_fingerprint
  prior-HasShadows status_ms table i fp =
      bind-Keeps (HasShadows table) (list_pending_directives_by_fingerprint fp)
        (replace_loop status_ms i 0) (quiet-HasShadows table _ (λ db h. h))
        (replaced-HasShadows status_ms table i 0)

  inserted-HasShadows :
      (table : List ShadowCertificateRow) (row : ActionDirectiveRow)
      → Keeps (HasShadows table) (insert_action_directive row)
  unfolding insert_action_directive
  inserted-HasShadows table row = quiet-HasShadows table _ (λ db h. ground arith)

  -- An upsert of a row whose fingerprint is in the table.
  pub upsert_known :
      (table : List ShadowCertificateRow) (row : ShadowCertificateRow) (db : Database F)
      → HasShadows table db
      → exists (is_key shadow_key row.fingerprint) table ≡ true
      → upsert_shadow_certificate row db ≡ (
        ok tt,
        record db {
          shadow_certificates =
              update_where (is_key shadow_key row.fingerprint) (reclassified row) table;
        },
      )
  unfolding upsert_shadow_certificate upsert blocking
  upsert_known table row db (same, quiet) there = rw (quiet, same, there) refl

module _ (uuid_text : ℕ → Text) (uuid correlation : ℕ → ℕ) (status_ms : ℕ → ℕ → ℤ)
    (created : ℕ → DateTime) where
  module _ {F : Type 0} where
    raised-HasShadows :
        (table : List ShadowCertificateRow) (i : ℕ) (s : ShadowCertificateRow) (db : Database F)
        → HasShadows table db
        → HasShadows table (raise_alert uuid_text uuid correlation status_ms created i s db).1
    unfolding raise_alert
    raised-HasShadows table i s db h =
        inserted-HasShadows table _ _ (prior-HasShadows status_ms table i s.fingerprint db h)

    row-HasShadows :
        (now : ℤ) (table : List ShadowCertificateRow) (i : ℕ) (s : ShadowCertificateRow)
        (db : Database F)
        → exists (is_key shadow_key s.fingerprint) table ≡ true
        → HasShadows table db
        → HasShadows
            (stepped now s table)
            (escalate_row uuid_text uuid correlation status_ms created now i s db).1
    unfolding escalate_row updated_row
    row-HasShadows now table i s db there (same, quiet) = elim (Bool-cases (is_due now s)) [
      | inr early ↦ rw early (same, quiet)
      | inl due ↦
          let updated = updated_row now s in
          let table' =
            update_where (is_key shadow_key s.fingerprint) (reclassified updated) table in
          let known = upsert_known table updated db (same, quiet) there in
          let stored = subst (λ r. HasShadows table' r.1) (sym known) (refl, quiet) in
          rw (due, ap (λ r. r.0) known)
            (elim (Bool-cases (is_critical updated.risk_level)) [
              | inl top ↦ rw top (raised-HasShadows table' i updated _ stored)
              | inr below ↦ rw below stored
            ])
    ]

    rows-HasShadows :
        (now : ℤ) (table : List ShadowCertificateRow) (i : ℕ) (rows : List ShadowCertificateRow)
        (db : Database F)
        → AllIn rows table
        → HasShadows table db
        → HasShadows
            (worked_off now rows table)
            (escalate_rows uuid_text uuid correlation status_ms created now i rows db).1
    unfolding escalate_rows
    rows-HasShadows now table i [] db there h = h
    rows-HasShadows now table i (s ∷ rows) db (there, more) h =
        rows-HasShadows now (stepped now s table) (suc i) rows _
          (stepped-AllIn now s rows table more) (row-HasShadows now table i s db there h)

    pub escalated :
        (now : ℤ) (db : Database F)
        → Quiet db
        → IsUnique shadow_key db.shadow_certificates
        → HasShadows
            (map (risen now) db.shadow_certificates)
            (escalate_stale_shadows uuid_text uuid correlation status_ms created now db).1
    unfolding escalate_stale_shadows list_unresolved_shadow_certificates blocking
    escalated now db quiet unique =
        subst
          (λ table.
            HasShadows table
              (escalate_stale_shadows uuid_text uuid correlation status_ms created now db).1)
          (worked_off-map now db.shadow_certificates unique)
          (rw quiet (
            rows-HasShadows now db.shadow_certificates 0
              (select_where is_open db.shadow_certificates) _
              (select-AllIn is_open db.shadow_certificates) (refl, refl)))

    -- Where no operation fails and fingerprints are unique among the shadow certificates, a run raises
    -- every unresolved row by one level that is below the highest level and was last raised, or else
    -- classified, at least 24 hours ago; it counts the escalation and notes the time, and leaves every
    -- other row and every other field; no operation to come fails either.
    pub escalate_stale_shadows-risen :
        (now : ℤ) (db : Database F)
        → Quiet db
        → IsUnique shadow_key db.shadow_certificates
        → HasShadows
            (map (raised now) db.shadow_certificates)
            (escalate_stale_shadows uuid_text uuid correlation status_ms created now db).1
    escalate_stale_shadows-risen now db quiet unique =
        subst
          (λ rows.
            HasShadows rows
              (escalate_stale_shadows uuid_text uuid correlation status_ms created now db).1)
          (map-same (risen now) (raised now) db.shadow_certificates (risen-raised now))
          (escalated now db quiet unique)
