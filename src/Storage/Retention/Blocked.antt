-- ===== src/Storage/Retention/Blocked.antt =====
-- What `run_retention_cleanup` of crates/tlapix-common/src/storage.rs deletes, and when it deletes nothing.
use mathlib.Core.List.{Memᴰ}
use tlapix.Common.{
  ℕ, ◌+◌, ◌*◌, ◌≡◌, ◌⊎◌, ◌↔◌, inl, inr, refl, Bool, true, false, ◌&&◌, ◌||◌, List, length, Result,
  ok, err, arith, bytes_eq_iff, Bool-cases,
}
use tlapix.Common.Int.{ℤ, pos, ◌+ℤ◌, ◌<ℤ◌, +ℤ_parts, -ℤ_parts}
use tlapix.Types.{Fingerprint}
use tlapix.Storage.Rows.{
  CertificateRow, ActionDirectiveRow, ShadowCertificateRow, RenewalPredictionRow, AuditLogRow,
}
use tlapix.Storage.Sql.{select_where, delete_where, exists, is_key}
use tlapix.Storage.Sql.Laws.{member_exists}
use tlapix.Storage.Database.{foreign_key, StorageError, sqlite, Database, blocking, Quiet}
use tlapix.Storage.Certificates.{referenced, delete_certificates}
use tlapix.Storage.Retention.{
  cutoff_ms, unseen_since, logged_before, cleanup_old_certificates, cleanup_old_audit_logs,
  run_retention_cleanup,
}
use tlapix.Storage.Sql.Members.{exists-select, length-select, exists_member, member-delete}

key_member :
    {R : Type 0} (key : R → Fingerprint) (rows : List R) (fp : Fingerprint)
    → (exists (is_key key fp) rows ≡ true) ↔ ((r : R) × Memᴰ r rows × (key r ≡ fp))
key_member key rows fp = (
  λ h.
      let (r, there, same) = exists_member (is_key key fp) rows h in
      (r, there, (bytes_eq_iff (key r) fp).0 same),
  λ (r, there, same). member_exists (is_key key fp) rows there ((bytes_eq_iff (key r) fp).1 same),
)

or_iff :
    {A B C : Type 0} (a b c : Bool)
    → ((a ≡ true) ↔ A)
    → ((b ≡ true) ↔ B)
    → ((c ≡ true) ↔ C)
    → ((a || b || c) ≡ true) ↔ (A ⊎ B ⊎ C)
or_iff a b c means_a means_b means_c = ground arith

abbrev ninety_days_ms : ℤ
ninety_days_ms = pos (90 * 24 * 60 * 60 * 1000)

-- Not seen, or logged, in the ninety days before an instant.
abbrev pub LongUnseen : ℤ → CertificateRow → Type 0
LongUnseen now r = r.last_seen +ℤ ninety_days_ms <ℤ now

abbrev pub LongLogged : ℤ → AuditLogRow → Type 0
LongLogged now l = l.created_at +ℤ ninety_days_ms <ℤ now

unseen_iff :
    (now : ℤ) (r : CertificateRow) → (unseen_since (cutoff_ms now 90) r ≡ true) ↔ LongUnseen now r
unseen_iff now r =
    ground (arith, +ℤ_parts r.last_seen (pos 7776000000), -ℤ_parts now (pos 7776000000))

logged_iff :
    (now : ℤ) (l : AuditLogRow) → (logged_before (cutoff_ms now 90) l ≡ true) ↔ LongLogged now l
logged_iff now l =
    ground (arith, +ℤ_parts l.created_at (pos 7776000000), -ℤ_parts now (pos 7776000000))

-- What is left of a table after a cleanup that counts what it deleted: the rows that are not old.
abbrev pub IsSwept : {R : Type 0} → (R → Type 0) → ℕ → List R → List R → Type 0
IsSwept {R} Old n rows rows' =
    ((r : R) → Memᴰ r rows' ↔ (Memᴰ r rows × ¬ (Old r))) × (n + length rows' ≡ length rows)

swept :
    {R : Type 0} (Old : R → Type 0) (old : R → Bool) (rows : List R)
    → ((r : R) → (old r ≡ true) ↔ Old r)
    → IsSwept Old (length (select_where old rows)) rows (delete_where old rows)
swept {R} Old old rows means = (
  λ r.
      let (to, back) = member-delete old rows r in
      (
        λ there. ((to there).0, λ is_old. absurd (true_false r ((means r).1 is_old) (to there).1)),
        λ (there, fresh). back (
          there,
          elim (Bool-cases (old r)) [
            | inl is_old ↦ absurd (fresh ((means r).0 is_old))
            | inr not_old ↦ not_old
          ],
        ),
      ),
  length-select old rows,
)
  where
    true_false : (r : R) → old r ≡ true → old r ≡ false → ⊥
    true_false r a b = ground arith

module _ {F : Type 0} where
  -- A directive, a shadow certificate or a prediction has the fingerprint.
  abbrev pub RefersTo : Database F → Fingerprint → Type 0
  RefersTo db fp =
      ((d : ActionDirectiveRow) × Memᴰ d db.action_directives × (d.cert_fingerprint ≡ fp))
      ⊎ ((s : ShadowCertificateRow) × Memᴰ s db.shadow_certificates × (s.fingerprint ≡ fp))
      ⊎ ((p : RenewalPredictionRow F) × Memᴰ p db.renewal_predictions × (p.cert_fingerprint ≡ fp))

  -- A row that refers to it keeps an old certificate in its table.
  abbrev pub IsHeld : ℤ → Database F → Type 0
  IsHeld now db =
      (r : CertificateRow) × Memᴰ r db.certificates × LongUnseen now r × RefersTo db r.fingerprint

  abbrev pub RunSwept : ℤ → ℤ → Database F → Result StorageError (ℕ × ℕ) × Database F → Type 0
  RunSwept now later db (err e, db') = ⊥
  RunSwept now later db (ok (certs, logs), db') =
      IsSwept (LongUnseen now) certs db.certificates db'.certificates
      × IsSwept (LongLogged later) logs db.audit_log db'.audit_log
      × (db' ≡ record db { certificates = db'.certificates; audit_log = db'.audit_log })

  abbrev is_blocked : ℤ → Database F → Bool
  is_blocked now db =
      exists (λ r. unseen_since (cutoff_ms now 90) r && referenced db r) db.certificates

  referenced_iff :
      (db : Database F) (r : CertificateRow) → (referenced db r ≡ true) ↔ RefersTo db r.fingerprint
  unfolding referenced
  referenced_iff db r =
      or_iff _ _ _ (key_member (λ x. x.cert_fingerprint) db.action_directives r.fingerprint)
        (key_member (λ x. x.fingerprint) db.shadow_certificates r.fingerprint)
        (key_member (λ x. x.cert_fingerprint) db.renewal_predictions r.fingerprint)

  blocked_iff : (now : ℤ) (db : Database F) → (is_blocked now db ≡ true) ↔ IsHeld now db
  blocked_iff now db = (
    λ h.
        let (r, there, both) =
          exists_member (λ r. unseen_since (cutoff_ms now 90) r && referenced db r) db.certificates
            h in
        (r, there, (unseen_iff now r).0 (ground arith), (referenced_iff db r).0 (ground arith)),
    λ (r, there, old, refers).
        member_exists (λ r. unseen_since (cutoff_ms now 90) r && referenced db r) db.certificates
          there (rw ((unseen_iff now r).1 old, (referenced_iff db r).1 refers) refl),
  )

  -- Where no operation fails by itself and a directive, a shadow certificate or a prediction has the
  -- fingerprint of a certificate that was not seen for ninety days, the whole run fails and changes
  -- nothing, the audit log included.
  pub run_retention_cleanup-blocked :
      (now later : ℤ) (db : Database F)
      → Quiet db
      → IsHeld now db
      → run_retention_cleanup now later db ≡ (err (sqlite foreign_key), db)
  unfolding run_retention_cleanup cleanup_old_certificates delete_certificates blocking
  run_retention_cleanup-blocked now later db quiet blocked =
      rw
        (
          quiet,
          exists-select (unseen_since (cutoff_ms now 90)) (referenced db) db.certificates,
          (blocked_iff now db).1 blocked,
        )
        refl

  -- Where no operation fails by itself and nothing has the fingerprint of a certificate that was not seen
  -- for ninety days, the run deletes these certificates and the entries that the audit log has had for
  -- ninety days, no others, changes nothing else, and returns how many of each.
  pub run_retention_cleanup-swept :
      (now later : ℤ) (db : Database F)
      → Quiet db
      → ¬ IsHeld now db
      → RunSwept now later db (run_retention_cleanup now later db)
  unfolding run_retention_cleanup cleanup_old_certificates cleanup_old_audit_logs
      delete_certificates blocking
  run_retention_cleanup-swept now later db quiet free =
      rw
        (
          quiet,
          exists-select (unseen_since (cutoff_ms now 90)) (referenced db) db.certificates,
          not_blocked,
        )
        (
          swept (LongUnseen now) (unseen_since (cutoff_ms now 90)) db.certificates (unseen_iff now),
          swept (LongLogged later) (logged_before (cutoff_ms later 90)) db.audit_log
              (logged_iff later),
          refl,
        )
    where
      not_blocked : is_blocked now db ≡ false
      not_blocked = elim (Bool-cases (is_blocked now db)) [
        | inl is ↦ absurd (free ((blocked_iff now db).0 is))
        | inr is_free ↦ is_free
      ]
