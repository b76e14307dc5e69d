-- ===== src/Storage/Integrity.antt =====
-- What every statement of crates/tlapix-common/src/storage.rs keeps: unique keys, and a certificate for
-- every row that refers to one.
pub mod Tables
pub mod Keeps
pub mod Statements
use tlapix.Common.{
  ℕ, ◌≡◌, ◌⊎◌, inl, inr, refl, ap, sym, ◌∙◌, subst, Bool, true, false, not, ◌&&◌, ◌||◌, Option,
  none, some, List, [], ◌∷◌, ◌++◌, if◌then◌else◌, bytes_eq, bytes_eq_iff, Bool-cases, Option-cases,
  Result, ok, err, arith,
}
use tlapix.Types.{Fingerprint}
use tlapix.Storage.Rows.{
  CertificateRow, ShadowCertificateRow, ActionDirectiveRow, RenewalPredictionRow,
}
use tlapix.Storage.Sql.{select_where, delete_where, update_where, exists, is_key, IsUnique, upsert}
use tlapix.Storage.Sql.Laws.{KeepsKey, exists-append, exists-update}
use tlapix.Storage.Database.{Database, Db, blocking, StorageError, next}
use tlapix.Storage.Certificates.{cert_key, referenced}
use tlapix.Storage.Directives.{directive_key}
use tlapix.Storage.Shadows.{shadow_key}
use tlapix.Storage.Records.{prediction_key, inventory_key, refresh_key}

abbrev pub certified : List CertificateRow → Fingerprint → Bool
certified certs fp = exists (is_key cert_key fp) certs

-- Every row refers to a certificate of the table.
abbrev pub Refers : {R : Type 0} → (R → Fingerprint) → List CertificateRow → List R → Type 0
Refers fp_of certs [] = Unit
Refers fp_of certs (r ∷ rows) = (certified certs (fp_of r) ≡ true) × Refers fp_of certs rows

abbrev pub directive_cert : ActionDirectiveRow → Fingerprint
directive_cert d = d.cert_fingerprint

pub record IsConsistent {F : Type 0} (db : Database F) : Type 0 where
  pub certificates : IsUnique cert_key db.certificates
  pub directives : IsUnique directive_key db.action_directives
  pub shadows : IsUnique shadow_key db.shadow_certificates
  pub predictions : IsUnique prediction_key db.renewal_predictions
  pub inventory : IsUnique inventory_key db.certificate_inventory
  pub refreshes : IsUnique refresh_key db.inventory_refresh_log
  pub directives_refer : Refers directive_cert db.certificates db.action_directives
  pub shadows_refer : Refers shadow_key db.certificates db.shadow_certificates
  pub predictions_refer : Refers prediction_key db.certificates db.renewal_predictions

-- A table of certificates that has all the fingerprints of another.
abbrev pub Covers : List CertificateRow → List CertificateRow → Type 0
Covers certs certs' = (fp : Fingerprint) → certified certs fp ≡ true → certified certs' fp ≡ true

module _ {R : Type 0} (fp_of : R → Fingerprint) where
  pub Covers-Refers :
      (certs certs' : List CertificateRow) (rows : List R)
      → Covers certs certs'
      → Refers fp_of certs rows
      → Refers fp_of certs' rows
  Covers-Refers certs certs' [] c h = tt
  Covers-Refers certs certs' (r ∷ rows) c (there, h) =
      (c (fp_of r) there, Covers-Refers certs certs' rows c h)

  pub append-Refers :
      (certs : List CertificateRow) (rows : List R) (r : R)
      → certified certs (fp_of r) ≡ true
      → Refers fp_of certs rows
      → Refers fp_of certs (rows ++ r ∷ [])
  append-Refers certs [] r there h = (there, tt)
  append-Refers certs (q ∷ rows) r there (old, h) = (old, append-Refers certs rows r there h)

  pub delete-Refers :
      (certs : List CertificateRow) (p : R → Bool) (rows : List R)
      → Refers fp_of certs rows
      → Refers fp_of certs (delete_where p rows)
  unfolding delete_where
  delete-Refers certs p [] h = tt
  delete-Refers certs p (r ∷ rows) (there, h) = elim (Bool-cases (p r)) [
    | inl hit ↦ rw (delete_where, hit) (delete-Refers certs p rows h)
    | inr miss ↦ rw (delete_where, miss) (there, delete-Refers certs p rows h)
  ]

  pub update-Refers :
      (certs : List CertificateRow) (p : R → Bool) (f : R → R) (rows : List R)
      → KeepsKey fp_of f
      → Refers fp_of certs rows
      → Refers fp_of certs (update_where p f rows)
  unfolding update_where
  update-Refers certs p f [] keeps h = tt
  update-Refers certs p f (r ∷ rows) keeps (there, h) = (
    elim (Bool-cases (p r)) [ inl hit ↦ rw (hit, keeps r, there) | inr miss ↦ rw (miss, there) ],
    update-Refers certs p f rows keeps h,
  )

  -- An upsert whose row is new only if its certificate is there.
  pub upsert-Refers :
      (certs : List CertificateRow) (r : R) (f : R → R) (rows : List R)
      → KeepsKey fp_of f
      → (not (exists (is_key fp_of (fp_of r)) rows) && not (certified certs (fp_of r))) ≡ false
      → Refers fp_of certs rows
      → Refers fp_of certs (upsert fp_of r f rows)
  unfolding upsert
  upsert-Refers certs r f rows keeps allowed h =
      elim (Bool-cases (exists (is_key fp_of (fp_of r)) rows)) [
        | inl there ↦
            rw (upsert, there) (update-Refers certs (is_key fp_of (fp_of r)) f rows keeps h)
        | inr new ↦ rw (upsert, new) (append-Refers certs rows r (ground arith) h)
      ]

  kept_or_doomed :
      (p : CertificateRow → Bool) (certs : List CertificateRow) (fp : Fingerprint)
      → certified certs fp ≡ true
      → (certified (delete_where p certs) fp ≡ true) ⊎ (certified (select_where p certs) fp ≡ true)
  unfolding delete_where select_where exists
  kept_or_doomed p [] fp h = inl h
  kept_or_doomed p (c ∷ certs) fp h = elim (Bool-cases (bytes_eq c.fingerprint fp)) [
    | inl here ↦ ground arith
    | inr there ↦ elim (kept_or_doomed p certs fp (ground arith)) [
      | inl kept ↦ inl (ground arith)
      | inr doomed ↦ inr (ground arith)
    ]
  ]

  hit_doomed :
      (q : CertificateRow → Bool) (doomed : List CertificateRow) (fp : Fingerprint)
      → ((c : CertificateRow) → c.fingerprint ≡ fp → q c ≡ true)
      → certified doomed fp ≡ true
      → exists q doomed ≡ true
  unfolding exists
  hit_doomed q [] fp hits h = h
  hit_doomed q (c ∷ doomed) fp hits h = elim (Bool-cases (bytes_eq c.fingerprint fp)) [
    | inl here ↦ rw (hits c ((bytes_eq_iff c.fingerprint fp).0 here))
    | inr there ↦ ground (arith, hit_doomed q doomed fp hits)
  ]

  -- Certificates may go if a test holds of none of them that holds of all that a row refers to.
  pub unreferenced-Refers :
      (certs : List CertificateRow) (p q : CertificateRow → Bool) (rows : List R)
      → exists q (select_where p certs) ≡ false
      → ((c : CertificateRow) → exists (is_key fp_of c.fingerprint) rows ≡ true → q c ≡ true)
      → Refers fp_of certs rows
      → Refers fp_of (delete_where p certs) rows
  unfolding exists
  unreferenced-Refers certs p q [] free hits h = tt
  unreferenced-Refers certs p q (r ∷ rows) free hits (there, h) = (
    elim (kept_or_doomed p certs (fp_of r) there) [
      | inl kept ↦ kept
      | inr doomed ↦ absurd (
          ground (
            arith,
            hit_doomed q (select_where p certs) (fp_of r)
                (λ c same. hits c (ground (arith, bytes_eq_iff (fp_of r) c.fingerprint))) doomed,
          ))
    ],
    unreferenced-Refers certs p q rows free (λ c e. hits c (ground arith)) h,
  )
