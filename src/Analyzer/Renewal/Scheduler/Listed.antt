-- ===== src/Analyzer/Renewal/Scheduler/Listed.antt =====
-- The certificates that the cycle of crates/tlapix-analyzer/src/renewal_scheduler.rs reads from the storage.
use mathlib.Core.List.{Memᴰ}
use tlapix.Storage.Sql.Laws.{unique_find}
use tlapix.Storage.Sql.{IsUnique}
use tlapix.Common.{
  ◌≡◌, inl, inr, refl, ap, sym, ◌∙◌, subst, Bool, true, false, not, none, some, List, [], ◌∷◌, map,
  if◌then◌else◌, Bool-cases, length, ◌==◌,
}
use tlapix.Common.Int.{ℤ, pos, ltb_ℤ, ◌+ℤ◌}
use tlapix.Types.{Fingerprint, CertificateMetadata}
use tlapix.Storage.Rows.{Json, CertificateRow, row_to_certificate_metadata}
use tlapix.Storage.Sql.{select_where, is_key, find}
use tlapix.Storage.Sql.Laws.{exists_find, find_exists}
use tlapix.Storage.Certificates.{cert_key, days_ms}

abbrev pub Every : {A : Type 0} → (A → Type 0) → List A → Type 0
Every P [] = Unit
Every P (x ∷ xs) = P x × Every P xs

-- The query lists the row.
abbrev pub is_due : ℤ → CertificateRow → Bool
is_due query_ms r = not (ltb_ℤ (query_ms +ℤ days_ms (pos 30)) r.not_after)

not_found : {A : Type 0} {a : A} → none ≡ some a → ⊥
not_found e = cc

pub some_injective : {A : Type 0} {a b : A} → some a ≡ some b → a ≡ b
some_injective {a = a} e = ap (λ o. elim o [ none ↦ a | some x ↦ x ]) e

pub every_found :
    (P : CertificateRow → Type 0) (fp : Fingerprint) (rows : List CertificateRow)
    {row : CertificateRow}
    → find cert_key fp rows ≡ some row
    → Every P rows
    → P row
unfolding find
every_found P fp [] found all = absurd (not_found found)
every_found P fp (r ∷ rows) {row} found (p, all) = elim (Bool-cases (is_key cert_key fp r)) [
  | inl here ↦
      subst P
        (some_injective
          (subst (λ b. (if b then some r else find cert_key fp rows) ≡ some row) here found))
        p
  | inr there ↦
      every_found P fp rows
        (subst (λ b. (if b then some r else find cert_key fp rows) ≡ some row) there found) all
]

pub found_key :
    (fp : Fingerprint) (rows : List CertificateRow) {row : CertificateRow}
    → find cert_key fp rows ≡ some row
    → row.fingerprint ≡ fp
found_key fp rows {row} found =
    let (q, again, same) = exists_find cert_key fp rows (find_exists cert_key fp rows found) in
    subst (λ (r : CertificateRow). r.fingerprint ≡ fp) (some_injective (sym again ∙ found)) same

module _ (json : Json) (certs : List CertificateRow) where
  pub at_found :
      (P : CertificateMetadata → Type 0) (p : CertificateRow → Bool) (fp : Fingerprint)
      (rows : List CertificateRow) {row : CertificateRow}
      → find cert_key fp rows ≡ some row
      → p row ≡ true
      → Every P (map (row_to_certificate_metadata json) (select_where p rows))
      → P (row_to_certificate_metadata json row)
  unfolding select_where find
  at_found P p fp [] found due all = absurd (not_found found)
  at_found P p fp (r ∷ rows) {row} found due all = elim (Bool-cases (is_key cert_key fp r)) [
    | inl here ↦
        let row_is =
          some_injective
            (subst (λ b. (if b then some r else find cert_key fp rows) ≡ some row) here found) in
        subst (λ q. P (row_to_certificate_metadata json q)) row_is
          (chosen r rows (ap p row_is ∙ due) all).0
    | inr there ↦
        at_found P p fp rows
          (subst (λ b. (if b then some r else find cert_key fp rows) ≡ some row) there found) due
          (elim (Bool-cases (p r)) [
            | inl taken ↦ (chosen r rows taken all).1
            | inr left ↦ passed r rows left all
          ])
  ]
    where
      chosen :
          (r : CertificateRow) (rows : List CertificateRow)
          → p r ≡ true
          → Every P (map (row_to_certificate_metadata json) (select_where p (r ∷ rows)))
          → P (row_to_certificate_metadata json r)
            × Every P (map (row_to_certificate_metadata json) (select_where p rows))
      chosen r rows h all =
          subst
            (λ b. Every P (
              map (row_to_certificate_metadata json)
                (if b then r ∷ select_where p rows else select_where p rows)))
            h all

      passed :
          (r : CertificateRow) (rows : List CertificateRow)
          → p r ≡ false
          → Every P (map (row_to_certificate_metadata json) (select_where p (r ∷ rows)))
          → Every P (map (row_to_certificate_metadata json) (select_where p rows))
      passed r rows h all =
          subst
            (λ b. Every P (
              map (row_to_certificate_metadata json)
                (if b then r ∷ select_where p rows else select_where p rows)))
            h all

  -- The certificate is read from the row that is stored under its fingerprint.
  abbrev pub Known : CertificateMetadata → Type 0
  Known cert =
      (row : CertificateRow) × (find cert_key cert.fingerprint certs ≡ some row)
      × (row_to_certificate_metadata json row ≡ cert)

  pub listed-Known :
      (p : CertificateRow → Bool) (rows : List CertificateRow)
      → IsUnique cert_key certs
      → Every (λ (r : CertificateRow). (length r.fingerprint == 32) ≡ true) rows
      → ((r : CertificateRow) → Memᴰ r rows → Memᴰ r certs)
      → Every Known (map (row_to_certificate_metadata json) (select_where p rows))
  unfolding select_where row_to_certificate_metadata
  listed-Known p [] unique digests among = tt
  listed-Known p (r ∷ rows) unique (digest, digests) among =
      let rest = listed-Known p rows unique digests (λ q there. among q (Memᴰ.tail there)) in
      elim (Bool-cases (p r)) [
        | inl taken ↦ rw taken (
          (r, rw digest (unique_find cert_key certs unique (among r (Memᴰ.head refl))), refl),
          rest,
        )
        | inr left ↦ rw left rest
      ]
