-- ===== src/Analyzer/Escalation/Rows.antt =====
-- What working off rows one by one makes of a table of shadow certificates
-- (crates/tlapix-analyzer/src/shadow_escalation.rs).
use tlapix.Common.{
  ◌≡◌, inl, inr, refl, ap, ap₂, ◌∙◌, Bool, true, false, not, ◌&&◌, List, [], ◌∷◌, map,
  if◌then◌else◌, bytes_eq, bytes_eq_iff, bytes_eq_refl, Bool-cases, arith,
}
use tlapix.Common.Int.{ℤ}
use tlapix.Types.{Fingerprint}
use tlapix.Storage.Rows.{ShadowCertificateRow}
use tlapix.Storage.Sql.{select_where, update_where, exists, is_key, IsUnique}
use tlapix.Storage.Sql.Laws.{KeepsKey, exists-update}
use tlapix.Storage.Shadows.{shadow_key, reclassified}
use tlapix.Analyzer.Escalation.{is_due, updated_row}

abbrev pub is_open : ShadowCertificateRow → Bool
is_open s = not s.is_resolved

-- What becomes of one row.
abbrev pub risen : ℤ → ShadowCertificateRow → ShadowCertificateRow
risen now s = if is_open s && is_due now s then updated_row now s else s

-- One row is worked off.
abbrev pub stepped :
    ℤ → ShadowCertificateRow → List ShadowCertificateRow → List ShadowCertificateRow
stepped now s table =
    if is_due now s
    then update_where (is_key shadow_key s.fingerprint) (reclassified (updated_row now s)) table
    else table

-- The rows are worked off one after the other.
abbrev pub worked_off :
    ℤ → List ShadowCertificateRow → List ShadowCertificateRow → List ShadowCertificateRow
worked_off now [] table = table
worked_off now (s ∷ rows) table = worked_off now rows (stepped now s table)

-- Each of the rows has its fingerprint in the table.
abbrev pub AllIn : List ShadowCertificateRow → List ShadowCertificateRow → Type 0
AllIn [] table = Unit
AllIn (s ∷ rows) table = (exists (is_key shadow_key s.fingerprint) table ≡ true) × AllIn rows table

pub update-AllIn :
    (p : ShadowCertificateRow → Bool) (f : ShadowCertificateRow → ShadowCertificateRow)
    (rows table : List ShadowCertificateRow)
    → KeepsKey shadow_key f
    → AllIn rows table
    → AllIn rows (update_where p f table)
update-AllIn p f [] table keeps h = tt
update-AllIn p f (s ∷ rows) table keeps (there, h) = (
  exists-update shadow_key s.fingerprint p f table keeps ∙ there,
  update-AllIn p f rows table keeps h,
)

pub stepped-AllIn :
    (now : ℤ) (s : ShadowCertificateRow) (rows table : List ShadowCertificateRow)
    → AllIn rows table
    → AllIn rows (stepped now s table)
unfolding updated_row
stepped-AllIn now s rows table h = elim (Bool-cases (is_due now s)) [
  | inl due ↦ rw due (
      update-AllIn (is_key shadow_key s.fingerprint) (reclassified (updated_row now s)) rows table
        (λ r. refl) h)
  | inr early ↦ rw early h
]

cons-AllIn :
    (s : ShadowCertificateRow) (rows table : List ShadowCertificateRow)
    → AllIn rows table
    → AllIn rows (s ∷ table)
unfolding exists
cons-AllIn s [] table h = tt
cons-AllIn s (r ∷ rows) table (there, h) = (ground arith, cons-AllIn s rows table h)

pub select-AllIn :
    (p : ShadowCertificateRow → Bool) (table : List ShadowCertificateRow)
    → AllIn (select_where p table) table
unfolding select_where exists
select-AllIn p [] = tt
select-AllIn p (s ∷ table) = elim (Bool-cases (p s)) [
  | inl hit ↦
      rw (select_where, hit)
        (
          ground (arith, bytes_eq_refl s.fingerprint),
          cons-AllIn s (select_where p table) table (select-AllIn p table),
        )
  | inr miss ↦
      rw (select_where, miss) (cons-AllIn s (select_where p table) table (select-AllIn p table))
]

-- A table has none of the fingerprints of the rows.
abbrev NoneIs : Fingerprint → List ShadowCertificateRow → Type 0
NoneIs fp [] = Unit
NoneIs fp (s ∷ rows) = (bytes_eq s.fingerprint fp ≡ false) × NoneIs fp rows

fresh-NoneIs :
    (fp : Fingerprint) (p : ShadowCertificateRow → Bool) (table : List ShadowCertificateRow)
    → exists (is_key shadow_key fp) table ≡ false
    → NoneIs fp (select_where p table)
unfolding exists select_where
fresh-NoneIs fp p [] h = tt
fresh-NoneIs fp p (s ∷ table) h = elim (Bool-cases (p s)) [
  | inl hit ↦ rw (select_where, hit) (ground arith, fresh-NoneIs fp p table (ground arith))
  | inr miss ↦ rw (select_where, miss) (fresh-NoneIs fp p table (ground arith))
]

update_absent :
    (fp : Fingerprint) (f : ShadowCertificateRow → ShadowCertificateRow)
    (table : List ShadowCertificateRow)
    → exists (is_key shadow_key fp) table ≡ false
    → update_where (is_key shadow_key fp) f table ≡ table
unfolding exists update_where
update_absent fp f [] h = refl
update_absent fp f (s ∷ table) h = ground (arith, update_absent fp f table)

-- Rows with other fingerprints leave the first row.
worked_off-cons :
    (now : ℤ) (x : ShadowCertificateRow) (rows table : List ShadowCertificateRow)
    → NoneIs x.fingerprint rows
    → worked_off now rows (x ∷ table) ≡ x ∷ worked_off now rows table
unfolding update_where
worked_off-cons now x [] table h = refl
worked_off-cons now x (s ∷ rows) table (differs, h) = elim (Bool-cases (is_due now s)) [
  | inl due ↦ rw (due, swapped) (worked_off-cons now x rows _ h)
  | inr early ↦ rw early (worked_off-cons now x rows table h)
]
  where
    swapped : bytes_eq x.fingerprint s.fingerprint ≡ false
    swapped =
        ground (
          arith,
          bytes_eq_iff x.fingerprint s.fingerprint,
          bytes_eq_iff s.fingerprint x.fingerprint,
        )

-- The first row of a table, which no other row has the fingerprint of.
update_first :
    (now : ℤ) (s : ShadowCertificateRow) (table : List ShadowCertificateRow)
    → exists (is_key shadow_key s.fingerprint) table ≡ false
    → update_where (is_key shadow_key s.fingerprint) (reclassified (updated_row now s)) (s ∷ table)
      ≡ updated_row now s ∷ table
unfolding update_where updated_row
update_first now s table fresh =
    rw
      (
        bytes_eq_refl s.fingerprint,
        update_absent s.fingerprint (reclassified (updated_row now s)) table fresh,
      )
      refl

pub worked_off-map :
    (now : ℤ) (table : List ShadowCertificateRow)
    → IsUnique shadow_key table
    → worked_off now (select_where is_open table) table ≡ map (risen now) table
unfolding select_where update_where updated_row
worked_off-map now [] u = refl
worked_off-map now (s ∷ table) (fresh, u) = elim (Bool-cases (is_open s)) [
  | inr closed ↦
      rw (select_where, closed)
        (worked_off-cons now s (select_where is_open table) table
            (fresh-NoneIs s.fingerprint is_open table fresh)
          ∙ ap (λ rest. s ∷ rest) (worked_off-map now table u))
  | inl opened ↦
      rw (select_where, opened)
        (elim (Bool-cases (is_due now s)) [
          | inr early ↦
              ap (worked_off now (select_where is_open table)) (rw early refl)
              ∙ worked_off-cons now s (select_where is_open table) table
                  (fresh-NoneIs s.fingerprint is_open table fresh)
              ∙ ap₂ (λ first rest. first ∷ rest) (rw early refl) (worked_off-map now table u)
          | inl due ↦
              ap (worked_off now (select_where is_open table))
                (rw due (update_first now s table fresh))
              ∙ worked_off-cons now (updated_row now s) (select_where is_open table) table
                  (fresh-NoneIs s.fingerprint is_open table fresh)
              ∙ ap₂ (λ first rest. first ∷ rest) (rw due refl) (worked_off-map now table u)
        ])
]
