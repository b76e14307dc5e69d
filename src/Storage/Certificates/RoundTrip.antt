-- ===== src/Storage/Certificates/RoundTrip.antt =====
-- What `get_certificate` gives back of what `upsert_certificate` stored (crates/tlapix-common/src/storage.rs).
use tlapix.Common.{
  ℕ, ◌+◌, ◌-◌, ◌%◌, ◌^◌, ◌<◌, ◌≡◌, inl, inr, refl, ap, sym, subst, err, ◌∙◌, Option, none, some,
  List, if◌then◌else◌, bytes_eq, bytes_eq_refl, Bool-cases, length, ok, arith,
}
use tlapix.Common.Int.{ℤ, pos, negsuc, ◌+ℤ◌}
use tlapix.Common.Text.{Text}
use tlapix.Common.Time.{DateTime, ns_per_ms, as_u32}
use tlapix.Types.{Fingerprint, CertificateMetadata}
use tlapix.Storage.Rows.{
  Json, CertificateRow, and_then, of_blob, timestamp_millis, of_millis, as_i64, as_u64, as_u8,
  certificate_to_row, row_to_certificate_metadata,
}
use tlapix.Storage.Sql.{exists, is_key, find, upsert}
use tlapix.Storage.Sql.Laws.{apply_to, find-upsert, not_exists_find, exists_find}
use tlapix.Storage.Database.{Database, blocking, Quiet}
use tlapix.Storage.Certificates.{cert_key, touched, read_row, upsert_certificate, get_certificate}

-- A fingerprint of the width of SHA-256.
abbrev pub IsDigest : Fingerprint → Type 0
IsDigest fp = length fp ≡ 32

abbrev pub IsDigestOrNone : Option Fingerprint → Type 0
IsDigestOrNone none = Unit
IsDigestOrNone (some fp) = IsDigest fp

-- The fields are within their Rust types: [u8; 32], u8, u64, u32.
pub record IsTyped (cert : CertificateMetadata) : Type 0 where
  pub fingerprint : IsDigest cert.fingerprint
  pub issuer : IsDigestOrNone cert.issuer_fingerprint
  pub depth : cert.chain_depth < 256
  pub count : cert.connection_count < 2 ^ 64
  pub flags : cert.completeness_flags < 2 ^ 32

-- An instant without what is below a millisecond.
abbrev pub whole_ms : DateTime → DateTime
whole_ms (pos n) = pos (n - n % ns_per_ms)
whole_ms (negsuc n) = negsuc (n - n % ns_per_ms + (ns_per_ms - 1))

abbrev pub at_whole_ms : CertificateMetadata → CertificateMetadata
at_whole_ms cert = record cert {
  not_before = whole_ms cert.not_before;
  not_after = whole_ms cert.not_after;
  first_seen = whole_ms cert.first_seen;
  last_seen = whole_ms cert.last_seen;
}

millis_lem : (t : DateTime) → of_millis (timestamp_millis t) ≡ whole_ms t
unfolding of_millis timestamp_millis
millis_lem (pos n) = ap pos (omega arith)
millis_lem (negsuc n) = ap negsuc (omega arith)

as_u64-as_i64 : (n : ℕ) → n < 2 ^ 64 → as_u64 (as_i64 n) ≡ n
unfolding as_u64 as_i64
as_u64-as_i64 n h = ground arith

as_u8-pos : (n : ℕ) → n < 256 → as_u8 (pos n) ≡ n
unfolding as_u8
as_u8-pos n h = omega arith

as_u32-pos : (n : ℕ) → n < 2 ^ 32 → as_u32 (pos n) ≡ n
unfolding as_u32
as_u32-pos n h = omega arith

module _ (json : Json) (reads : (l : List Text) → json.from_str (json.to_string l) ≡ some l) where
  issuer_lem :
      (issuer : Option Fingerprint) → IsDigestOrNone issuer → and_then issuer of_blob ≡ issuer
  issuer_lem none h = refl
  issuer_lem (some fp) h = ground arith

  row-certificate :
      (now : ℤ) (cert : CertificateMetadata)
      → IsTyped cert
      → row_to_certificate_metadata json (certificate_to_row json now cert) ≡ at_whole_ms cert
  unfolding row_to_certificate_metadata certificate_to_row
  row-certificate now cert t = rw (
    t.fingerprint,
    reads cert.sans,
    as_u8-pos cert.chain_depth t.depth,
    issuer_lem cert.issuer_fingerprint t.issuer,
    as_u64-as_i64 cert.connection_count t.count,
    as_u32-pos cert.completeness_flags t.flags,
    millis_lem cert.not_before,
    millis_lem cert.not_after,
    millis_lem cert.first_seen,
    millis_lem cert.last_seen,
  )

module _ (json : Json) where
  -- What is stored under a fingerprint after a certificate came in.
  abbrev pub stored_after : ℤ → CertificateMetadata → Option CertificateRow → Option CertificateRow
  stored_after now cert none = some (certificate_to_row json now cert)
  stored_after now cert (some r) = some (touched (timestamp_millis cert.last_seen) now r)

  found_after :
      (now : ℤ) (cert : CertificateMetadata) (certs : List CertificateRow) (fp : Fingerprint)
      → (if exists (is_key cert_key fp) certs
          then apply_to (touched (timestamp_millis cert.last_seen) now) (find cert_key fp certs)
          else some (certificate_to_row json now cert))
        ≡ stored_after now cert (find cert_key fp certs)
  found_after now cert certs fp = elim (Bool-cases (exists (is_key cert_key fp) certs)) [
    | inl there ↦
        let (r, found, same) = exists_find cert_key fp certs there in rw (there, found) refl
    | inr new ↦ rw (new, not_exists_find cert_key fp certs new) refl
  ]

  upserted :
      (now : ℤ) (cert : CertificateMetadata) (certs : List CertificateRow) (fp : Fingerprint)
      → find cert_key fp (
          upsert cert_key
            (certificate_to_row json now cert)
            (touched (timestamp_millis cert.last_seen) now)
            certs)
        ≡ (if bytes_eq cert.fingerprint fp
            then stored_after now cert (find cert_key fp certs)
            else find cert_key fp certs)
  unfolding certificate_to_row
  upserted now cert certs fp =
      find-upsert cert_key fp (certificate_to_row json now cert)
        (touched (timestamp_millis cert.last_seen) now) certs (λ r. refl)
      ∙ ap (λ o. if bytes_eq cert.fingerprint fp then o else find cert_key fp certs)
          (found_after now cert certs fp)

-- What a lookup finds after a certificate came in, by what it found before.
abbrev pub seen_after :
    CertificateMetadata → Option CertificateMetadata → Option CertificateMetadata
seen_after cert none = some (at_whole_ms cert)
seen_after cert (some old) = some (record old {
  last_seen = whole_ms cert.last_seen;
  connection_count = old.connection_count + 1;
})

-- One more connection is within an i64, in which SQLite counts.
abbrev pub IsCountable : Option CertificateMetadata → Type 0
IsCountable none = Unit
IsCountable (some old) = old.connection_count + 1 < 2 ^ 63

counts_on : (n : ℤ) → as_u64 n + 1 < 2 ^ 63 → as_u64 (n +ℤ pos 1) ≡ as_u64 n + 1
unfolding as_u64 ◌+ℤ◌
counts_on n h = ground arith

module _ (json : Json) where
  read-stored :
      ((l : List Text) → json.from_str (json.to_string l) ≡ some l)
      → (now : ℤ) (cert : CertificateMetadata) (o : Option CertificateRow) → IsTyped cert
      → IsCountable (read_row json o)
      → read_row json (stored_after json now cert o) ≡ seen_after cert (read_row json o)
  unfolding row_to_certificate_metadata
  read-stored reads now cert none typed count = ap some (row-certificate json reads now cert typed)
  read-stored reads now cert (some r) typed count =
      ap some (rw (millis_lem cert.last_seen, counts_on r.connection_count count))

module _ {F : Type 0} (json : Json) where
  looked_up :
      (now : ℤ) (cert : CertificateMetadata) (db : Database F) (fp : Fingerprint)
      → Quiet db
      → (get_certificate json fp (upsert_certificate json now cert db).1).0
        ≡ ok (
            read_row json (
              if bytes_eq cert.fingerprint fp
              then stored_after json now cert (find cert_key fp db.certificates)
              else find cert_key fp db.certificates))
  unfolding get_certificate upsert_certificate blocking
  looked_up now cert db fp quiet = rw (quiet, upserted json now cert db.certificates fp)

  looked_up_before :
      (db : Database F) (fp : Fingerprint) {before : Option CertificateMetadata}
      → Quiet db
      → (get_certificate json fp db).0 ≡ ok before
      → read_row json (find cert_key fp db.certificates) ≡ before
  unfolding get_certificate blocking
  looked_up_before db fp {before} quiet h =
      ap (λ r. elim r [ ok o ↦ o | err e ↦ before ]) (sym at_once ∙ h)
    where
      at_once :
          (get_certificate json fp db).0 ≡ ok (read_row json (find cert_key fp db.certificates))
      at_once = rw quiet refl

  -- Where no operation fails and the JSON of a list of names reads back, a certificate that is stored
  -- under a new fingerprint is read back as it was, its instants cut to the millisecond.
  pub get-upsert_new :
      ((l : List Text) → json.from_str (json.to_string l) ≡ some l)
      → (now : ℤ) (cert : CertificateMetadata) (db : Database F) → IsTyped cert
      → Quiet db
      → find cert_key cert.fingerprint db.certificates ≡ none
      → (get_certificate json cert.fingerprint (upsert_certificate json now cert db).1).0
        ≡ ok (some (at_whole_ms cert))
  get-upsert_new reads now cert db typed quiet unknown = rw (
    looked_up now cert db cert.fingerprint quiet,
    bytes_eq_refl cert.fingerprint,
    unknown,
    row-certificate json reads now cert typed,
  )

  -- Where no operation fails and the JSON of a list of names reads back, what a lookup finds after an
  -- upsert follows from what it found before: for another fingerprint the same; for the fingerprint of
  -- the certificate, the new certificate if there was none, and otherwise the old one with the new
  -- `last_seen` and one more connection. (Conditions: the fields are within their types, the count is
  -- below 2^63 - 1, and instants are cut to the millisecond.)
  pub get-upsert :
      ((l : List Text) → json.from_str (json.to_string l) ≡ some l)
      → (now : ℤ) (cert : CertificateMetadata) (db : Database F) (fp : Fingerprint)
        {before : Option CertificateMetadata}
      → IsTyped cert
      → Quiet db
      → (get_certificate json fp db).0 ≡ ok before
      → IsCountable before
      → (get_certificate json fp (upsert_certificate json now cert db).1).0
        ≡ ok (if bytes_eq cert.fingerprint fp then seen_after cert before else before)
  get-upsert reads now cert db fp {before} typed quiet found count =
      let same = looked_up_before db fp quiet found in
      looked_up now cert db fp quiet ∙ elim (Bool-cases (bytes_eq cert.fingerprint fp)) [
        | inl hit ↦ rw hit (
            ap ok (
              read-stored json reads now cert (find cert_key fp db.certificates) typed
                (subst IsCountable (sym same) count)
              ∙ ap (seen_after cert) same))
        | inr miss ↦ rw miss (ap ok same)
      ]
