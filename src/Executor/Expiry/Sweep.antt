-- ===== src/Executor/Expiry/Sweep.antt =====
-- After a sweep of crates/tlapix-executor/src/expiry.rs no directive in force is stale.
use tlapix.Common.{
  Bool, true, sym, Option, ◌&&◌, ◌||◌, none, some, ap, ◌∙◌, bytes_eq, ◌<◌, ◌*◌, ◌^◌, arith, ℕ, suc,
  ◌≡◌, inl, inr, refl, subst, false, List, [], ◌∷◌, ◌++◌, Bool-cases, length, Result, Yields,
  bind-Yields,
}
use tlapix.Common.Int.{ℤ, pos, ltb_ℤ, ◌+ℤ◌, ◌-ℤ◌, ◌*ℤ◌, +ℤ_parts, -ℤ_parts}
use tlapix.Common.Text.{text}
use tlapix.Common.Time.{DateTime}
use tlapix.Types.{Fingerprint}
use tlapix.Storage.Rows.{
  Json, of_millis, as_i64, row_to_certificate_metadata, CertificateRow, ActionDirectiveRow,
}
use tlapix.Storage.Sql.{exists, find}
use tlapix.Storage.Database.{Database, blocking, Quiet}
use tlapix.Storage.Certificates.{cert_key, read_row, get_certificate}
use tlapix.Storage.Directives.{list_directives_by_status, update_directive_status}
use tlapix.Executor.Expiry.{
  BpfMapError, ExpiryResult, should_expire, on_storage, cutoff_of, mark_expired, expire_one,
  expire_loop, expire_stale_directives,
}
use tlapix.Executor.Expiry.Covered.{
  is_overdue, Covered, marked-Covered, fresh-Covered, in_force, in_force-Covered, Covered-over,
}

module _ (json : Json) {F M : Type 0}
    (remove_entry : Fingerprint → M → Result BpfMapError (Unit {0}) × M) (cutoff : DateTime)
    (certs : List CertificateRow) where
  -- No operation to come fails, the certificates are as given, and the overdue directives are to come.
  abbrev Pending : List ActionDirectiveRow → Database F × M → Type 0
  Pending ds (db, m) =
      Quiet db × (db.certificates ≡ certs) × Covered json cutoff certs ds db.action_directives

  lookup-Yields :
      (ds : List ActionDirectiveRow) (fp : Fingerprint) (s : Database F × M)
      → Pending ds s
      → Yields
          (λ cert s'. (cert ≡ read_row json (find cert_key fp certs)) × Pending ds s')
          (on_storage {M = M} (get_certificate json fp) s)
  unfolding get_certificate blocking
  lookup-Yields ds fp (db, m) (quiet, same, covered) = rw quiet (
    read_row json (find cert_key fp db.certificates),
    refl,
    (rw same refl, (refl, same, covered)),
  )

  mark-Yields :
      (status_ms : ℕ → ℤ) (k : ℕ) (d : ActionDirectiveRow) (ds : List ActionDirectiveRow)
      (s : Database F × M)
      → Pending (d ∷ ds) s
      → Yields (λ ids s'. Pending ds s') (mark_expired json remove_entry status_ms k d s)
  unfolding mark_expired update_directive_status blocking
  mark-Yields status_ms k d ds (db, m) (quiet, same, covered) = rw quiet (
    d.id ∷ [],
    refl,
    (quiet, same, marked-Covered json cutoff certs (status_ms k) d ds db.action_directives covered),
  )

  one-Yields :
      (status_ms : ℕ → ℤ) (k : ℕ) (d : ActionDirectiveRow) (ds : List ActionDirectiveRow)
      (s : Database F × M)
      → Pending (d ∷ ds) s
      → Yields (λ ids s'. Pending ds s') (expire_one json remove_entry status_ms cutoff k d s)
  unfolding expire_one
  one-Yields status_ms k d ds s h =
      bind-Yields
        (λ cert s'.
          (cert ≡ read_row json (find cert_key d.cert_fingerprint certs)) × Pending (d ∷ ds) s')
        (λ ids s'. Pending ds s') (on_storage (get_certificate json d.cert_fingerprint)) _ s
        (lookup-Yields (d ∷ ds) d.cert_fingerprint s h)
        (λ cert s' (found, (calm, same, covered)). elim (Bool-cases (should_expire cutoff cert)) [
          | inl stale ↦ rw stale (mark-Yields status_ms k d ds s' (calm, same, covered))
          | inr fresh ↦ rw fresh (
            [],
            refl,
            (
              calm,
              same,
              fresh-Covered json cutoff certs d ds s'.0.action_directives
                  (subst (λ c. should_expire cutoff c ≡ false) found fresh) covered,
            ),
          )
        ])

  loop-Yields :
      (status_ms : ℕ → ℤ) (k : ℕ) (ds : List ActionDirectiveRow) (s : Database F × M)
      → Pending ds s
      → Yields (λ ids s'. Pending [] s') (expire_loop json remove_entry status_ms cutoff k ds s)
  unfolding expire_loop
  loop-Yields status_ms k [] s h = ([], refl, h)
  loop-Yields status_ms k (d ∷ ds) s h =
      bind-Yields (λ ids s'. Pending ds s') (λ ids s'. Pending [] s')
        (expire_one json remove_entry status_ms cutoff k d) _ s (one-Yields status_ms k d ds s h)
        (λ expired s' pending.
          bind-Yields (λ ids s'. Pending [] s') (λ ids s'. Pending [] s')
            (expire_loop json remove_entry status_ms cutoff (suc k) ds) _ s'
            (loop-Yields status_ms (suc k) ds s' pending)
            (λ rest s'' done. (expired ++ rest, refl, done)))

-- A certificate is not stored, or was last seen more than so many hours ago.
abbrev pub is_unseen : DateTime → ℕ → Option CertificateRow → Bool
is_unseen now hours none = true
is_unseen now hours (some r) =
    ltb_ℤ (of_millis r.last_seen +ℤ pos (hours * (60 * 60 * 1000000000))) now

-- A directive that is active or pending although its certificate is unseen.
abbrev pub is_left_over : DateTime → ℕ → List CertificateRow → ActionDirectiveRow → Bool
is_left_over now hours certs d =
    (bytes_eq d.status (text "active") || bytes_eq d.status (text "pending"))
    && is_unseen now hours (find cert_key d.cert_fingerprint certs)

cutoff_passed :
    (now t : DateTime) (hours : ℕ)
    → hours < 2 ^ 63
    → ltb_ℤ (t +ℤ pos (hours * (60 * 60 * 1000000000))) now ≡ ltb_ℤ t (cutoff_of now hours)
unfolding cutoff_of as_i64 ◌*ℤ◌
cutoff_passed now t hours small =
    subst (λ (c : ℤ). ltb_ℤ (t +ℤ pos (hours * (60 * 60 * 1000000000))) now ≡ ltb_ℤ t (now -ℤ c))
      (sym hours_ns) (moved (hours * 3600000000000))
  where
    hours_ns : as_i64 hours *ℤ pos 3600000000000 ≡ pos (hours * 3600000000000)
    hours_ns = ground arith

    moved : (n : ℕ) → ltb_ℤ (t +ℤ pos n) now ≡ ltb_ℤ t (now -ℤ pos n)
    moved n = ground (arith, +ℤ_parts t (pos n), -ℤ_parts now (pos n))

unseen-expires :
    (json : Json) (now : DateTime) (hours : ℕ) (found : Option CertificateRow)
    → hours < 2 ^ 63
    → is_unseen now hours found ≡ should_expire (cutoff_of now hours) (read_row json found)
unfolding should_expire row_to_certificate_metadata
unseen-expires json now hours none small = refl
unseen-expires json now hours (some r) small = cutoff_passed now (of_millis r.last_seen) hours small

unseen-overdue :
    (json : Json) (now : DateTime) (hours : ℕ) (certs : List CertificateRow)
    (d : ActionDirectiveRow)
    → hours < 2 ^ 63
    → is_left_over now hours certs d ≡ is_overdue json (cutoff_of now hours) certs d
unseen-overdue json now hours certs d small =
    ap (λ b. (bytes_eq d.status (text "active") || bytes_eq d.status (text "pending")) && b)
      (unseen-expires json now hours (find cert_key d.cert_fingerprint certs) small)

exists-same :
    (p q : ActionDirectiveRow → Bool) (ds : List ActionDirectiveRow)
    → ((d : ActionDirectiveRow) → p d ≡ q d)
    → exists p ds ≡ exists q ds
unfolding exists
exists-same p q [] same = refl
exists-same p q (d ∷ ds) same = rw (same d, exists-same p q ds same) refl

module _ (json : Json) {F M : Type 0}
    (remove_entry : Fingerprint → M → Result BpfMapError (Unit {0}) × M) where
  -- Where no operation of the storage fails, a sweep succeeds, whatever the map answers, leaves the
  -- certificates as they are, and leaves no directive active or pending whose certificate is not stored
  -- or was last seen more than the configured hours ago. (Condition: the hours are below 2^63.)
  pub expire_stale_directives-none_overdue :
      (status_ms : ℕ → ℤ) (now : DateTime) (expiry_hours : ℕ) (db : Database F) (m : M)
      → expiry_hours < 2 ^ 63
      → Quiet db
      → Yields
          (λ (swept : ExpiryResult) (s : Database F × M).
            (s.0.certificates ≡ db.certificates)
            × (exists (is_left_over now expiry_hours db.certificates) s.0.action_directives
                ≡ false))
          (expire_stale_directives json remove_entry status_ms now expiry_hours (db, m))
  unfolding expire_stale_directives list_directives_by_status blocking
  expire_stale_directives-none_overdue status_ms now expiry_hours db m small quiet = rw quiet (
      bind-Yields (λ ids. Pending json remove_entry (cutoff_of now expiry_hours) db.certificates [])
        (λ swept s.
          (s.0.certificates ≡ db.certificates)
          × (exists (is_left_over now expiry_hours db.certificates) s.0.action_directives ≡ false))
        (expire_loop json remove_entry status_ms (cutoff_of now expiry_hours) 0
          (in_force json (cutoff_of now expiry_hours) db.certificates db.action_directives))
        _ (record db { faults = [] }, m)
        (loop-Yields json remove_entry (cutoff_of now expiry_hours) db.certificates status_ms 0 _ _
          (
            refl,
            refl,
            in_force-Covered json (cutoff_of now expiry_hours) db.certificates db.action_directives,
          ))
        (λ ids s (calm, same, covered). (
          record { expired_count = length ids; expired_ids = ids },
          refl,
          (
            same,
            exists-same (is_left_over now expiry_hours db.certificates)
                  (is_overdue json (cutoff_of now expiry_hours) db.certificates)
                  s.0.action_directives
                  (λ d. unseen-overdue json now expiry_hours db.certificates d small)
                ∙ Covered-over json (cutoff_of now expiry_hours) db.certificates
                    s.0.action_directives covered,
          ),
        )))
