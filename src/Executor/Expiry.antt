-- ===== src/Executor/Expiry.antt =====
-- `expire_stale_directives` of crates/tlapix-executor/src/expiry.rs: directives for certificates that are
-- no longer seen are taken out of the map and marked. The map writer is a trait of the source and a
-- parameter here, a state that its operation changes; hours are within the range of chrono. `k` counts
-- the directives of the sweep, each of which may read the clock.
pub mod Covered
pub mod Sweep
mod Tests
use tlapix.Common.{
  ℕ, suc, ◌+◌, ◌*◌, Bool, true, false, not, ◌||◌, Option, none, some, List, [], ◌∷◌, ◌++◌,
  if◌then◌else◌, length, Result, ok, err, Exec, ◌>>=◌, ◌>>◌, pure,
}
use tlapix.Common.Int.{ℤ, pos, ltb_ℤ, ◌-ℤ◌, ◌*ℤ◌}
use tlapix.Common.Text.{Text, text}
use tlapix.Common.Time.{DateTime}
use tlapix.Types.{Fingerprint, CertificateMetadata}
use tlapix.Storage.Rows.{Json, ActionDirectiveRow, as_i64}
use tlapix.Storage.Database.{StorageError, Database, Db}
use tlapix.Storage.Certificates.{get_certificate}
use tlapix.Storage.Directives.{list_directives_by_status, update_directive_status}

pub data BpfMapError : Type 0 where
  not_found : BpfMapError
  operation_failed : Text → BpfMapError

pub record ExpiryResult : Type 0 where
  pub expired_count : ℕ
  pub expired_ids : List Text

-- `Utc::now() - Duration::hours(expiry_hours as i64)`
unfoldable pub cutoff_of : DateTime → ℕ → DateTime
unfolding as_i64
cutoff_of now expiry_hours = now -ℤ as_i64 expiry_hours *ℤ pos 3600000000000

unfoldable pub should_expire : DateTime → Option CertificateMetadata → Bool
should_expire cutoff none = true
should_expire cutoff (some cert) = ltb_ℤ cert.last_seen cutoff

-- The storage and the map.
abbrev pub Sweep : Type 0 → Type 0 → Type 0 → Type 0
Sweep F M A = Exec (Database F × M) StorageError A

module _ {F M : Type 0} where
  abbrev pub on_storage : {A : Type 0} → Db F A → Sweep F M A
  on_storage op (db, m) = let (r, db') = op db in (r, (db', m))

  -- An operation on the map whose errors are only logged.
  abbrev pub best_effort : (M → Result BpfMapError (Unit {0}) × M) → Sweep F M (Unit {0})
  best_effort op (db, m) = (ok tt, (db, (op m).1))

module _ (json : Json) {F M : Type 0}
    (remove_entry : Fingerprint → M → Result BpfMapError (Unit {0}) × M) where
  module _ (status_ms : ℕ → ℤ) where
    -- Marks a directive that is stale.
    unfoldable pub mark_expired : ℕ → ActionDirectiveRow → Sweep F M (List Text)
    unfolding update_directive_status
    mark_expired k d = do
      best_effort (remove_entry d.cert_fingerprint)
      on_storage (update_directive_status (status_ms k) d.id (text "expired") none)
      pure (d.id ∷ [])

    unfoldable pub expire_one : DateTime → ℕ → ActionDirectiveRow → Sweep F M (List Text)
    unfolding get_certificate should_expire mark_expired
    expire_one cutoff k d = do
      cert ← on_storage (get_certificate json d.cert_fingerprint)
      if should_expire cutoff cert then mark_expired k d else pure []

    unfoldable pub expire_loop : DateTime → ℕ → List ActionDirectiveRow → Sweep F M (List Text)
    unfolding expire_one
    expire_loop cutoff k [] = pure []
    expire_loop cutoff k (d ∷ candidates) = do
      expired ← expire_one cutoff k d
      rest ← expire_loop cutoff (suc k) candidates
      pure (expired ++ rest)

    unfoldable pub expire_stale_directives : DateTime → ℕ → Sweep F M ExpiryResult
    unfolding cutoff_of list_directives_by_status expire_loop
    expire_stale_directives now expiry_hours = do
      active ← on_storage (list_directives_by_status (text "active"))
      pending ← on_storage (list_directives_by_status (text "pending"))
      expired_ids ← expire_loop (cutoff_of now expiry_hours) 0 (active ++ pending)
      pure (record { expired_count = length expired_ids; expired_ids = expired_ids })
