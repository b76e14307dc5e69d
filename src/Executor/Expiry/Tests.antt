-- ===== src/Executor/Expiry/Tests.antt =====
-- A sweep, and its theorem at it.
use tlapix.Common.{arith, ℕ, ◌+◌, ◌≡◌, refl, false, [], ◌∷◌, map, Result, err, Yields}
use tlapix.Common.Int.{pos}
use tlapix.Common.Text.{text}
use tlapix.Types.{Fingerprint}
use tlapix.Storage.Sql.{exists}
use tlapix.Storage.Database.{StorageError, Database}
use tlapix.Storage.Tests.{programs, json, directive, two_certificates}
use tlapix.Executor.Expiry.{
  BpfMapError, not_found, ExpiryResult, cutoff_of, should_expire, mark_expired, expire_one,
  expire_loop, expire_stale_directives,
}
use tlapix.Executor.Expiry.Sweep.{is_left_over, expire_stale_directives-none_overdue}

abbrev directives : Database ℕ
directives = record two_certificates { action_directives = directive "d" 1 ∷ directive "e" 2 ∷ [] }

-- A map that has nothing and counts what it is asked to remove.
abbrev remove : Fingerprint → ℕ → Result BpfMapError (Unit {0}) × ℕ
remove fp n = (err not_found, n + 1)

-- 72 hours and 4 ms after the epoch.
abbrev swept : Result StorageError ExpiryResult × (Database ℕ × ℕ)
swept = expire_stale_directives json remove (λ k. pos 7) (pos 259200004000000) 72 (directives, 0)

statuses_run :
    map (λ d. d.status) swept.1.0.action_directives ≡ text "expired" ∷ text "expired" ∷ []
unfolding programs cutoff_of should_expire mark_expired expire_one expire_loop
    expire_stale_directives
statuses_run = refl

removals_run : swept.1.1 ≡ 2
unfolding programs cutoff_of should_expire mark_expired expire_one expire_loop
    expire_stale_directives
removals_run = refl

expire_stale_directives-none_overdue_example :
    Yields
      (λ (result : ExpiryResult) (s : Database ℕ × ℕ).
        (s.0.certificates ≡ directives.certificates)
        × (exists
              (is_left_over (pos 259200004000000) 72 directives.certificates)
              s.0.action_directives
            ≡ false))
      swept
expire_stale_directives-none_overdue_example =
    expire_stale_directives-none_overdue json remove (λ k. pos 7) (pos 259200004000000) 72
      directives 0 (omega arith) refl
