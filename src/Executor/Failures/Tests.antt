-- ===== src/Executor/Failures/Tests.antt =====
-- A failure that is handled, and the theorem at it.
use tlapix.Common.{ℕ, ◌+◌, ◌≡◌, refl, true, false, none, [], ◌∷◌, map, Yields, replicate}
use tlapix.Common.Int.{pos}
use tlapix.Common.Text.{Text, text}
use tlapix.Types.{Severity, renew, ActionDirective, failed}
use tlapix.Storage.Sql.{exists, is_key, find}
use tlapix.Storage.Database.{Database}
use tlapix.Storage.Certificates.{cert_key}
use tlapix.Storage.Directives.{directive_key}
use tlapix.Storage.Tests.{programs, directive, two_certificates}
use tlapix.Executor.Failures.{
  FailureHandlingResult, alert_row, record_failure, handle_execution_failure,
}
use tlapix.Executor.Failures.Handled.{FoundAfter, handle_execution_failure-found}

abbrev uuid_text : ℕ → Text
uuid_text n = (n + 96) ∷ []

-- Its identifier is the text `d`.
abbrev failing : ActionDirective
failing = record {
  id = 4;
  correlation_id = 5;
  cert_fingerprint = replicate 32 2;
  action_type = renew;
  severity = Severity.high;
  reasoning = text "expiring";
  created_at = pos 1;
  source_anomaly = none;
  attempt_count = 3;
}

abbrev stored : Database ℕ
stored = record two_certificates { action_directives = directive "d" 2 ∷ [] }

statuses_run :
    map
      (λ d. d.status)
      (handle_execution_failure uuid_text 9
        (pos 7)
        (pos 8)
        failing
        (failed (text "timeout") 3)
        stored).1.action_directives
    ≡ text "failed" ∷ text "pending" ∷ []
unfolding programs alert_row record_failure handle_execution_failure
statuses_run = refl

alert_is_fresh : exists (is_key directive_key (uuid_text 9)) stored.action_directives ≡ false
unfolding programs
alert_is_fresh = refl

certificate_is_stored : exists (is_key cert_key (replicate 32 2)) stored.certificates ≡ true
unfolding programs
certificate_is_stored = refl

handle_execution_failure-found_example :
    Yields
      (λ (result : FailureHandlingResult) (db : Database ℕ).
        FoundAfter uuid_text 9
          (pos 7)
          (pos 8)
          failing
          (text "timeout")
          3
          (uuid_text 4)
          (find directive_key (uuid_text 4) stored.action_directives)
          (find directive_key (uuid_text 4) db.action_directives))
      (handle_execution_failure uuid_text 9
        (pos 7)
        (pos 8)
        failing
        (failed (text "timeout") 3)
        stored)
handle_execution_failure-found_example =
    handle_execution_failure-found uuid_text 9 (pos 7) (pos 8) failing (text "timeout") 3 stored
      (uuid_text 4) refl alert_is_fresh certificate_is_stored
