-- ===== src/Executor/Failures.antt =====
-- `handle_execution_failure` of crates/tlapix-executor/src/failure_handler.rs. The fresh identifier, the
-- text of an identifier and the readings of the clock are parameters; log lines are left out.
pub mod Handled
mod Tests
use tlapix.Common.{
  ℕ, Option, none, some, List, ◌++◌, Result, ok, err, Exec, ◌>>=◌, ◌>>◌, pure, raise, map_err,
}
use tlapix.Common.Int.{ℤ, pos}
use tlapix.Common.Text.{Text, text}
use tlapix.Common.Decimal.{show}
use tlapix.Types.{Fingerprint, ActionDirective, ExecutionOutcome}
use tlapix.Storage.Rows.{ActionDirectiveRow}
use tlapix.Storage.Database.{StorageError, Database}
use tlapix.Storage.Directives.{insert_action_directive, mark_directive_failed}

pub record FailureHandlingResult : Type 0 where
  pub failed_directive_id : Text
  pub alert_directive_id : Text
  pub attempts : ℕ
  pub reason : Text

-- The causes of the error that is returned.
pub data HandlerError : Type 0 where
  storage : StorageError → HandlerError
  not_failed : ExecutionOutcome → HandlerError

module _ (uuid_text : ℕ → Text) (alert_id : ℕ) (failed_ms created_ms : ℤ) where
  unfoldable pub alert_row : ActionDirective → Text → ℕ → ActionDirectiveRow
  alert_row directive reason attempts = record {
    id = uuid_text alert_id;
    correlation_id = uuid_text directive.correlation_id;
    cert_fingerprint = directive.cert_fingerprint;
    action_type = text "alert";
    severity = text "critical";
    reasoning = some (
        text "Directive execution failed after "
        ++ (show attempts
            ++ (text " attempts: " ++ (reason ++ text ". Manual intervention required."))));
    status = text "pending";
    attempt_count = pos 0;
    created_at = created_ms;
    executed_at = none;
    expired_at = none;
    failure_reason = none;
  }

  module _ {F : Type 0} where
    unfoldable pub record_failure :
        ActionDirective → Text → ℕ → Exec (Database F) HandlerError FailureHandlingResult
    unfolding alert_row mark_directive_failed insert_action_directive
    record_failure directive reason attempts = do
      map_err storage
          (mark_directive_failed failed_ms (uuid_text directive.id) (pos attempts) reason)
      map_err storage (insert_action_directive (alert_row directive reason attempts))
      pure (record {
        failed_directive_id = uuid_text directive.id;
        alert_directive_id = uuid_text alert_id;
        attempts = attempts;
        reason = reason;
      })

    unfoldable pub handle_execution_failure :
        ActionDirective → ExecutionOutcome → Exec (Database F) HandlerError FailureHandlingResult
    unfolding record_failure
    handle_execution_failure directive outcome = elim outcome [
      | ExecutionOutcome.failed reason attempts ↦ record_failure directive reason attempts
      | other ↦ raise (not_failed other)
    ]
