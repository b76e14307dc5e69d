-- ===== src/Analyzer/Renewal/Scheduler.antt =====
-- `run_reevaluation` of crates/tlapix-analyzer/src/renewal_scheduler.rs: a cycle that predicts anew for the
-- certificates that expire soon. The readings of the clock, the identifiers and their text are
-- parameters; `i` counts the certificates. Log lines are left out.
pub mod Listed
pub mod Step
pub mod Kept
pub mod Stored
use tlapix.Common.{
  ℕ, suc, ◌+◌, ◌%◌, ◌^◌, Option, none, some, List, [], ◌∷◌, length, ok, err, Exec, ◌>>=◌, pure,
  raise, map_err,
}
use tlapix.Common.Int.{ℤ, pos}
use tlapix.Common.Text.{Text, text}
use tlapix.Common.Time.{DateTime}
use tlapix.Types.{CertificateMetadata, Severity, ActionType, alert, renew, ActionDirective}
use tlapix.Storage.Rows.{Json, ActionDirectiveRow, RenewalPredictionRow, timestamp_millis}
use tlapix.Storage.Database.{StorageError, Database}
use tlapix.Storage.Certificates.{list_certificates_expiring_within_days}
use tlapix.Storage.Directives.{insert_action_directive}
use tlapix.Storage.Records.{upsert_renewal_prediction}
use tlapix.Analyzer.Renewal.{Float, RenewalPrediction, PredictionResult, predict}

pub record ReevaluationResult : Type 0 where
  pub certificates_evaluated : ℕ
  pub predictions_updated : ℕ
  pub directives_generated : ℕ
  pub errors : ℕ

-- Why a cycle ends early: the error that it returns, with the text of the storage's, or the panic of a
-- prediction.
pub data Stop : Type 0 where
  storage : Text → Stop
  panicked : Stop

unfoldable pub severity_to_str : Severity → Text
severity_to_str Severity.low = text "low"
severity_to_str Severity.medium = text "medium"
severity_to_str Severity.high = text "high"
severity_to_str Severity.critical = text "critical"

unfoldable pub action_type_to_str : ActionType → Text
action_type_to_str alert = text "alert"
action_type_to_str renew = text "renew"
action_type_to_str (ActionType.protect target pin) = text "protect"
action_type_to_str (ActionType.isolate target) = text "isolate"

-- `n += 1` of a u32.
abbrev pub suc_u32 : ℕ → ℕ
suc_u32 n = (n + 1) % 2 ^ 32

-- The row of a prediction at the time `now` of the cycle.
unfoldable pub prediction_row :
    {F : Type 0} → DateTime → RenewalPrediction F → RenewalPredictionRow F
unfolding severity_to_str timestamp_millis
prediction_row now p = record {
  cert_fingerprint = p.cert_fingerprint;
  failure_probability = p.failure_probability;
  severity = severity_to_str p.severity;
  days_until_expiry = p.days_until_expiry;
  renewal_activity_detected = p.renewal_activity_detected;
  reasoning = some p.reasoning;
  last_evaluated = timestamp_millis now;
  created_at = timestamp_millis now;
}

unfoldable pub pending_row : (ℕ → Text) → ActionDirective → ActionDirectiveRow
unfolding severity_to_str action_type_to_str timestamp_millis
pending_row uuid_text d = record {
  id = uuid_text d.id;
  correlation_id = uuid_text d.correlation_id;
  cert_fingerprint = d.cert_fingerprint;
  action_type = action_type_to_str d.action_type;
  severity = severity_to_str d.severity;
  reasoning = some d.reasoning;
  status = text "pending";
  attempt_count = pos 0;
  created_at = timestamp_millis d.created_at;
  executed_at = none;
  expired_at = none;
  failure_reason = none;
}

module _ {F : Type 0} (uuid_text : ℕ → Text) where
  -- A failure to insert is counted and does not end the cycle.
  unfoldable pub store_directive :
      Option ActionDirective → ReevaluationResult → Exec (Database F) Stop ReevaluationResult
  unfolding pending_row insert_action_directive
  store_directive none counts db = (ok counts, db)
  store_directive (some directive) counts db =
      let (inserted, db') = insert_action_directive (pending_row uuid_text directive) db in
      (
        ok (elim inserted [
          | ok _ ↦ record counts { directives_generated = suc_u32 counts.directives_generated }
          | err e ↦ record counts { errors = suc_u32 counts.errors }
        ]),
        db',
      )

  -- Nor does a failure to store the prediction, but its directive is left out then.
  unfoldable pub store_result :
      DateTime → PredictionResult F → ReevaluationResult → Exec (Database F) Stop ReevaluationResult
  unfolding prediction_row upsert_renewal_prediction store_directive
  store_result now result counts db =
      let (stored, db') = upsert_renewal_prediction (prediction_row now result.prediction) db in
      elim stored [
        | ok _ ↦
            store_directive result.directive
              (record counts { predictions_updated = suc_u32 counts.predictions_updated }) db'
        | err e ↦ (ok (record counts { errors = suc_u32 counts.errors }), db')
      ]

module _ {F : Type 0} (float : Float F) (json : Json) (uuid_text : ℕ → Text)
    (error_text : StorageError → Text) (id correlation_id : ℕ → ℕ) (now : DateTime) where
  unfoldable pub store_predicted :
      Option (Option (PredictionResult F))
      → ReevaluationResult
      → Exec (Database F) Stop ReevaluationResult
  unfolding store_result
  store_predicted none counts = raise panicked
  store_predicted (some none) counts = pure counts
  store_predicted (some (some result)) counts = store_result uuid_text now result counts

  unfoldable pub reevaluate_loop :
      ℕ → List CertificateMetadata → ReevaluationResult → Exec (Database F) Stop ReevaluationResult
  unfolding predict store_predicted
  reevaluate_loop i [] counts = pure counts
  reevaluate_loop i (cert ∷ certs) counts = do
    so_far ← store_predicted (predict float (id i) (correlation_id i) now cert none) counts
    reevaluate_loop (suc i) certs so_far

  -- `query_ms` is the clock that the query reads.
  unfoldable pub run_reevaluation : ℤ → Exec (Database F) Stop ReevaluationResult
  unfolding list_certificates_expiring_within_days reevaluate_loop
  run_reevaluation query_ms = do
    certs ←
        map_err (λ e. storage (error_text e))
          (list_certificates_expiring_within_days json query_ms (pos 30))
    reevaluate_loop 0 certs (record {
      certificates_evaluated = length certs % 2 ^ 32;
      predictions_updated = 0;
      directives_generated = 0;
      errors = 0;
    })
