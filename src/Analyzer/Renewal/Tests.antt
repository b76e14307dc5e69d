-- ===== src/Analyzer/Renewal/Tests.antt =====
-- Predictions with decimals for the floating-point numbers, and the theorem at one.
use tlapix.Common.{arith}
use tlapix.Common.{
  ℕ, ◌+◌, ◌*◌, ◌/◌, ◌≡◌, ◌⊎◌, refl, true, false, none, some, [], if◌then◌else◌, ltb, leb, bytes_eq,
}
use tlapix.Common.Int.{pos, negsuc, ◌-ℤ◌}
use tlapix.Common.Text.{Text, text, is_empty}
use tlapix.Common.Time.{num_days}
use tlapix.Common.Decimal.{show, show_ℤ}
use tlapix.Types.{CertificateMetadata, Severity, alert}
use tlapix.Storage.Tests.{certificate}
use tlapix.Analyzer.Reasoning.{truncate}
use tlapix.Analyzer.Renewal.{
  Float, PredictionResult, join_sentences, take_chars, history_parts, renewal_reasoning,
  intervention, predict,
}
use tlapix.Common.{map, ◌∷◌, Result, ok}
use tlapix.Analyzer.Renewal.{
  sum_days, has_renewal_activity, calculate_probability, determine_severity, predict,
}
use tlapix.Storage.Tests.{programs, json, with_directive}
use tlapix.Storage.Database.{Database}
use tlapix.Storage.Certificates.{list_certificates_expiring_within_days}
use tlapix.Storage.Records.{upsert_renewal_prediction}
use tlapix.Analyzer.Renewal.Scheduler.{
  Stop, ReevaluationResult, severity_to_str, action_type_to_str, prediction_row, pending_row,
  store_directive, store_result, store_predicted, reevaluate_loop, run_reevaluation,
}
use tlapix.Common.{replicate}
use tlapix.Storage.Rows.{certificate_to_row, of_millis}
use tlapix.Storage.Sql.{find, IsUnique}
use tlapix.Storage.Certificates.{cert_key}
use tlapix.Analyzer.Renewal.Scheduler.Step.{Ends}
use tlapix.Analyzer.Renewal.Scheduler.Stored.{IsPredictedFrom, run_reevaluation-predicts}
use tlapix.Analyzer.Renewal.Predicted.{is_within, Assessment, predict-Assessment}

-- Thousandths, with what is negative as 0.
abbrev thousandths : Text → ℕ
thousandths t =
    if bytes_eq t (text "0.5")
    then 500
    else if bytes_eq t (text "0.015")
    then 15
    else if bytes_eq t (text "0.7")
    then 700
    else if bytes_eq t (text "100.0")
    then 100000
    else 0

abbrev decimal : Float ℕ
decimal = record {
  literal = thousandths;
  of_int = λ d. elim d [ pos n ↦ n * 1000 | negsuc n ↦ 0 ];
  add = λ a b. a + b;
  mul = λ a b. a * b / 1000;
  div = λ a b. if ltb 0 b then a * 1000 / b else 0;
  min = λ a b. if leb a b then a else b;
  lt = ltb;
  le = leb;
  show_rounded = λ a. show (a / 1000);
}

-- Six hours before the certificate expires.
abbrev six_hours : ℕ
six_hours = 21600000000000

abbrev expiring : CertificateMetadata
expiring = record (certificate 1) { not_after = pos (2 * six_hours) }

reasoning_run :
    renewal_reasoning decimal (pos 10) 800 none false
    ≡ some (
        text
          "Certificate expires in 10 days. Failure probability: 80%. No renewal activity detected. No historical renewal data available")
unfolding bytes_eq show show_ℤ is_empty truncate join_sentences history_parts renewal_reasoning
reasoning_run = refl

-- The certificate is still valid, and the alert says that it has expired.
expires_today_run :
    intervention decimal 1 2
      (pos six_hours)
      expiring
      (num_days (expiring.not_after -ℤ pos six_hours))
      950
      Severity.critical
      []
    ≡ some (record {
      id = 1;
      correlation_id = 2;
      cert_fingerprint = expiring.fingerprint;
      action_type = alert;
      severity = Severity.critical;
      reasoning = text "Certificate expired 0 days ago without renewal. ";
      created_at = pos six_hours;
      source_anomaly = none;
      attempt_count = 0;
    })
unfolding num_days show show_ℤ take_chars intervention ◌-ℤ◌
expires_today_run = refl

predict-Assessment_example :
    ((is_within 31 (expiring.not_after -ℤ pos six_hours) ≡ false)
      × (predict decimal 1 2 (pos six_hours) expiring none ≡ some none))
    ⊎ ((is_within 31 (expiring.not_after -ℤ pos six_hours) ≡ true)
        × ((predict decimal 1 2 (pos six_hours) expiring none ≡ none)
            ⊎ ((r : PredictionResult ℕ) × (predict decimal 1 2 (pos six_hours) expiring none
                  ≡ some (some r))
                × Assessment decimal 1 2
                    (pos six_hours)
                    expiring
                    (expiring.not_after -ℤ pos six_hours)
                    r)))
predict-Assessment_example = predict-Assessment decimal 1 2 (pos six_hours) expiring none

abbrev cycle : Result Stop ReevaluationResult × Database ℕ
cycle =
    run_reevaluation decimal json (λ n. (n + 48) ∷ []) (λ e. text "error") (λ i. i) (λ i. i + 10)
      (pos six_hours) (pos 21600000) with_directive

-- Both certificates expire, and get their predictions and directives.
cycle_run :
    cycle.0
    ≡ ok (record {
      certificates_evaluated = 2;
      predictions_updated = 2;
      directives_generated = 2;
      errors = 0;
    })
unfolding programs num_days show show_ℤ is_empty truncate join_sentences take_chars sum_days
    has_renewal_activity calculate_probability determine_severity history_parts renewal_reasoning
    intervention predict severity_to_str action_type_to_str prediction_row pending_row
    store_directive store_result store_predicted reevaluate_loop run_reevaluation
    list_certificates_expiring_within_days upsert_renewal_prediction
cycle_run = refl

abbrev again : Result Stop ReevaluationResult × Database ℕ
again =
    run_reevaluation decimal json (λ n. (n + 48) ∷ []) (λ e. text "error") (λ i. i + 2)
      (λ i. i + 10) (pos six_hours) (pos 21600000) cycle.1

-- The next cycle inserts two more, although nothing has changed.
cycle_again_run :
    map (λ d. d.status) again.1.action_directives
    ≡ text "pending" ∷ text "pending" ∷ text "pending" ∷ text "pending" ∷ text "pending" ∷ []
unfolding programs num_days show show_ℤ is_empty truncate join_sentences take_chars sum_days
    has_renewal_activity calculate_probability determine_severity history_parts renewal_reasoning
    intervention predict severity_to_str action_type_to_str prediction_row pending_row
    store_directive store_result store_predicted reevaluate_loop run_reevaluation
    list_certificates_expiring_within_days upsert_renewal_prediction
cycle_again_run = refl

with_directive-IsUnique : IsUnique cert_key with_directive.certificates
unfolding programs
with_directive-IsUnique = (refl, (refl, tt))

-- Two seconds after the epoch, seven before the certificates expire.
run_reevaluation-predicts_example :
    Ends
      (λ counts db'.
        IsPredictedFrom decimal json
          (λ i. i)
          (λ i. i + 10)
          (pos 2000000000)
          (certificate_to_row json (pos 7) (certificate 1))
          db'.renewal_predictions
          (replicate 32 1))
      (run_reevaluation decimal json
        (λ n. (n + 48) ∷ [])
        (λ e. text "error")
        (λ i. i)
        (λ i. i + 10)
        (pos 2000000000)
        (pos 2000)
        with_directive)
unfolding programs certificate_to_row find num_days of_millis
run_reevaluation-predicts_example =
    run_reevaluation-predicts decimal json (λ n. (n + 48) ∷ []) (λ e. text "error") (λ i. i)
      (λ i. i + 10) (pos 2000000000) (pos 2000) (replicate 32 1)
      (certificate_to_row json (pos 7) (certificate 1)) with_directive refl with_directive-IsUnique
      (refl, (refl, tt)) refl (omega arith) refl
