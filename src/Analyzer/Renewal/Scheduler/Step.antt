-- ===== src/Analyzer/Renewal/Scheduler/Step.antt =====
-- What the cycle of crates/tlapix-analyzer/src/renewal_scheduler.rs stores for one certificate.
use tlapix.Common.{if◌then◌else◌, bytes_eq, bytes_eq_iff, ◌∙◌}
use tlapix.Common.Text.{Text, text}
use tlapix.Types.{Severity}
use tlapix.Storage.Rows.{timestamp_millis}
use tlapix.Storage.Sql.{find}
use tlapix.Storage.Sql.Laws.{apply_to, find-upsert, exists_find}
use tlapix.Analyzer.Renewal.{RenewalPrediction}
use tlapix.Analyzer.Renewal.Scheduler.{severity_to_str}
use tlapix.Common.{
  ℕ, ◌≡◌, ◌⊎◌, inl, inr, refl, ap, sym, subst, true, false, not, ◌&&◌, Option, none, some, List,
  bytes_eq, Bool-cases, Result, ok, err, Exec, continue, ◌>>=◌, Yields, arith,
}
use tlapix.Common.Text.{Text}
use tlapix.Common.Time.{DateTime}
use tlapix.Types.{Fingerprint, ActionDirective}
use tlapix.Storage.Rows.{CertificateRow, RenewalPredictionRow}
use tlapix.Storage.Sql.{exists, is_key, upsert}
use tlapix.Storage.Database.{StorageError, Database, blocking, Quiet}
use tlapix.Storage.Certificates.{cert_key}
use tlapix.Storage.Directives.{insert_action_directive}
use tlapix.Storage.Records.{prediction_key, predicted, upsert_renewal_prediction}
use tlapix.Analyzer.Renewal.{PredictionResult}
use tlapix.Analyzer.Renewal.Scheduler.{
  ReevaluationResult, Stop, panicked, suc_u32, prediction_row, store_directive, store_result,
}

-- The severities in the storage.
abbrev pub severity_word : Severity → Text
severity_word Severity.low = text "low"
severity_word Severity.medium = text "medium"
severity_word Severity.high = text "high"
severity_word Severity.critical = text "critical"

word_lem : (s : Severity) → severity_to_str s ≡ severity_word s
unfolding severity_to_str
word_lem Severity.low = refl
word_lem Severity.medium = refl
word_lem Severity.high = refl
word_lem Severity.critical = refl

module _ {F : Type 0} where
  -- The row holds the prediction, evaluated at an instant.
  abbrev pub StoredAs : DateTime → RenewalPrediction F → RenewalPredictionRow F → Type 0
  StoredAs now p row =
      (row.failure_probability ≡ p.failure_probability)
      × (row.severity ≡ severity_word p.severity)
      × (row.days_until_expiry ≡ p.days_until_expiry)
      × (row.renewal_activity_detected ≡ p.renewal_activity_detected)
      × (row.reasoning ≡ some p.reasoning)
      × (row.last_evaluated ≡ timestamp_millis now)

  abbrev pub and_rows :
      DateTime → PredictionResult F → List (RenewalPredictionRow F) → List (RenewalPredictionRow F)
  and_rows now result rows =
      upsert prediction_key (prediction_row now result.prediction)
        (predicted (prediction_row now result.prediction)) rows

  looked_up :
      (now : DateTime) (result : PredictionResult F) (rows : List (RenewalPredictionRow F))
      (fp : Fingerprint)
      → find prediction_key fp (and_rows now result rows) ≡ (
          if bytes_eq result.prediction.cert_fingerprint fp
          then (if exists (is_key prediction_key fp) rows
              then apply_to
                  (predicted (prediction_row now result.prediction))
                  (find prediction_key fp rows)
              else some (prediction_row now result.prediction))
          else find prediction_key fp rows)
  unfolding prediction_row
  looked_up now result rows fp =
      find-upsert prediction_key fp (prediction_row now result.prediction)
        (predicted (prediction_row now result.prediction)) rows (λ r. refl)

  pub found_new :
      (now : DateTime) (result : PredictionResult F) (rows : List (RenewalPredictionRow F))
      (fp : Fingerprint)
      → result.prediction.cert_fingerprint ≡ fp
      → (row : RenewalPredictionRow F) × (find prediction_key fp (and_rows now result rows)
          ≡ some row)
        × StoredAs now result.prediction row
  unfolding prediction_row
  found_new now result rows fp same =
      let hit = (bytes_eq_iff result.prediction.cert_fingerprint fp).1 same in
      elim (Bool-cases (exists (is_key prediction_key fp) rows)) [
        | inl there ↦
            let (q, found, _) = exists_find prediction_key fp rows there in
            (
              predicted (prediction_row now result.prediction) q,
              looked_up now result rows fp ∙ rw (hit, there, found) refl,
              (refl, word_lem result.prediction.severity, refl, refl, refl, refl),
            )
        | inr new ↦ (
          prediction_row now result.prediction,
          looked_up now result rows fp ∙ rw (hit, new) refl,
          (refl, word_lem result.prediction.severity, refl, refl, refl, refl),
        )
      ]

  pub found_other :
      (now : DateTime) (result : PredictionResult F) (rows : List (RenewalPredictionRow F))
      (fp : Fingerprint)
      → bytes_eq result.prediction.cert_fingerprint fp ≡ false
      → find prediction_key fp (and_rows now result rows) ≡ find prediction_key fp rows
  found_other now result rows fp miss = looked_up now result rows fp ∙ rw miss refl

  -- No operation to come fails, and the two tables are as given.
  abbrev pub Has : List CertificateRow → List (RenewalPredictionRow F) → Database F → Type 0
  Has certs rows db = Quiet db × (db.certificates ≡ certs) × (db.renewal_predictions ≡ rows)

  directive-Has :
      (uuid_text : ℕ → Text) (certs : List CertificateRow) (rows : List (RenewalPredictionRow F))
      (directive : Option ActionDirective) (counts : ReevaluationResult) (db : Database F)
      → Has certs rows db
      → Yields (λ r. Has certs rows) (store_directive uuid_text directive counts db)
  unfolding store_directive insert_action_directive blocking
  directive-Has uuid_text certs rows none counts db h = (counts, refl, h)
  directive-Has uuid_text certs rows (some d) counts db (quiet, same, preds) =
      (_, refl, rw quiet (ground arith))

  pub stored :
      (row : RenewalPredictionRow F) (certs : List CertificateRow)
      (rows : List (RenewalPredictionRow F)) (db : Database F)
      → exists (is_key cert_key row.cert_fingerprint) certs ≡ true
      → Has certs rows db
      → upsert_renewal_prediction row db ≡ (
        ok tt,
        record db { renewal_predictions = upsert prediction_key row (predicted row) rows },
      )
  unfolding upsert_renewal_prediction blocking
  stored row certs rows db certified (quiet, same, preds) =
      rw (quiet, same, preds, certified, allowed) refl
    where
      allowed : (not (exists (is_key prediction_key row.cert_fingerprint) rows) && false) ≡ false
      allowed = ground arith

  pub result-Has :
      (uuid_text : ℕ → Text) (now : DateTime) (certs : List CertificateRow)
      (rows : List (RenewalPredictionRow F)) (result : PredictionResult F)
      (counts : ReevaluationResult) (db : Database F)
      → exists (is_key cert_key result.prediction.cert_fingerprint) certs ≡ true
      → Has certs rows db
      → Yields
          (λ r. Has certs (and_rows now result rows))
          (store_result uuid_text now result counts db)
  unfolding store_result prediction_row
  result-Has uuid_text now certs rows result counts db certified (quiet, same, preds) =
      subst
        (λ (u : Result StorageError (Unit {0}) × Database F).
          Yields {E = Stop} (λ (r : ReevaluationResult). Has certs (and_rows now result rows))
            (elim u.0 [
              | ok _ ↦
                  store_directive uuid_text result.directive
                    (record counts { predictions_updated = suc_u32 counts.predictions_updated }) u.1
              | err e ↦ (ok (record counts { errors = suc_u32 counts.errors }), u.1)
            ]))
        (sym (
          stored (prediction_row now result.prediction) certs rows db certified
            (quiet, same, preds)))
        (directive-Has uuid_text certs (and_rows now result rows) result.directive _ _
          (quiet, same, refl))

  -- The step ends by the panic of a prediction, or succeeds.
  abbrev pub Ends : {A : Type 0} → (A → Database F → Type 0) → Result Stop A × Database F → Type 0
  Ends P r = (r.0 ≡ err panicked) ⊎ Yields P r

  pub bind-Ends :
      {A B : Type 0} (P : A → Database F → Type 0) (Q : B → Database F → Type 0)
      (m : Exec (Database F) Stop A) (f : A → Exec (Database F) Stop B) (db : Database F)
      → Ends P (m db)
      → ((a : A) (db' : Database F) → P a db' → Ends Q (f a db'))
      → Ends Q ((m >>= f) db)
  bind-Ends P Q m f db ends rest = elim ends [
    | inl panics ↦ inl (ap (λ r. (continue r f (m db).1).0) panics)
    | inr (a, same, h) ↦ subst (λ r. Ends Q (continue r f (m db).1)) (sym same) (rest a (m db).1 h)
  ]
