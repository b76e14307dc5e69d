-- ===== src/Analyzer/Renewal/Scheduler/Stored.antt =====
-- After a cycle of crates/tlapix-analyzer/src/renewal_scheduler.rs the certificates that expire soon have
-- their predictions in the storage.
use tlapix.Common.{◌*◌}
use tlapix.Common.Int.{◌≤ℤ◌, ◌+ℤ◌, ◌*ℤ◌}
use tlapix.Common.{◌∙◌, sym, ap, subst}
use tlapix.Storage.Sql.{IsUnique}
use tlapix.Storage.Records.{prediction_key}
use tlapix.Common.{
  ℕ, ◌≡◌, inl, inr, refl, sym, subst, true, none, some, List, map, length, ◌==◌, ◌%◌, ◌^◌, ok, Exec,
  map_err, bind_step, map_err_step, arith,
}
use tlapix.Common.Int.{ℤ, pos, ◌-ℤ◌}
use tlapix.Common.Text.{Text}
use tlapix.Common.Time.{DateTime}
use tlapix.Types.{Fingerprint, CertificateMetadata}
use tlapix.Storage.Rows.{
  Json, of_millis, CertificateRow, RenewalPredictionRow, row_to_certificate_metadata,
}
use tlapix.Storage.Sql.{select_where, find}
use tlapix.Storage.Database.{StorageError, Database, blocking, Quiet}
use tlapix.Storage.Certificates.{cert_key, list_certificates_expiring_within_days}
use tlapix.Analyzer.Renewal.{Float, PredictionResult, predict}
use tlapix.Analyzer.Renewal.Predicted.{is_within}
use tlapix.Analyzer.Renewal.Scheduler.{ReevaluationResult, Stop, reevaluate_loop, run_reevaluation}
use tlapix.Analyzer.Renewal.Scheduler.Listed.{
  Every, is_due, some_injective, every_found, found_key, at_found, listed-Known,
}
use tlapix.Analyzer.Renewal.Scheduler.Step.{StoredAs, Ends}
use tlapix.Analyzer.Renewal.Scheduler.Kept.{HasPrediction, IsPredicted, loop-After}

due_lem :
    (query_ms : ℤ) (row : CertificateRow)
    → row.not_after ≤ℤ query_ms +ℤ pos (30 * 24 * 60 * 60 * 1000)
    → is_due query_ms row ≡ true
unfolding ◌*ℤ◌
due_lem query_ms row h = ground arith

-- Under a fingerprint, a prediction for the certificate of a row at an instant.
abbrev pub IsPredictedFrom :
    {F : Type 0}
    → Float F
    → Json
    → (ℕ → ℕ)
    → (ℕ → ℕ)
    → DateTime
    → CertificateRow
    → List (RenewalPredictionRow F)
    → Fingerprint
    → Type 0
IsPredictedFrom {F} float json id correlation_id now row rows fp =
    (p : RenewalPredictionRow F) × (i : ℕ) × (r : PredictionResult F) × (find prediction_key fp rows
      ≡ some p)
    × (predict float (id i) (correlation_id i) now (row_to_certificate_metadata json row) none
        ≡ some (some r))
    × StoredAs now r.prediction p

module _ {F : Type 0} (float : Float F) (json : Json) (uuid_text : ℕ → Text)
    (error_text : StorageError → Text) (id correlation_id : ℕ → ℕ) (now : DateTime) where
  -- Where no operation of the storage fails, its fingerprints have 32 bytes and each is that of one
  -- certificate, a cycle ends by the panic of a prediction, or it succeeds, and a stored certificate
  -- that expires at most 30 days after the query and has less than 31 days left has in the storage the prediction that the
  -- cycle made for it: its probability, severity, days, renewal activity and reasoning, and the time.
  pub run_reevaluation-predicts :
      (query_ms : ℤ) (fp : Fingerprint) (row : CertificateRow) (db : Database F)
      → Quiet db
      → IsUnique cert_key db.certificates
      → Every (λ (r : CertificateRow). (length r.fingerprint == 32) ≡ true) db.certificates
      → find cert_key fp db.certificates ≡ some row
      → row.not_after ≤ℤ query_ms +ℤ pos (30 * 24 * 60 * 60 * 1000)
      → is_within 31 (of_millis row.not_after -ℤ now) ≡ true
      → Ends
          (λ counts db'.
            IsPredictedFrom float json id correlation_id now row db'.renewal_predictions fp)
          (run_reevaluation float json uuid_text error_text id correlation_id now query_ms db)
  unfolding run_reevaluation list_certificates_expiring_within_days blocking
      row_to_certificate_metadata
  run_reevaluation-predicts query_ms fp row db quiet unique digests found due near =
      let ends =
        loop-After float json uuid_text error_text id correlation_id now db.certificates 0 listed
          (start listed) db
          (listed-Known json db.certificates (λ r. is_due query_ms r) db.certificates unique digests
            (λ r there. there))
          (quiet, refl, refl) in
      subst
        (Ends (λ counts db'.
          IsPredictedFrom float json id correlation_id now row db'.renewal_predictions fp))
        (sym (
          bind_step read predict_all {s = db} (
            map_err_step as_stop (list_certificates_expiring_within_days json query_ms (pos 30))
              {s = db} queried)))
        (elim ends [
          | inl panics ↦ inl panics
          | inr (r, ended, (has, all, more)) ↦ inr (
            r,
            ended,
            of_row (predict_all listed db).1.renewal_predictions (
                at_found json db.certificates
                  (IsPredicted float json uuid_text error_text id correlation_id now db.certificates
                    (predict_all listed db).1.renewal_predictions)
                  (λ q. is_due query_ms q) fp db.certificates found (due_lem query_ms row due) all
                  near),
          )
        ])
    where
      listed : List CertificateMetadata
      listed =
          map (row_to_certificate_metadata json)
            (select_where (λ r. is_due query_ms r) db.certificates)

      queried : list_certificates_expiring_within_days json query_ms (pos 30) db ≡ (ok listed, db)
      queried = rw quiet refl

      start : List CertificateMetadata → ReevaluationResult
      start certs = record {
        certificates_evaluated = length certs % 2 ^ 32;
        predictions_updated = 0;
        directives_generated = 0;
        errors = 0;
      }

      as_stop : StorageError → Stop
      as_stop e = Stop.storage (error_text e)

      read : Exec (Database F) Stop (List CertificateMetadata)
      read = map_err as_stop (list_certificates_expiring_within_days json query_ms (pos 30))

      predict_all : List CertificateMetadata → Exec (Database F) Stop ReevaluationResult
      predict_all certs =
          reevaluate_loop float json uuid_text error_text id correlation_id now 0 certs
            (start certs)

      key_is : (row_to_certificate_metadata json row).fingerprint ≡ fp
      key_is =
          rw
            (every_found (λ r. (length r.fingerprint == 32) ≡ true) fp db.certificates found
              digests)
            (found_key fp db.certificates found)

      of_row :
          (rows : List (RenewalPredictionRow F))
          → HasPrediction float json uuid_text error_text id correlation_id now db.certificates rows
              (row_to_certificate_metadata json row).fingerprint
          → IsPredictedFrom float json id correlation_id now row rows fp
      of_row rows (p, i, cert, r, held, same, (q, stored_under, read), made, as_it) =
          let is_row = some_injective (
            sym (subst (λ k. find cert_key k db.certificates ≡ some q) (same ∙ key_is) stored_under)
            ∙ found) in
          (
            p,
            i,
            r,
            subst (λ k. find prediction_key k rows ≡ some p) key_is held,
            subst (λ c. predict float (id i) (correlation_id i) now c none ≡ some (some r))
                (sym read ∙ ap (row_to_certificate_metadata json) is_row) made,
            as_it,
          )
