-- ===== src/Analyzer/Renewal/Scheduler/Kept.antt =====
-- The predictions that a cycle of crates/tlapix-analyzer/src/renewal_scheduler.rs stores stay stored.
use tlapix.Common.{bytes_eq, bytes_eq_iff, Bool-cases, ◌∙◌, sym, subst}
use tlapix.Storage.Sql.Laws.{find_exists}
use tlapix.Storage.Records.{prediction_key}
use tlapix.Common.{
  ℕ, suc, ◌≡◌, inl, inr, refl, sym, subst, true, none, some, List, [], ◌∷◌, Yields, arith,
}
use tlapix.Common.Int.{◌-ℤ◌}
use tlapix.Common.Text.{Text}
use tlapix.Common.Time.{DateTime}
use tlapix.Types.{Fingerprint, CertificateMetadata}
use tlapix.Storage.Rows.{Json, CertificateRow, RenewalPredictionRow}
use tlapix.Storage.Sql.{find}
use tlapix.Storage.Database.{StorageError, Database}
use tlapix.Storage.Certificates.{cert_key}
use tlapix.Analyzer.Renewal.{Float, PredictionResult, predict}
use tlapix.Analyzer.Renewal.Predicted.{is_within, predict-Assessment}
use tlapix.Analyzer.Renewal.Scheduler.{
  ReevaluationResult, prediction_row, store_result, store_predicted, reevaluate_loop,
}
use tlapix.Analyzer.Renewal.Scheduler.Listed.{Every, Known}
use tlapix.Analyzer.Renewal.Scheduler.Step.{
  StoredAs, and_rows, found_new, found_other, Has, result-Has, Ends, bind-Ends,
}

module _ {F : Type 0} (float : Float F) (json : Json) (uuid_text : ℕ → Text)
    (error_text : StorageError → Text) (id correlation_id : ℕ → ℕ) (now : DateTime)
    (certs : List CertificateRow) where
  -- A row of the table holds a prediction of the cycle for the stored certificate of that fingerprint.
  abbrev pub HasPrediction : List (RenewalPredictionRow F) → Fingerprint → Type 0
  HasPrediction rows fp =
      (row : RenewalPredictionRow F) × (i : ℕ) × (cert : CertificateMetadata)
      × (r : PredictionResult F) × (find prediction_key fp rows ≡ some row)
      × (cert.fingerprint ≡ fp)
      × Known json certs cert
      × (predict float (id i) (correlation_id i) now cert none ≡ some (some r))
      × StoredAs now r.prediction row

  -- A certificate with less than 31 days left has its prediction.
  abbrev pub IsPredicted : List (RenewalPredictionRow F) → CertificateMetadata → Type 0
  IsPredicted rows cert =
      is_within 31 (cert.not_after -ℤ now) ≡ true → HasPrediction rows cert.fingerprint

  -- The fingerprints that have a prediction of the cycle keep one.
  abbrev pub Grows : List (RenewalPredictionRow F) → List (RenewalPredictionRow F) → Type 0
  Grows rows rows' = (fp : Fingerprint) → HasPrediction rows fp → HasPrediction rows' fp

  abbrev pub After : List (RenewalPredictionRow F) → List CertificateMetadata → Database F → Type 0
  After rows done db =
      Has certs db.renewal_predictions db
      × Every (IsPredicted db.renewal_predictions) done
      × Grows rows db.renewal_predictions

  new-HasPrediction :
      (i : ℕ) (cert : CertificateMetadata) (rows : List (RenewalPredictionRow F))
      (result : PredictionResult F) (fp : Fingerprint)
      → predict float (id i) (correlation_id i) now cert none ≡ some (some result)
      → result.prediction.cert_fingerprint ≡ cert.fingerprint
      → Known json certs cert
      → cert.fingerprint ≡ fp
      → HasPrediction (and_rows now result rows) fp
  new-HasPrediction i cert rows result fp made same known is_it =
      let (row, found, as_it) = found_new now result rows fp (same ∙ is_it) in
      (row, i, cert, result, found, is_it, known, made, as_it)

  rows-Grows :
      (i : ℕ) (cert : CertificateMetadata) (rows : List (RenewalPredictionRow F))
      (result : PredictionResult F)
      → predict float (id i) (correlation_id i) now cert none ≡ some (some result)
      → result.prediction.cert_fingerprint ≡ cert.fingerprint
      → Known json certs cert
      → Grows rows (and_rows now result rows)
  rows-Grows i cert rows result made same known fp
        (row, j, old, r, found, its, old_known, old_made, as_it) =
      elim (Bool-cases (bytes_eq result.prediction.cert_fingerprint fp)) [
        | inl hit ↦
            new-HasPrediction i cert rows result fp made same known
              (sym same ∙ (bytes_eq_iff result.prediction.cert_fingerprint fp).0 hit)
        | inr miss ↦ (
          row,
          j,
          old,
          r,
          found_other now result rows fp miss ∙ found,
          its,
          old_known,
          old_made,
          as_it,
        )
      ]

  result-After :
      (i : ℕ) (cert : CertificateMetadata) (rows : List (RenewalPredictionRow F))
      (result : PredictionResult F) (counts : ReevaluationResult) (db : Database F)
      → predict float (id i) (correlation_id i) now cert none ≡ some (some result)
      → result.prediction.cert_fingerprint ≡ cert.fingerprint
      → Known json certs cert
      → Has certs rows db
      → Yields (λ r. After rows (cert ∷ [])) (store_result uuid_text now result counts db)
  unfolding prediction_row
  result-After i cert rows result counts db made same known h =
      let (q, stored_under, _) = known in
      let certified =
        find_exists cert_key result.prediction.cert_fingerprint certs
          (subst (λ k. find cert_key k certs ≡ some q) (sym same) stored_under) in
      let (counts', ended, (calm, kept, preds)) =
        result-Has uuid_text now certs rows result counts db certified h in
      (
        counts',
        ended,
        (
          (calm, kept, refl),
          (
            (λ near.
                subst (λ t. HasPrediction t cert.fingerprint) (sym preds)
                  (new-HasPrediction i cert rows result cert.fingerprint made same known refl)),
            tt,
          ),
          (λ fp old.
              subst (λ t. HasPrediction t fp) (sym preds)
                (rows-Grows i cert rows result made same known fp old)),
        ),
      )

  one-After :
      (i : ℕ) (cert : CertificateMetadata) (counts : ReevaluationResult) (db : Database F)
      → Known json certs cert
      → Has certs db.renewal_predictions db
      → Ends
          (λ r. After db.renewal_predictions (cert ∷ []))
          (store_predicted float json uuid_text error_text id correlation_id now
            (predict float (id i) (correlation_id i) now cert none)
            counts
            db)
  unfolding store_predicted
  one-After i cert counts db known h =
      elim (predict-Assessment float (id i) (correlation_id i) now cert none) [
        | inl (far, nothing) ↦
            rw nothing
              (inr (counts, refl, (h, ((λ near. absurd (ground arith)), tt), (λ fp old. old))))
        | inr (near, outcome) ↦ elim outcome [
          | inl panics ↦ rw panics (inl refl)
          | inr (r, made, (same, severity, rest)) ↦
              rw made
                (inr (result-After i cert db.renewal_predictions r counts db made same known h))
        ]
      ]

  pub loop-After :
      (i : ℕ) (todo : List CertificateMetadata) (counts : ReevaluationResult) (db : Database F)
      → Every (Known json certs) todo
      → Has certs db.renewal_predictions db
      → Ends
          (λ r. After db.renewal_predictions todo)
          (reevaluate_loop float json uuid_text error_text id correlation_id now i todo counts db)
  unfolding reevaluate_loop
  loop-After i [] counts db certified h = inr (counts, refl, (h, tt, (λ fp old. old)))
  loop-After i (cert ∷ todo) counts db (here, certified) h =
      bind-Ends (λ r. After db.renewal_predictions (cert ∷ []))
        (λ r. After db.renewal_predictions (cert ∷ todo))
        (store_predicted float json uuid_text error_text id correlation_id now
          (predict float (id i) (correlation_id i) now cert none) counts)
        _ db (one-After i cert counts db here h)
        (λ so_far db1 (has, (first, u), grows).
          elim (loop-After (suc i) todo so_far db1 certified has) [
            | inl panics ↦ inl panics
            | inr (result, ended, (has', rest, more)) ↦ inr (
              result,
              ended,
              (
                has',
                ((λ near. more cert.fingerprint (first near)), rest),
                (λ fp old. more fp (grows fp old)),
              ),
            )
          ])
