-- ===== src/Analyzer/Renewal/Predicted.antt =====
-- What a prediction of crates/tlapix-analyzer/src/renewal.rs says, by the time that remains.
use tlapix.Common.{
  ℕ, ◌*◌, ◌≡◌, ◌⊎◌, inl, inr, refl, Bool, true, false, not, ◌&&◌, ◌||◌, Option, none, some, ◌++◌,
  if◌then◌else◌, Bool-cases, Option-cases, arith,
}
use tlapix.Common.Int.{ℤ, pos, negsuc, ltb_ℤ, ◌-ℤ◌}
use tlapix.Common.Text.{Text, text}
use tlapix.Common.Time.{DateTime, num_days, ns_per_day}
use tlapix.Common.Decimal.{show_ℤ}
use tlapix.Types.{CertificateMetadata, Severity, ActionType, alert, renew, ActionDirective}
use tlapix.Analyzer.Renewal.{
  Float, RenewalHistory, PredictionResult, negated, directive_of, result_of, is_positive,
  determine_severity, has_renewal_activity, calculate_probability, renewal_reasoning, intervention,
  predict,
}

-- Less than so many days remain.
abbrev pub is_within : ℕ → ℤ → Bool
is_within days remaining = ltb_ℤ remaining (pos (days * ns_per_day))

within_day : (d : ℤ) → is_positive (num_days d) ≡ not (is_within 1 d)
unfolding num_days
within_day (pos n) = ground arith
within_day (negsuc n) = ground arith

within_two_weeks : (d : ℤ) → ltb_ℤ (num_days d) (pos 14) ≡ is_within 14 d
unfolding num_days
within_two_weeks (pos n) = ground arith
within_two_weeks (negsuc n) = ground arith

within_month : (d : ℤ) → ltb_ℤ (pos 30) (num_days d) ≡ not (is_within 31 d)
unfolding num_days
within_month (pos n) = ground arith
within_month (negsuc n) = ground arith

-- The severity by the time that remains.
abbrev pub severity_within : ℤ → Bool → Severity
severity_within remaining active =
    if is_within 1 remaining || (is_within 14 remaining && not active)
    then Severity.critical
    else if is_within 14 remaining
    then Severity.high
    else Severity.medium

severity_lem :
    (d : ℤ) (active : Bool) → determine_severity (num_days d) active ≡ severity_within d active
unfolding determine_severity
severity_lem d active = rw (determine_severity, within_day d, within_two_weeks d) (ground arith)

-- A directive of an action at a severity for the certificate.
abbrev pub IsDirective :
    CertificateMetadata → ActionType → Severity → Option ActionDirective → Type 0
IsDirective m action severity o =
    (d : ActionDirective) × (o ≡ some d)
    × (d.cert_fingerprint ≡ m.fingerprint)
    × (d.action_type ≡ action)
    × (d.severity ≡ severity)

expired_text : ℤ → Text → Text
expired_text d reasoning =
    text "Certificate expired "
    ++ (show_ℤ (negated (num_days d)) ++ (text " days ago without renewal. " ++ reasoning))

module _ {F : Type 0} (float : Float F) (id correlation_id : ℕ) (now : DateTime) where
  abbrev pub is_likely : F → Bool
  is_likely probability = float.le (float.literal (text "0.7")) probability

  -- With less than a day left an alert, else a renewal if failure is likely, else nothing.
  abbrev pub Intervention : CertificateMetadata → ℤ → F → Severity → Option ActionDirective → Type 0
  Intervention m remaining probability severity o =
      ((is_within 1 remaining ≡ true) × IsDirective m alert Severity.critical o)
      ⊎ (((is_within 1 remaining ≡ false)
            × (is_likely probability ≡ true)
            × IsDirective m renew severity o)
          ⊎ ((is_within 1 remaining ≡ false) × (is_likely probability ≡ false) × (o ≡ none)))

  abbrev pub Assessment : CertificateMetadata → ℤ → PredictionResult F → Type 0
  Assessment m remaining r =
      (r.prediction.cert_fingerprint ≡ m.fingerprint)
      × (r.prediction.severity ≡ severity_within remaining r.prediction.renewal_activity_detected)
      × Intervention m remaining r.prediction.failure_probability r.prediction.severity r.directive

  intervention_lem :
      (m : CertificateMetadata) (d : ℤ) (probability : F) (severity : Severity) (reasoning : Text)
      → Intervention m d probability severity
          (intervention float id correlation_id now m (num_days d) probability severity reasoning)
  unfolding intervention expired_text
  intervention_lem m d probability severity reasoning = elim (Bool-cases (is_within 1 d)) [
    | inl close ↦ inl (
      close,
      (
        directive_of float id correlation_id now m alert Severity.critical
            (expired_text d reasoning),
        rw (within_day d, close) refl,
        refl,
        refl,
        refl,
      ),
    )
    | inr far ↦ elim (Bool-cases (is_likely probability)) [
      | inl likely ↦ inr (
          inl (
            far,
            likely,
            (
              directive_of float id correlation_id now m renew severity reasoning,
              rw (within_day d, far, likely) refl,
              refl,
              refl,
              refl,
            ),
          ))
      | inr unlikely ↦ inr (inr (far, unlikely, rw (within_day d, far, unlikely) refl))
    ]
  ]

  -- A prediction is made exactly if less than 31 days remain, unless the cut of its reasoning panics.
  -- It is critical if less than a day remains, or less than 14 with no renewal under way, else high below
  -- 14 days and medium above. With less than a day left it comes with a critical alert, which says that
  -- the certificate has expired; otherwise with a renewal at its severity exactly if the probability of
  -- failure is at least 0.7.
  pub predict-Assessment :
      (m : CertificateMetadata) (history : Option (RenewalHistory F))
      → ((is_within 31 (m.not_after -ℤ now) ≡ false)
          × (predict float id correlation_id now m history ≡ some none))
        ⊎ ((is_within 31 (m.not_after -ℤ now) ≡ true)
            × ((predict float id correlation_id now m history ≡ none)
                ⊎ ((r : PredictionResult F) × (predict float id correlation_id now m history
                      ≡ some (some r))
                    × Assessment m (m.not_after -ℤ now) r)))
  unfolding predict
  predict-Assessment m history =
      let remaining = m.not_after -ℤ now in
      let days = num_days remaining in
      let active = has_renewal_activity float history days in
      let probability = calculate_probability float days history active in
      elim (Bool-cases (is_within 31 remaining)) [
        | inr far ↦ inl (far, rw (within_month remaining, far) refl)
        | inl near ↦ elim (Option-cases (renewal_reasoning float days probability history active)) [
          | inl panics ↦ inr (near, inl (rw (within_month remaining, near, panics) refl))
          | inr (reasoning, said) ↦ inr (
            near,
            inr (
              result_of float id correlation_id now m days probability
                  (determine_severity days active) active reasoning,
              rw (within_month remaining, near, said) refl,
              (
                refl,
                severity_lem remaining active,
                intervention_lem m remaining probability (determine_severity days active) reasoning,
              ),
            ),
          )
        ]
      ]
