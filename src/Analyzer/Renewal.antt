-- ===== src/Analyzer/Renewal.antt =====
-- crates/tlapix-analyzer/src/renewal.rs: the prediction of failed renewals. Floating-point numbers are a
-- parameter with the operations that the code uses; the identifiers of a directive are parameters. The
-- days until expiry of instants in the range of chrono fit an i32. A panic is `none`.
pub mod Predicted
pub mod Scheduler
mod Tests
use tlapix.Common.{
  ℕ, zero, suc, ◌+◌, ◌-◌, Bool, true, false, not, ◌&&◌, Option, none, some, List, [], ◌∷◌, ◌++◌,
  if◌then◌else◌, ltb, leb, ◌==◌, length,
}
use tlapix.Common.Int.{ℤ, pos, negsuc, ltb_ℤ, ◌-ℤ◌}
use tlapix.Common.Text.{Text, text, is_empty}
use tlapix.Common.Time.{DateTime, num_days}
use tlapix.Common.Decimal.{show, show_ℤ}
use tlapix.Types.{
  Fingerprint, CertificateMetadata, Severity, alert, renew, ActionType, ActionDirective,
}
use tlapix.Analyzer.Reasoning.{truncate}

-- The operations of f64: the value of a decimal literal, of an integer, and `{:.0}`.
pub record Float (F : Type 0) : Type 0 where
  pub literal : Text → F
  pub of_int : ℤ → F
  pub add : F → F → F
  pub mul : F → F → F
  pub div : F → F → F
  pub min : F → F → F
  pub lt : F → F → Bool
  pub le : F → F → Bool
  pub show_rounded : F → Text

pub record RenewalHistory (F : Type 0) : Type 0 where
  pub previous_renewal_days : List ℤ
  pub past_failures : ℕ
  pub issuer_avg_response_days : F

-- crates/tlapix-common/src/types.rs
pub record RenewalPrediction (F : Type 0) : Type 0 where
  pub cert_fingerprint : Fingerprint
  pub failure_probability : F
  pub days_until_expiry : ℤ
  pub severity : Severity
  pub reasoning : Text
  pub last_evaluated : DateTime
  pub renewal_activity_detected : Bool

pub record PredictionResult (F : Type 0) : Type 0 where
  pub prediction : RenewalPrediction F
  pub directive : Option ActionDirective

-- `clamp(0, 30)`, taken from 30.
abbrev pub days_passed : ℤ → ℤ
days_passed (pos n) = pos (30 - n)
days_passed (negsuc n) = pos 30

abbrev pub is_positive : ℤ → Bool
is_positive d = ltb_ℤ (pos 0) d

-- `-d`
abbrev pub negated : ℤ → ℤ
negated d = pos 0 -ℤ d

-- `join(". ")`
unfoldable pub join_sentences : List Text → Text
join_sentences [] = []
join_sentences (s ∷ []) = s
join_sentences (s ∷ t ∷ rest) = s ++ (text ". " ++ join_sentences (t ∷ rest))

-- `chars().take(n)`: a byte from 128 to 191 continues a character.
unfoldable pub take_chars : ℕ → Text → Text
take_chars n [] = []
take_chars zero (b ∷ s) =
    let rest = take_chars zero s in if leb 128 b && ltb b 192 then b ∷ rest else []
take_chars (suc n) (b ∷ s) =
    let same = take_chars (suc n) s in
    let next = take_chars n s in if leb 128 b && ltb b 192 then b ∷ same else b ∷ next

-- Past the day of expiry, or close to it with no renewal under way.
unfoldable pub determine_severity : ℤ → Bool → Severity
determine_severity days renewal_activity_detected =
    if not (is_positive days)
    then Severity.critical
    else if ltb_ℤ days (pos 14) && not renewal_activity_detected
    then Severity.critical
    else if ltb_ℤ days (pos 14)
    then Severity.high
    else Severity.medium

module _ {F : Type 0} (float : Float F) where
  -- `sum::<f64>()`, from the left.
  unfoldable pub sum_days : F → List ℤ → F
  sum_days so_far [] = so_far
  sum_days so_far (d ∷ days) = sum_days (float.add so_far (float.of_int d)) days

  abbrev pub average : List ℤ → F
  average days =
      float.div (sum_days (float.literal (text "0.0")) days) (float.of_int (pos (length days)))

  unfoldable pub has_renewal_activity : Option (RenewalHistory F) → ℤ → Bool
  unfolding sum_days
  has_renewal_activity none days = false
  has_renewal_activity (some h) days =
      if is_empty h.previous_renewal_days
      then false
      else is_positive days
        && float.lt (float.of_int days) (average h.previous_renewal_days)
        && h.past_failures == 0

  unfoldable pub calculate_probability : ℤ → Option (RenewalHistory F) → Bool → F
  calculate_probability days none renewal_activity_detected =
      float.add (float.literal (text "0.5"))
        (float.mul (float.of_int (days_passed days)) (float.literal (text "0.015")))
  calculate_probability days (some h) renewal_activity_detected =
      let base = float.literal (if renewal_activity_detected then text "0.2" else text "0.4") in
      let failure_factor =
        float.min (float.mul (float.of_int (pos h.past_failures)) (float.literal (text "0.1")))
          (float.literal (text "0.3")) in
      let issuer_factor =
        if is_positive days
        then (if float.lt (float.of_int days) h.issuer_avg_response_days
            then float.literal (text "0.3")
            else float.literal (text "0.0"))
        else float.literal (text "0.4") in
      let time_factor =
        float.mul (float.of_int (days_passed days)) (float.literal (text "0.008")) in
      float.min (float.add (float.add (float.add base failure_factor) issuer_factor) time_factor)
        (float.literal (text "1.0"))

  unfoldable pub history_parts : Option (RenewalHistory F) → List Text
  unfolding sum_days
  history_parts none = text "No historical renewal data available" ∷ []
  history_parts (some h) =
      (if is_empty h.previous_renewal_days
        then []
        else (text "Historical avg renewal: "
            ++ (float.show_rounded (average h.previous_renewal_days) ++ text " days before expiry"))
          ∷ [])
      ++ (if ltb 0 h.past_failures
          then (show h.past_failures ++ text " past renewal failures") ∷ []
          else [])

  unfoldable pub renewal_reasoning : ℤ → F → Option (RenewalHistory F) → Bool → Option Text
  unfolding join_sentences history_parts truncate
  renewal_reasoning days probability history renewal_activity_detected = truncate (
      join_sentences (
        (if is_positive days
          then text "Certificate expires in " ++ (show_ℤ days ++ text " days")
          else text "Certificate expired " ++ (show_ℤ (negated days) ++ text " days ago"))
        ∷ (text "Failure probability: "
            ++ (float.show_rounded (float.mul probability (float.literal (text "100.0")))
                ++ text "%"))
        ∷ (if renewal_activity_detected
            then text "Renewal activity detected"
            else text "No renewal activity detected")
        ∷ history_parts history))

  module _ (id correlation_id : ℕ) (now : DateTime) where
    abbrev pub directive_of : CertificateMetadata → ActionType → Severity → Text → ActionDirective
    directive_of metadata action severity reasoning = record {
      id = id;
      correlation_id = correlation_id;
      cert_fingerprint = metadata.fingerprint;
      action_type = action;
      severity = severity;
      reasoning = take_chars 500 reasoning;
      created_at = now;
      source_anomaly = none;
      attempt_count = 0;
    }

    unfoldable pub intervention :
        CertificateMetadata → ℤ → F → Severity → Text → Option ActionDirective
    unfolding take_chars
    intervention metadata days probability severity reasoning =
        if not (is_positive days)
        then some (
            directive_of metadata alert Severity.critical (
              text "Certificate expired "
              ++ (show_ℤ (negated days) ++ (text " days ago without renewal. " ++ reasoning))))
        else if float.le (float.literal (text "0.7")) probability
        then some (directive_of metadata renew severity reasoning)
        else none

    abbrev pub result_of : CertificateMetadata → ℤ → F → Severity → Bool → Text → PredictionResult F
    result_of metadata days probability severity active reasoning = record {
      prediction = record {
        cert_fingerprint = metadata.fingerprint;
        failure_probability = probability;
        days_until_expiry = days;
        severity = severity;
        reasoning = reasoning;
        last_evaluated = now;
        renewal_activity_detected = active;
      };
      directive = intervention metadata days probability severity reasoning;
    }

    -- `some none` is no prediction.
    unfoldable pub predict :
        CertificateMetadata → Option (RenewalHistory F) → Option (Option (PredictionResult F))
    unfolding num_days has_renewal_activity calculate_probability determine_severity
        renewal_reasoning intervention
    predict metadata history =
        let days = num_days (metadata.not_after -ℤ now) in
        if ltb_ℤ (pos 30) days
        then some none
        else let active = has_renewal_activity history days in
          let probability = calculate_probability days history active in
          let severity = determine_severity days active in
          elim (renewal_reasoning days probability history active) [
            | none ↦ none
            | some reasoning ↦
                some (some (result_of metadata days probability severity active reasoning))
          ]
