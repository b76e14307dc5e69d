-- ===== src/Analyzer/Anomaly.antt =====
-- crates/tlapix-analyzer/src/anomaly.rs: the rule-based detector. The clock is read by two of the
-- rules, so a run takes two instants; the upper case of a text is that of Unicode, a parameter.
pub mod Rules
pub mod Directives
use tlapix.Common.{
  ℕ, ◌+◌, Bool, true, false, not, Option, none, some, List, [], ◌∷◌, ◌++◌, map, take, ltb, ◌==◌,
  ◌||◌, if◌then◌else◌, bytes_eq,
}
use tlapix.Common.Int.{ℤ, pos, ltb_ℤ, ◌-ℤ◌}
use tlapix.Common.Text.{Text, text, is_empty}
use tlapix.Common.Time.{DateTime, num_days, as_u32}
use tlapix.Common.Decimal.{show, show_ℤ}
use tlapix.Types.{
  CertificateMetadata, Severity, medium, high, critical, AnomalyType, policy_violation,
  weak_cryptography, sni_mismatch, expired_certificate, near_expiry,
}
use tlapix.Types.Completeness
use tlapix.Types.Completeness.{has, lacks}
use tlapix.Analyzer.SniMatch.{sni_matches_any_san}

pub record AnomalyDetectorConfig : Type 0 where
  pub near_expiry_threshold_days : ℤ
  pub max_validity_days : ℤ
  pub min_rsa_key_size : ℕ
  pub min_ecdsa_key_size : ℕ

abbrev pub default_config : AnomalyDetectorConfig
default_config = record {
  near_expiry_threshold_days = pos 30;
  max_validity_days = pos 398;
  min_rsa_key_size = 2048;
  min_ecdsa_key_size = 256;
}

abbrev pub Anomalies : Type 0
Anomalies = List (AnomalyType × Severity)

unfoldable pub policy_reason : ℤ → ℤ → Text
policy_reason days max =
    text "Validity period of "
    ++ (show_ℤ days ++ (text " days exceeds maximum of " ++ (show_ℤ max ++ text " days")))

unfoldable pub check_policy_violation :
    AnomalyDetectorConfig → CertificateMetadata → Anomalies → Anomalies
check_policy_violation config m anomalies =
    let days = num_days (m.not_after -ℤ m.not_before) in
    if not (has m.completeness_flags (Completeness.not_before + Completeness.not_after))
    then anomalies
    else if ltb_ℤ config.max_validity_days days
    then anomalies ++ (policy_violation (policy_reason days config.max_validity_days), medium) ∷ []
    else anomalies

-- The `match` on the algorithm in upper case.
unfoldable pub key_is_weak : ℕ → ℕ → Text → ℕ → Bool
unfolding bytes_eq
key_is_weak min_rsa min_ecdsa algorithm size =
    if bytes_eq algorithm (text "RSA")
    then ltb size min_rsa
    else if bytes_eq algorithm (text "ECDSA") || bytes_eq algorithm (text "EC")
    then ltb size min_ecdsa
    else false

unfoldable pub check_sni_mismatch : CertificateMetadata → Anomalies → Anomalies
check_sni_mismatch m anomalies =
    if lacks m.completeness_flags Completeness.sans then anomalies else elim m.sni_hostname [
      | none ↦ anomalies
      | some sni ↦
          if is_empty sni || is_empty m.sans
          then anomalies
          else if not (sni_matches_any_san sni m.sans)
          then anomalies ++ (sni_mismatch sni m.sans, high) ∷ []
          else anomalies
    ]

unfoldable pub check_expired : DateTime → CertificateMetadata → Anomalies → Anomalies
check_expired now m anomalies =
    if lacks m.completeness_flags Completeness.not_after
    then anomalies
    else if ltb_ℤ m.not_after now
    then anomalies ++ (expired_certificate, critical) ∷ []
    else anomalies

unfoldable pub check_near_expiry :
    AnomalyDetectorConfig → DateTime → CertificateMetadata → Anomalies → Anomalies
check_near_expiry config now m anomalies =
    let days_remaining = num_days (m.not_after -ℤ now) in
    if lacks m.completeness_flags Completeness.not_after
    then anomalies
    else if not (ltb_ℤ now m.not_after)
    then anomalies
    else if ltb_ℤ days_remaining config.near_expiry_threshold_days
    then anomalies ++ (near_expiry (as_u32 days_remaining), high) ∷ []
    else anomalies

module _ (to_uppercase : Text → Text) where
  unfoldable pub check_weak_cryptography :
      AnomalyDetectorConfig → CertificateMetadata → Anomalies → Anomalies
  check_weak_cryptography config m anomalies =
      if not (has m.completeness_flags (Completeness.key_algorithm + Completeness.key_size))
      then anomalies
      else if key_is_weak config.min_rsa_key_size config.min_ecdsa_key_size
          (to_uppercase m.key_algorithm) m.key_size
      then anomalies ++ (weak_cryptography m.key_algorithm m.key_size, critical) ∷ []
      else anomalies

  -- `now` and `later` are what the two rules on expiry read from the clock.
  unfoldable pub detect :
      AnomalyDetectorConfig → DateTime → DateTime → CertificateMetadata → Anomalies
  detect config now later m = check_near_expiry config later m (
      check_expired now m (
        check_sni_mismatch m
          (check_weak_cryptography config m (check_policy_violation config m []))))
