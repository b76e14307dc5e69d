-- ===== src/Analyzer/Shadow.antt =====
-- crates/tlapix-analyzer/src/shadow.rs: certificates that the inventory does not know, by risk. The
-- case mappings of Unicode and the format of a date are parameters; each reading of the clock is an
-- argument.
pub mod Risk
pub mod Alerts
use tlapix.Common.{
  ℕ, ◌+◌, Bool, true, false, not, Option, none, some, List, [], ◌∷◌, ◌++◌, ◌||◌, ltb, if◌then◌else◌,
  bytes_eq,
}
use tlapix.Common.Int.{ℤ, pos, ltb_ℤ, ◌-ℤ◌}
use tlapix.Common.Text.{Text, text, eq_ignore_ascii_case, is_empty}
use tlapix.Common.Time.{DateTime, num_days}
use tlapix.Common.Decimal.{show, show_ℤ}
use tlapix.Types.{
  CertificateMetadata, Severity, alert, ActionDirective, RiskLevel, ShadowContext,
  ShadowClassification, known, shadow, deferred,
}
use tlapix.Analyzer.Reasoning.{truncate}

pub record ShadowClassifierConfig : Type 0 where
  pub max_validity_days : ℤ
  pub min_rsa_key_size : ℕ
  pub min_ecdsa_key_size : ℕ
  pub near_expiry_threshold_days : ℤ
  pub trusted_issuers : List Text

unfoldable pub is_self_signed : CertificateMetadata → Bool
unfolding eq_ignore_ascii_case
is_self_signed m = eq_ignore_ascii_case m.subject m.issuer

unfoldable pub has_long_validity : ShadowClassifierConfig → CertificateMetadata → Bool
has_long_validity config m = ltb_ℤ config.max_validity_days (num_days (m.not_after -ℤ m.not_before))

unfoldable pub has_near_expiry : ShadowClassifierConfig → DateTime → CertificateMetadata → Bool
has_near_expiry config now m =
    if not (ltb_ℤ now m.not_after)
    then false
    else ltb_ℤ (num_days (m.not_after -ℤ now)) config.near_expiry_threshold_days

unfoldable pub severity_of : RiskLevel → Severity
severity_of RiskLevel.critical = Severity.critical
severity_of RiskLevel.high = Severity.high
severity_of RiskLevel.medium = Severity.medium
severity_of RiskLevel.low = Severity.low

abbrev pub unreachable : Text
unreachable =
    text
      "Certificate inventory is unreachable; classification deferred until inventory becomes available"

abbrev or_unknown : Option Text → Text
or_unknown none = text "unknown"
or_unknown (some s) = s

module _ (to_uppercase to_lowercase : Text → Text) (config : ShadowClassifierConfig) where
  unfoldable pub has_weak_key : CertificateMetadata → Bool
  unfolding bytes_eq
  has_weak_key m =
      let algorithm = to_uppercase m.key_algorithm in
      if bytes_eq algorithm (text "RSA")
      then ltb m.key_size config.min_rsa_key_size
      else if bytes_eq algorithm (text "ECDSA") || bytes_eq algorithm (text "EC")
      then ltb m.key_size config.min_ecdsa_key_size
      else false

  -- `.any(|trusted| trusted.to_lowercase() == issuer_lower)`
  unfoldable pub any_trusted : List Text → Text → Bool
  any_trusted [] issuer_lower = false
  any_trusted (trusted ∷ rest) issuer_lower =
      bytes_eq (to_lowercase trusted) issuer_lower || any_trusted rest issuer_lower

  unfoldable pub has_untrusted_issuer : CertificateMetadata → Bool
  has_untrusted_issuer m =
      if is_empty config.trusted_issuers
      then false
      else not (any_trusted config.trusted_issuers (to_lowercase m.issuer))

  unfoldable pub determine_risk_level : DateTime → CertificateMetadata → RiskLevel
  determine_risk_level now m =
      if is_self_signed m || has_weak_key m
      then RiskLevel.critical
      else if has_untrusted_issuer m || has_long_validity config m
      then RiskLevel.high
      else if has_near_expiry config now m
      then RiskLevel.medium
      else RiskLevel.low

  unfoldable pub classify : DateTime → CertificateMetadata → Bool → Bool → ShadowClassification
  classify now m inventory_available in_inventory =
      if not inventory_available
      then deferred unreachable
      else if in_inventory
      then known
      else shadow (determine_risk_level now m) (record {
        source_ip = m.source_ip;
        destination = m.destination_ip;
        first_seen = m.first_seen;
      })

  -- The text before the cut. `format_date` is the format `%Y-%m-%dT%H:%M:%SZ` of a date.
  unfoldable pub describe : (DateTime → Text) → DateTime → CertificateMetadata → RiskLevel → Text
  describe format_date now m risk =
      reason risk
      ++ (text " | Origin: source_ip="
          ++ (or_unknown m.source_ip
              ++ (text ", destination="
                  ++ (or_unknown m.destination_ip
                      ++ (text ", first_seen=" ++ format_date m.first_seen)))))
    where
      reason : RiskLevel → Text
      reason RiskLevel.critical =
          if is_self_signed m
          then text "Shadow certificate is self-signed (subject == issuer: '"
            ++ (m.subject ++ text "')")
          else text "Shadow certificate uses weak key: "
            ++ (m.key_algorithm ++ (text " " ++ (show m.key_size ++ text " bits")))
      reason RiskLevel.high =
          if has_untrusted_issuer m
          then text "Shadow certificate has untrusted issuer: '" ++ (m.issuer ++ text "'")
          else text "Shadow certificate has excessive validity period: "
            ++ (show_ℤ (num_days (m.not_after -ℤ m.not_before))
                ++ (text " days (max: " ++ (show_ℤ config.max_validity_days ++ text ")")))
      reason RiskLevel.medium =
          text "Shadow certificate has "
          ++ (show_ℤ (num_days (m.not_after -ℤ now))
              ++ (text " days remaining (threshold: "
                  ++ (show_ℤ config.near_expiry_threshold_days ++ text ")")))
      reason RiskLevel.low =
          text
            "Shadow certificate detected with low risk: trusted issuer, adequate key strength, normal validity"

  -- `none` is the panic of the cut; `id` and `correlation_id` are fresh.
  unfoldable pub generate_directive :
      (DateTime → Text)
      → ℕ
      → ℕ
      → DateTime
      → DateTime
      → CertificateMetadata
      → RiskLevel
      → Option ActionDirective
  generate_directive format_date id correlation_id now created m risk =
      elim (truncate (describe format_date now m risk)) [
        | none ↦ none
        | some reasoning ↦ some (record {
          id = id;
          correlation_id = correlation_id;
          cert_fingerprint = m.fingerprint;
          action_type = alert;
          severity = severity_of risk;
          reasoning = reasoning;
          created_at = created;
          source_anomaly = none;
          attempt_count = 0;
        })
      ]
