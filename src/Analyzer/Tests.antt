-- ===== src/Analyzer/Tests.antt =====
-- Runs of the analyses on one certificate, and the theorems at it.
use tlapix.Common.{
  ℕ, ◌*◌, ◌≡◌, refl, ◌↔◌, ◌⊎◌, true, false, Option, none, some, List, [], ◌∷◌, ◌++◌, length,
  replicate, bytes_eq,
}
use tlapix.Common.Int.{ℤ, pos, ◌-ℤ◌}
use tlapix.Common.Text.{
  Text, text, lower_byte, to_ascii_lowercase, eq_ignore_ascii_case, contains, is_empty,
  strip_prefix, strip_suffix,
}
use tlapix.Common.Time.{ns_per_day, num_days, as_u32}
use tlapix.Common.Decimal.{show_digits, show, show_ℤ}
use tlapix.Types.{
  CertificateMetadata, Severity, ActionDirective, AnomalyType, policy_violation, weak_cryptography,
  sni_mismatch, near_expiry, RiskLevel,
}
use tlapix.Types.Completeness.{has, lacks}
use tlapix.Analyzer.SniMatch.{wildcard_matches, sni_matches_san, sni_matches_any_san}
use tlapix.Analyzer.SniMatch.Meaning.{IsWildcardMatch, sni_matches_san_iff}
use tlapix.Analyzer.Reasoning.{is_char_boundary, truncate}
use tlapix.Analyzer.Anomaly.{
  default_config, policy_reason, check_policy_violation, key_is_weak, check_weak_cryptography,
  check_sni_mismatch, check_expired, check_near_expiry, detect,
}
use tlapix.Analyzer.Anomaly.Rules.{Rule, In, detect_iff}
use tlapix.Analyzer.Anomaly.Directives.{
  join, describe, build_reasoning, directives_from, generate_directives, Outcome,
  generate_directives-Outcome,
}
use tlapix.Analyzer.Shadow.{
  ShadowClassifierConfig, is_self_signed, has_weak_key, determine_risk_level,
}
use tlapix.Analyzer.Shadow as Shadow
use tlapix.Analyzer.Shadow.{classify, generate_directive}
use tlapix.Analyzer.Shadow.Alerts.{AlertFor, SeverityByRisk, classify-AlertFor}
use tlapix.Analyzer.Shadow.Risk.{RiskIs, determine_risk_level_iff}

-- A certificate of 500 days with a short RSA key, seen under a name that it does not have.
abbrev certificate : CertificateMetadata
certificate = record {
  fingerprint = replicate 32 1;
  subject = text "CN=api.example.com";
  issuer = text "CN=Test CA";
  serial_number = text "01";
  not_before = pos 0;
  not_after = pos (500 * ns_per_day);
  sans = text "example.com" ∷ text "*.Example.com" ∷ [];
  key_algorithm = text "RSA";
  key_size = 1024;
  chain_depth = 2;
  issuer_fingerprint = none;
  first_seen = pos 0;
  last_seen = pos 0;
  connection_count = 1;
  source_ip = none;
  destination_ip = none;
  sni_hostname = some (text "a.b.example.com");
  completeness_flags = 0xFF;
}

abbrev day : ℕ → ℤ
day n = pos (n * ns_per_day)

abbrev upper : Text → Text
upper s = s

programs : Unit {0}
unfolding classify lower_byte to_ascii_lowercase eq_ignore_ascii_case contains is_empty strip_prefix
    strip_suffix num_days as_u32 show_digits show show_ℤ has lacks wildcard_matches sni_matches_san
    sni_matches_any_san is_char_boundary truncate policy_reason check_policy_violation key_is_weak
    check_weak_cryptography check_sni_mismatch check_expired check_near_expiry detect join describe
    build_reasoning directives_from generate_directives bytes_eq ◌-ℤ◌ is_self_signed has_weak_key
    determine_risk_level
programs = tt

wildcard_case : sni_matches_san (text "WWW.example.com") (text "*.Example.COM") ≡ true
unfolding programs
wildcard_case = refl

wildcard_one_label : sni_matches_san (text "a.b.example.com") (text "*.example.com") ≡ false
unfolding programs
wildcard_one_label = refl

abbrev found : List (AnomalyType × Severity)
found =
    (
      policy_violation (text "Validity period of 500 days exceeds maximum of 398 days"),
      Severity.medium,
    )
    ∷ (weak_cryptography (text "RSA") 1024, Severity.critical)
    ∷ (sni_mismatch (text "a.b.example.com") certificate.sans, Severity.high)
    ∷ (near_expiry 10, Severity.high)
    ∷ []

detect_run : detect upper default_config (day 490) (day 490) certificate ≡ found
unfolding programs
detect_run = refl

sni_matches_san_iff_example :
    (sni_matches_san (text "WWW.example.com") (text "*.Example.COM") ≡ true) ↔ (
      (to_ascii_lowercase (text "WWW.example.com") ≡ to_ascii_lowercase (text "*.Example.COM"))
      ⊎ IsWildcardMatch
          (to_ascii_lowercase (text "WWW.example.com"))
          (to_ascii_lowercase (text "*.Example.COM")))
sni_matches_san_iff_example = sni_matches_san_iff (text "WWW.example.com") (text "*.Example.COM")

detect_iff_example :
    In (near_expiry 10) Severity.high (detect upper default_config (day 490) (day 490) certificate)
    ↔ Rule upper default_config (day 490) (day 490) certificate (near_expiry 10) Severity.high
detect_iff_example =
    detect_iff upper default_config (day 490) (day 490) certificate (near_expiry 10) Severity.high

abbrev report : Option (List ActionDirective)
report = generate_directives upper (λ n. n) default_config (day 490) (day 490) (day 490) certificate

report_run : (ds : List ActionDirective) × (report ≡ some ds) × (length ds ≡ 4)
unfolding programs
report_run = (_, refl, refl)

generate_directives-Outcome_example :
    Outcome default_config certificate
      (detect upper default_config (day 490) (day 490) certificate)
      report
generate_directives-Outcome_example =
    generate_directives-Outcome upper (λ n. n) default_config (day 490) (day 490) (day 490)
      certificate

-- A long text of two-byte characters, the 249th of which holds the bytes 496 and 497.
abbrev umlauts : ℕ → Text
umlauts n = text "" ++ repeat n
  where
    repeat : ℕ → Text
    repeat = elim [ ℕ.zero ↦ [] | ℕ.suc (n → ih) ↦ 0xC3 ∷ 0xA4 ∷ ih ]

umlauts_panic : truncate (umlauts 251) ≡ none
unfolding programs
umlauts_panic = refl

abbrev shadow_config : ShadowClassifierConfig
shadow_config = record {
  max_validity_days = pos 398;
  min_rsa_key_size = 2048;
  min_ecdsa_key_size = 256;
  near_expiry_threshold_days = pos 30;
  trusted_issuers = [];
}

determine_risk_level_iff_example :
    (determine_risk_level upper upper shadow_config (day 490) certificate ≡ RiskLevel.critical)
    ↔ RiskIs upper upper shadow_config (day 490) certificate RiskLevel.critical
determine_risk_level_iff_example =
    determine_risk_level_iff upper upper shadow_config (day 490) certificate RiskLevel.critical

abbrev date_text : ℤ → Text
date_text t = text "date"

classify-AlertFor_example :
    ((d : ActionDirective) × (generate_directive upper upper shadow_config date_text 1 2
          (day 490)
          (day 490)
          certificate
          RiskLevel.critical
        ≡ some d)
      × AlertFor upper upper shadow_config date_text 1 2 (day 490) (day 490) (day 490) certificate d
      × SeverityByRisk upper upper shadow_config date_text 1 2
          (day 490)
          (day 490)
          (day 490)
          certificate
          d.severity)
    ⊎ (truncate (
          Shadow.describe upper upper shadow_config date_text
            (day 490)
            certificate
            RiskLevel.critical)
        ≡ none)
unfolding programs
classify-AlertFor_example =
    classify-AlertFor upper upper shadow_config date_text 1 2 (day 490) (day 490) (day 490)
      certificate RiskLevel.critical
      (record { source_ip = none; destination = none; first_seen = pos 0 }) refl
