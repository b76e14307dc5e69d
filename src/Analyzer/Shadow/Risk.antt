-- ===== src/Analyzer/Shadow/Risk.antt =====
-- What the risk levels of crates/tlapix-analyzer/src/shadow.rs mean.
use tlapix.Common.{◌≡◌, ◌≢◌, ◌↔◌, ◌⊎◌, true, false, List, [], ◌∷◌, ◌||◌, bytes_eq_iff, arith}
use tlapix.Common.Int.{◌-ℤ◌, ◌<ℤ◌}
use tlapix.Common.Text.{Text, text, eq_ignore_ascii_case, to_ascii_lowercase, is_empty}
use tlapix.Common.Time.{DateTime, num_days}
use tlapix.Types.{CertificateMetadata, RiskLevel}
use tlapix.Analyzer.Anomaly.Rules.{IsWeakKey}
use tlapix.Analyzer.Shadow.{
  ShadowClassifierConfig, is_self_signed, has_long_validity, has_near_expiry, has_weak_key,
  any_trusted, has_untrusted_issuer, determine_risk_level,
}

module _ (upper lower : Text → Text) (config : ShadowClassifierConfig) (now : DateTime)
    (m : CertificateMetadata) where
  abbrev pub IsCritical : Type 0
  IsCritical =
      (to_ascii_lowercase m.subject ≡ to_ascii_lowercase m.issuer)
      ⊎ IsWeakKey config.min_rsa_key_size config.min_ecdsa_key_size (upper m.key_algorithm)
          m.key_size

  -- A list of trusted issuers is given, and the issuer is none of them.
  abbrev NoneTrusts : List Text → Type 0
  NoneTrusts [] = Unit
  NoneTrusts (t ∷ ts) = (lower t ≢ lower m.issuer) × NoneTrusts ts

  abbrev pub IsHigh : Type 0
  IsHigh =
      ((config.trusted_issuers ≢ []) × NoneTrusts config.trusted_issuers)
      ⊎ (config.max_validity_days <ℤ num_days (m.not_after -ℤ m.not_before))

  abbrev pub IsMedium : Type 0
  IsMedium =
      (now <ℤ m.not_after) × (num_days (m.not_after -ℤ now) <ℤ config.near_expiry_threshold_days)

  -- The levels in order: the first that applies.
  abbrev pub RiskIs : RiskLevel → Type 0
  RiskIs RiskLevel.critical = IsCritical
  RiskIs RiskLevel.high = (¬ IsCritical) × IsHigh
  RiskIs RiskLevel.medium = (¬ IsCritical) × (¬ IsHigh) × IsMedium
  RiskIs RiskLevel.low = (¬ IsCritical) × (¬ IsHigh) × (¬ IsMedium)

  critical_iff : ((is_self_signed m || has_weak_key upper lower config m) ≡ true) ↔ IsCritical
  unfolding is_self_signed has_weak_key eq_ignore_ascii_case
  critical_iff = ground (
    arith,
    bytes_eq_iff (to_ascii_lowercase m.subject) (to_ascii_lowercase m.issuer),
    bytes_eq_iff (upper m.key_algorithm) (text "RSA"),
    bytes_eq_iff (upper m.key_algorithm) (text "ECDSA"),
    bytes_eq_iff (upper m.key_algorithm) (text "EC"),
  )

  any_trusted_iff :
      (ts : List Text)
      → (any_trusted upper lower config ts (lower m.issuer) ≡ false) ↔ NoneTrusts ts
  unfolding any_trusted
  any_trusted_iff [] = ground arith
  any_trusted_iff (t ∷ ts) =
      ground (arith, bytes_eq_iff (lower t) (lower m.issuer), any_trusted_iff ts)

  high_iff :
      ((has_untrusted_issuer upper lower config m || has_long_validity config m) ≡ true) ↔ IsHigh
  unfolding has_untrusted_issuer has_long_validity is_empty
  high_iff = ground (arith, any_trusted_iff config.trusted_issuers)

  medium_iff : (has_near_expiry config now m ≡ true) ↔ IsMedium
  unfolding has_near_expiry
  medium_iff = ground arith

  -- The risk level of an unknown certificate: critical exactly if it is self-signed or its key is
  -- weak; else high exactly if its issuer is untrusted or its validity too long; else medium exactly
  -- if it expires soon; else low.
  pub determine_risk_level_iff :
      (risk : RiskLevel) → (determine_risk_level upper lower config now m ≡ risk) ↔ RiskIs risk
  unfolding determine_risk_level
  determine_risk_level_iff RiskLevel.critical = ground (arith, critical_iff, high_iff, medium_iff)
  determine_risk_level_iff risk = ground (arith, critical_iff, high_iff, medium_iff)
