-- ===== src/Analyzer/Shadow/Alerts.antt =====
-- The alerts for shadow certificates (crates/tlapix-analyzer/src/shadow.rs).
use tlapix.Common.{
  sym, ◌∙◌, ℕ, ◌≤◌, ◌≡◌, ◌↔◌, ◌⊎◌, inl, inr, refl, true, false, none, some, length, Option-cases,
  arith,
}
use tlapix.Common.Text.{Text}
use tlapix.Common.Time.{DateTime}
use tlapix.Types.{
  CertificateMetadata, Severity, alert, ActionDirective, RiskLevel, ShadowContext, shadow,
}
use tlapix.Analyzer.Reasoning.{truncate}
use tlapix.Analyzer.Anomaly.Directives.{truncate-short}
use tlapix.Analyzer.Shadow.{
  ShadowClassifierConfig, severity_of, determine_risk_level, classify, describe, generate_directive,
}
use tlapix.Analyzer.Shadow.Risk.{RiskIs, determine_risk_level_iff}

module _ (upper lower : Text → Text) (config : ShadowClassifierConfig)
    (format_date : DateTime → Text) (id correlation_id : ℕ) (now later created : DateTime)
    (m : CertificateMetadata) where
  -- An alert for the certificate, with a reasoning of at most 500 bytes.
  abbrev pub AlertFor : ActionDirective → Type 0
  AlertFor d =
      (d.action_type ≡ alert) × (d.cert_fingerprint ≡ m.fingerprint) × (length d.reasoning ≤ 500)

  made :
      (risk : RiskLevel)
      → ((d : ActionDirective) × (generate_directive upper lower config format_date id
              correlation_id later created m risk
            ≡ some d)
          × (d.severity ≡ severity_of risk)
          × AlertFor d)
        ⊎ (truncate (describe upper lower config format_date later m risk) ≡ none)
  unfolding generate_directive
  made risk =
      elim (Option-cases (truncate (describe upper lower config format_date later m risk))) [
        | inl panics ↦ inr panics
        | inr (r, kept) ↦ inl (
          record {
            id = id;
            correlation_id = correlation_id;
            cert_fingerprint = m.fingerprint;
            action_type = alert;
            severity = severity_of risk;
            reasoning = r;
            created_at = created;
            source_anomaly = none;
            attempt_count = 0;
          },
          rw (generate_directive, kept),
          refl,
          (refl, refl, truncate-short (describe upper lower config format_date later m risk) kept),
        )
      ]

  -- The severity of an alert by what is wrong with the certificate.
  abbrev pub SeverityByRisk : Severity → Type 0
  SeverityByRisk s =
      ((s ≡ Severity.critical) ↔ RiskIs upper lower config now m RiskLevel.critical)
      × ((s ≡ Severity.high) ↔ RiskIs upper lower config now m RiskLevel.high)
      × ((s ≡ Severity.medium) ↔ RiskIs upper lower config now m RiskLevel.medium)
      × ((s ≡ Severity.low) ↔ RiskIs upper lower config now m RiskLevel.low)

  severity_iff :
      (risk : RiskLevel)
      → ((severity_of risk ≡ Severity.critical) ↔ (risk ≡ RiskLevel.critical))
        × ((severity_of risk ≡ Severity.high) ↔ (risk ≡ RiskLevel.high))
        × ((severity_of risk ≡ Severity.medium) ↔ (risk ≡ RiskLevel.medium))
        × ((severity_of risk ≡ Severity.low) ↔ (risk ≡ RiskLevel.low))
  unfolding severity_of
  severity_iff risk = ground arith

  severity-SeverityByRisk :
      {risk : RiskLevel} {s : Severity}
      → determine_risk_level upper lower config now m ≡ risk
      → s ≡ severity_of risk
      → SeverityByRisk s
  severity-SeverityByRisk {risk} {s} found same =
      let (c, h, m', l) = severity_iff risk in
      (via RiskLevel.critical c, via RiskLevel.high h, via RiskLevel.medium m', via RiskLevel.low l)
    where
      via :
          (level : RiskLevel) {t : Severity}
          → ((severity_of risk ≡ t) ↔ (risk ≡ level))
          → (s ≡ t) ↔ RiskIs upper lower config now m level
      via level {t} (to, back) = (
        λ h.
            (determine_risk_level_iff upper lower config now m level).0 (found ∙ to (sym same ∙ h)),
        λ h.
            same ∙ back (sym found ∙ (determine_risk_level_iff upper lower config now m level).1 h),
      )

  -- A certificate that is looked up in vain in a reachable inventory gets an alert for its fingerprint,
  -- with a reasoning of at most 500 bytes, unless the cut of the reasoning panics. Its severity is
  -- critical exactly if the certificate is self-signed or its key is weak; else high exactly if its
  -- issuer is untrusted or its validity too long; else medium exactly if it expires soon; else low.
  pub classify-AlertFor :
      (risk : RiskLevel) (context : ShadowContext)
      → classify upper lower config now m true false ≡ shadow risk context
      → ((d : ActionDirective) × (generate_directive upper lower config format_date id
              correlation_id later created m risk
            ≡ some d)
          × AlertFor d
          × SeverityByRisk d.severity)
        ⊎ (truncate (describe upper lower config format_date later m risk) ≡ none)
  unfolding classify
  classify-AlertFor risk context classified = elim (made risk) [
    | inr panics ↦ inr panics
    | inl (d, done, of_risk, for_it) ↦
        inl (d, done, for_it, severity-SeverityByRisk (ground arith) of_risk)
  ]
