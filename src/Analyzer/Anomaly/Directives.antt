-- ===== src/Analyzer/Anomaly/Directives.antt =====
-- `generate_directives` and `build_reasoning` of crates/tlapix-analyzer/src/anomaly.rs.
use tlapix.Common.{
  ℕ, ◌+◌, ◌≤◌, ◌≡◌, refl, Option, none, some, List, [], ◌∷◌, ◌++◌, take, length, Option-cases, inl,
  inr, ◌⊎◌,
}
use tlapix.Common.Text.{Text, text}
use tlapix.Common.Time.{DateTime}
use tlapix.Common.Decimal.{show, show_ℤ}
use tlapix.Types.{
  CertificateMetadata, Severity, alert, AnomalyType, policy_violation, weak_cryptography,
  sni_mismatch, expired_certificate, near_expiry, ActionDirective,
}
use tlapix.Analyzer.Reasoning.{truncate, truncate_cases}
use tlapix.Analyzer.Anomaly.{AnomalyDetectorConfig, Anomalies, detect}
use tlapix.Analyzer.Anomaly.Rules.{In}

-- `join(", ")`
unfoldable pub join : List Text → Text
join [] = []
join (s ∷ []) = s
join (s ∷ t ∷ rest) = s ++ (text ", " ++ join (t ∷ rest))

unfoldable pub describe : AnomalyDetectorConfig → AnomalyType → Text
unfolding join
describe config (policy_violation reason) = text "Policy violation: " ++ reason
describe config (weak_cryptography algorithm key_size) =
    text "Weak cryptography: "
    ++ (algorithm
        ++ (text " with " ++ (show key_size ++ text " bits is below minimum requirements")))
describe config (sni_mismatch sni sans) =
    text "SNI mismatch: hostname '"
    ++ (sni ++ (text "' does not match any SAN [" ++ (join (take 5 sans) ++ text "]")))
describe config expired_certificate = text "Certificate has expired"
describe config (near_expiry days_remaining) =
    text "Certificate expires in "
    ++ (show days_remaining
        ++ (text " days (threshold: "
            ++ (show_ℤ config.near_expiry_threshold_days ++ text " days)")))

-- `none` is a panic, of the cut of a long text inside a character.
unfoldable pub build_reasoning : AnomalyDetectorConfig → AnomalyType → Option Text
unfolding describe truncate
build_reasoning config anomaly = truncate (describe config anomaly)

-- `uuid` gives the identifiers in the order in which they are drawn, `n` the next one to draw.
module _ (uuid : ℕ → ℕ) (config : AnomalyDetectorConfig) (now : DateTime)
    (m : CertificateMetadata) where
  abbrev directive : ℕ → AnomalyType → Severity → Text → ActionDirective
  directive n anomaly severity reasoning = record {
    id = uuid n;
    correlation_id = uuid (n + 1);
    cert_fingerprint = m.fingerprint;
    action_type = alert;
    severity = severity;
    reasoning = reasoning;
    created_at = now;
    source_anomaly = some anomaly;
    attempt_count = 0;
  }

  abbrev make_directive : ℕ → AnomalyType → Severity → Option Text → Option ActionDirective
  make_directive n anomaly severity none = none
  make_directive n anomaly severity (some reasoning) = some (directive n anomaly severity reasoning)

  abbrev cons_directive :
      Option ActionDirective → Option (List ActionDirective) → Option (List ActionDirective)
  cons_directive (some d) (some ds) = some (d ∷ ds)
  cons_directive _ _ = none

  -- The `map` over the anomalies.
  unfoldable pub directives_from : ℕ → Anomalies → Option (List ActionDirective)
  directives_from n [] = some []
  directives_from n ((anomaly, severity) ∷ rest) =
      cons_directive (make_directive n anomaly severity (build_reasoning config anomaly))
        (directives_from (n + 2) rest)

-- The instants are those of the two rules on expiry and of the directives.
unfoldable pub generate_directives :
    (Text → Text)
    → (ℕ → ℕ)
    → AnomalyDetectorConfig
    → DateTime
    → DateTime
    → DateTime
    → CertificateMetadata
    → Option (List ActionDirective)
unfolding directives_from detect
generate_directives upper uuid config t1 t2 now m =
    directives_from uuid config now m 0 (detect upper config t1 t2 m)

-- One alert for each anomaly, in order, at its severity and for its certificate.
abbrev pub Report : CertificateMetadata → Anomalies → List ActionDirective → Type 0
Report m [] [] = Unit
Report m ((a, s) ∷ as') (d ∷ ds) =
    ((d.source_anomaly ≡ some a)
      × (d.severity ≡ s)
      × (d.action_type ≡ alert)
      × (d.cert_fingerprint ≡ m.fingerprint)
      × (d.attempt_count ≡ 0)
      × (length d.reasoning ≤ 500))
    × Report m as' ds
Report m _ _ = ⊥

pub truncate-short : (s : Text) {r : Text} → truncate s ≡ some r → length r ≤ 500
truncate-short s {r} h = elim (truncate_cases s) [
  | inl (r', e, short, _) ↦ let same : r ≡ r' = cc in rw same short
  | inr (panics, _, _) ↦ cc
]

build_reasoning-short :
    (config : AnomalyDetectorConfig) (a : AnomalyType) {r : Text}
    → build_reasoning config a ≡ some r
    → length r ≤ 500
unfolding build_reasoning
build_reasoning-short config a h = truncate-short (describe config a) h

-- Every anomaly is reported, or the reasoning of one of them panics.
abbrev pub Outcome :
    AnomalyDetectorConfig → CertificateMetadata → Anomalies → Option (List ActionDirective) → Type 0
Outcome config m anomalies r =
    ((ds : List ActionDirective) × (r ≡ some ds) × Report m anomalies ds)
    ⊎ ((a : AnomalyType) × (s : Severity) × In a s anomalies × (build_reasoning config a ≡ none))

directives_from-Outcome :
    (uuid : ℕ → ℕ) (config : AnomalyDetectorConfig) (now : DateTime) (m : CertificateMetadata)
    (n : ℕ) (anomalies : Anomalies)
    → Outcome config m anomalies (directives_from uuid config now m n anomalies)
unfolding directives_from
directives_from-Outcome uuid config now m n [] = inl ([], refl, tt)
directives_from-Outcome uuid config now m n ((a, s) ∷ rest) =
    elim (Option-cases (build_reasoning config a)) [
      | inl panics ↦ inr (a, s, inl (refl, refl), panics)
      | inr (r, kept) ↦ elim (directives_from-Outcome uuid config now m (n + 2) rest) [
        | inl (ds, made, reported) ↦ inl (
          directive uuid config now m n a s r ∷ ds,
          rw (kept, made),
          ((refl, refl, refl, refl, refl, build_reasoning-short config a kept), reported),
        )
        | inr (b, t, found, panics) ↦ inr (b, t, inr found, panics)
      ]
    ]

-- The directives of a certificate are one alert for each anomaly that the detector finds, in its
-- order, with its severity and the certificate's fingerprint, no attempt made yet, and a reasoning of
-- at most 500 bytes; else a detected anomaly has a reasoning whose cut panics.
pub generate_directives-Outcome :
    (upper : Text → Text) (uuid : ℕ → ℕ) (config : AnomalyDetectorConfig) (t1 t2 now : DateTime)
    (m : CertificateMetadata)
    → Outcome config m
        (detect upper config t1 t2 m)
        (generate_directives upper uuid config t1 t2 now m)
unfolding generate_directives
generate_directives-Outcome upper uuid config t1 t2 now m =
    directives_from-Outcome uuid config now m 0 (detect upper config t1 t2 m)
