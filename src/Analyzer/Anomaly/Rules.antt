-- ===== src/Analyzer/Anomaly/Rules.antt =====
-- The detector of crates/tlapix-analyzer/src/anomaly.rs finds exactly what the rules say.
use tlapix.Common.{
  ℕ, ◌+◌, ◌<◌, ◌≤◌, ◌≡◌, ◌≢◌, ◌↔◌, ◌⊎◌, inl, inr, true, false, some, [], ◌∷◌, ◌++◌, bytes_eq_iff,
  Option-cases, arith,
}
use tlapix.Common.Int.{◌-ℤ◌, ◌<ℤ◌, ◌≤ℤ◌}
use tlapix.Common.Text.{Text, text, is_empty}
use tlapix.Common.Time.{DateTime, num_days, as_u32}
use tlapix.Types.{
  CertificateMetadata, Severity, medium, high, critical, AnomalyType, policy_violation,
  weak_cryptography, sni_mismatch, expired_certificate, near_expiry,
}
use tlapix.Types.Completeness
use tlapix.Types.Completeness.{has, lacks}
use tlapix.Analyzer.SniMatch.{sni_matches_any_san}
use tlapix.Analyzer.Anomaly.{
  AnomalyDetectorConfig, Anomalies, policy_reason, key_is_weak, check_policy_violation,
  check_weak_cryptography, check_sni_mismatch, check_expired, check_near_expiry, detect,
}

-- An RSA key under its minimum, or an elliptic one under its own.
abbrev pub IsWeakKey : ℕ → ℕ → Text → ℕ → Type 0
IsWeakKey min_rsa min_ecdsa algorithm size =
    ((algorithm ≡ text "RSA") × (size < min_rsa))
    ⊎ (((algorithm ≡ text "ECDSA") ⊎ (algorithm ≡ text "EC")) × (size < min_ecdsa))

pub key_is_weak_iff :
    (min_rsa min_ecdsa : ℕ) (algorithm : Text) (size : ℕ)
    → (key_is_weak min_rsa min_ecdsa algorithm size ≡ true)
      ↔ IsWeakKey min_rsa min_ecdsa algorithm size
unfolding key_is_weak
key_is_weak_iff min_rsa min_ecdsa algorithm size = ground (
  arith,
  bytes_eq_iff algorithm (text "RSA"),
  bytes_eq_iff algorithm (text "ECDSA"),
  bytes_eq_iff algorithm (text "EC"),
)

-- What each rule requires of the certificate, and what it reports.
abbrev pub Rule :
    (Text → Text)
    → AnomalyDetectorConfig
    → DateTime
    → DateTime
    → CertificateMetadata
    → AnomalyType
    → Severity
    → Type 0
Rule upper config now later m (policy_violation reason) s =
    (s ≡ medium)
    × (has m.completeness_flags (Completeness.not_before + Completeness.not_after) ≡ true)
    × (config.max_validity_days <ℤ num_days (m.not_after -ℤ m.not_before))
    × (reason ≡ policy_reason (num_days (m.not_after -ℤ m.not_before)) config.max_validity_days)
Rule upper config now later m (weak_cryptography algorithm size) s =
    (s ≡ critical)
    × (has m.completeness_flags (Completeness.key_algorithm + Completeness.key_size) ≡ true)
    × IsWeakKey config.min_rsa_key_size config.min_ecdsa_key_size (upper m.key_algorithm) m.key_size
    × (algorithm ≡ m.key_algorithm)
    × (size ≡ m.key_size)
Rule upper config now later m (sni_mismatch sni sans) s =
    (s ≡ high)
    × (lacks m.completeness_flags Completeness.sans ≡ false)
    × (m.sni_hostname ≡ some sni)
    × (sni ≢ [])
    × (m.sans ≢ [])
    × (sni_matches_any_san sni m.sans ≡ false)
    × (sans ≡ m.sans)
Rule upper config now later m expired_certificate s =
    (s ≡ critical)
    × (lacks m.completeness_flags Completeness.not_after ≡ false)
    × (m.not_after <ℤ now)
Rule upper config now later m (near_expiry days) s =
    (s ≡ high)
    × (lacks m.completeness_flags Completeness.not_after ≡ false)
    × (later <ℤ m.not_after)
    × (num_days (m.not_after -ℤ later) <ℤ config.near_expiry_threshold_days)
    × (days ≡ as_u32 (num_days (m.not_after -ℤ later)))

-- Membership by recursion, which computes on the lists that the rules build.
abbrev pub In : AnomalyType → Severity → Anomalies → Type 0
In a s [] = ⊥
In a s ((b, t) ∷ l) = ((a ≡ b) × (s ≡ t)) ⊎ In a s l

In-push :
    (a b : AnomalyType) (s t : Severity) (l : Anomalies)
    → In a s (l ++ (b, t) ∷ []) ↔ (In a s l ⊎ ((a ≡ b) × (s ≡ t)))
In-push a b s t [] = ground arith
In-push a b s t (x ∷ l) = ground (arith, In-push a b s t l)

-- Which of the five rules reports an anomaly of a type.
abbrev kind : AnomalyType → ℕ
kind (policy_violation r) = 0
kind (weak_cryptography a k) = 1
kind (sni_mismatch n ns) = 2
kind expired_certificate = 3
kind (near_expiry d) = 4

kind-le : (a : AnomalyType) → kind a ≤ 4
kind-le expired_certificate = omega arith
kind-le a = omega arith

module _ (upper : Text → Text) (config : AnomalyDetectorConfig) (now later : DateTime)
    (m : CertificateMetadata) where
  -- After the check of rule `k`: what was found before, or what the rule reports.
  abbrev FoundBy : ℕ → AnomalyType → Severity → Anomalies → Anomalies → Type 0
  FoundBy k a s before after =
      In a s after ↔ (In a s before ⊎ ((kind a ≡ k) × Rule upper config now later m a s))

  found_policy :
      (a : AnomalyType) (s : Severity) (l : Anomalies)
      → FoundBy 0 a s l (check_policy_violation config m l)
  unfolding check_policy_violation
  found_policy (policy_violation r) s l = ground (
    arith,
    In-push (policy_violation r)
        (policy_violation
          (policy_reason (num_days (m.not_after -ℤ m.not_before)) config.max_validity_days))
        s medium l,
  )
  found_policy a s l = ground (
    arith,
    In-push a
        (policy_violation
          (policy_reason (num_days (m.not_after -ℤ m.not_before)) config.max_validity_days))
        s medium l,
  )

  found_weak :
      (a : AnomalyType) (s : Severity) (l : Anomalies)
      → FoundBy 1 a s l (check_weak_cryptography upper config m l)
  unfolding check_weak_cryptography
  found_weak (weak_cryptography k z) s l = ground (
    arith,
    In-push (weak_cryptography k z) (weak_cryptography m.key_algorithm m.key_size) s critical l,
    key_is_weak_iff config.min_rsa_key_size config.min_ecdsa_key_size (upper m.key_algorithm)
        m.key_size,
  )
  found_weak a s l = ground (
    arith,
    In-push a (weak_cryptography m.key_algorithm m.key_size) s critical l,
    key_is_weak_iff config.min_rsa_key_size config.min_ecdsa_key_size (upper m.key_algorithm)
        m.key_size,
  )

  found_expired :
      (a : AnomalyType) (s : Severity) (l : Anomalies) → FoundBy 3 a s l (check_expired now m l)
  unfolding check_expired
  found_expired expired_certificate s l =
      ground (arith, In-push expired_certificate expired_certificate s critical l)
  found_expired a s l = ground (arith, In-push a expired_certificate s critical l)

  found_near :
      (a : AnomalyType) (s : Severity) (l : Anomalies)
      → FoundBy 4 a s l (check_near_expiry config later m l)
  unfolding check_near_expiry
  found_near (near_expiry d) s l = ground (
    arith,
    In-push (near_expiry d) (near_expiry (as_u32 (num_days (m.not_after -ℤ later)))) s high l,
  )
  found_near a s l =
      ground (arith, In-push a (near_expiry (as_u32 (num_days (m.not_after -ℤ later)))) s high l)

  found_sni :
      (a : AnomalyType) (s : Severity) (l : Anomalies) → FoundBy 2 a s l (check_sni_mismatch m l)
  unfolding check_sni_mismatch is_empty
  found_sni (sni_mismatch n ns) s l = elim (Option-cases m.sni_hostname) [
    | inl absent ↦ ground arith
    | inr (sni, present) ↦
        ground (arith, In-push (sni_mismatch n ns) (sni_mismatch sni m.sans) s high l)
  ]
  found_sni a s l = elim (Option-cases m.sni_hostname) [
    | inl absent ↦ ground arith
    | inr (sni, present) ↦ ground (arith, In-push a (sni_mismatch sni m.sans) s high l)
  ]

  -- The detector reports an anomaly at a severity exactly when the rule for it fires: no rule is
  -- missed, and nothing else is reported.
  pub detect_iff :
      (a : AnomalyType) (s : Severity)
      → In a s (detect upper config now later m) ↔ Rule upper config now later m a s
  unfolding detect
  detect_iff a s =
      let l0 : Anomalies = [] in
      let l1 = check_policy_violation config m l0 in
      let l2 = check_weak_cryptography upper config m l1 in
      let l3 = check_sni_mismatch m l2 in
      let l4 = check_expired now m l3 in
      ground (
        arith,
        kind-le a,
        found_policy a s l0,
        found_weak a s l1,
        found_sni a s l2,
        found_expired a s l3,
        found_near a s l4,
      )

  -- While the clock does not go back between its two readings, a certificate is never reported as
  -- expired and as near its expiry at once.
  pub expired_or_near :
      (days : ℕ) (s t : Severity)
      → now ≤ℤ later
      → In expired_certificate s (detect upper config now later m)
      → ¬ In (near_expiry days) t (detect upper config now later m)
  expired_or_near days s t clock e n =
      omega (arith, (detect_iff expired_certificate s).0 e, (detect_iff (near_expiry days) t).0 n)
