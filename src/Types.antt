-- ===== src/Types.antt =====
-- crates/tlapix-common/src/types.rs: the data that the layers exchange. Texts are byte lists,
-- fingerprints 32 bytes, instants nanoseconds.
pub mod Completeness
use tlapix.Common.{ℕ, zero, suc, Option, none, some, List}
use tlapix.Common.Text.{Text}
use tlapix.Common.Time.{DateTime}

abbrev pub Fingerprint : Type 0
Fingerprint = List ℕ

pub record CertificateMetadata : Type 0 where
  pub fingerprint : Fingerprint
  pub subject : Text
  pub issuer : Text
  pub serial_number : Text
  pub not_before : DateTime
  pub not_after : DateTime
  pub sans : List Text
  pub key_algorithm : Text
  pub key_size : ℕ
  pub chain_depth : ℕ
  pub issuer_fingerprint : Option Fingerprint
  pub first_seen : DateTime
  pub last_seen : DateTime
  pub connection_count : ℕ
  pub source_ip : Option Text
  pub destination_ip : Option Text
  pub sni_hostname : Option Text
  pub completeness_flags : ℕ

pub data Severity : Type 0 where
  low medium high critical : Severity

pub data ActionType : Type 0 where
  alert renew : ActionType
  protect : Fingerprint → Text → ActionType
  isolate : Fingerprint → ActionType

pub data AnomalyType : Type 0 where
  policy_violation : Text → AnomalyType
  weak_cryptography : Text → ℕ → AnomalyType
  sni_mismatch : Text → List Text → AnomalyType
  expired_certificate : AnomalyType
  near_expiry : ℕ → AnomalyType

pub record ActionDirective : Type 0 where
  pub id : ℕ
  pub correlation_id : ℕ
  pub cert_fingerprint : Fingerprint
  pub action_type : ActionType
  pub severity : Severity
  pub reasoning : Text
  pub created_at : DateTime
  pub source_anomaly : Option AnomalyType
  pub attempt_count : ℕ

unfoldable pub from_bpf_value : ℕ → Option Severity
from_bpf_value zero = some low
from_bpf_value (suc zero) = some medium
from_bpf_value (suc (suc zero)) = some high
from_bpf_value (suc (suc (suc zero))) = some critical
from_bpf_value (suc (suc (suc (suc n)))) = none

unfoldable pub to_bpf_value : Severity → ℕ
to_bpf_value low = 0
to_bpf_value medium = 1
to_bpf_value high = 2
to_bpf_value critical = 3

pub data RiskLevel : Type 0 where
  low medium high critical : RiskLevel

unfoldable pub escalate : RiskLevel → RiskLevel
escalate RiskLevel.low = RiskLevel.medium
escalate RiskLevel.medium = RiskLevel.high
escalate RiskLevel.high = RiskLevel.critical
escalate RiskLevel.critical = RiskLevel.critical

pub record ShadowContext : Type 0 where
  pub source_ip : Option Text
  pub destination : Option Text
  pub first_seen : DateTime

pub data ShadowClassification : Type 0 where
  known : ShadowClassification
  shadow : RiskLevel → ShadowContext → ShadowClassification
  deferred : Text → ShadowClassification

pub data ExecutionOutcome : Type 0 where
  success : ExecutionOutcome
  failed : Text → ℕ → ExecutionOutcome
  expired : ExecutionOutcome
  map_full : ExecutionOutcome
  conflict : ℕ → ExecutionOutcome
