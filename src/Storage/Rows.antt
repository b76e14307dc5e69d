-- ===== src/Storage/Rows.antt =====
-- The rows of the tables (crates/tlapix-common/src/storage.rs) and their conversions.
use tlapix.Common.{
  ℕ, suc, ◌-◌, ◌*◌, ◌/◌, ◌%◌, ◌^◌, Bool, Option, none, some, List, [], ltb, ◌==◌, if◌then◌else◌,
  bytes_eq, length, replicate,
}
use tlapix.Common.Int.{ℤ, pos, negsuc}
use tlapix.Common.Text.{Text, text}
use tlapix.Common.Time.{DateTime, ns_per_ms, as_u32}
use tlapix.Types.{Fingerprint, CertificateMetadata, RiskLevel}

pub record CertificateRow : Type 0 where
  pub fingerprint : Fingerprint
  pub subject : Text
  pub issuer : Text
  pub serial_number : Text
  pub not_before : ℤ
  pub not_after : ℤ
  pub sans : Option Text
  pub key_algorithm : Text
  pub key_size : ℕ
  pub chain_depth : ℤ
  pub issuer_fingerprint : Option Fingerprint
  pub first_seen : ℤ
  pub last_seen : ℤ
  pub connection_count : ℤ
  pub source_ip : Option Text
  pub destination_ip : Option Text
  pub sni_hostname : Option Text
  pub completeness_flags : ℤ
  pub created_at : ℤ
  pub updated_at : ℤ

pub record ActionDirectiveRow : Type 0 where
  pub id : Text
  pub correlation_id : Text
  pub cert_fingerprint : Fingerprint
  pub action_type : Text
  pub severity : Text
  pub reasoning : Option Text
  pub status : Text
  pub attempt_count : ℤ
  pub created_at : ℤ
  pub executed_at : Option ℤ
  pub expired_at : Option ℤ
  pub failure_reason : Option Text

pub record ShadowCertificateRow : Type 0 where
  pub fingerprint : Fingerprint
  pub risk_level : RiskLevel
  pub first_classified : ℤ
  pub last_escalated : Option ℤ
  pub escalation_count : ℤ
  pub source_ip : Option Text
  pub destination_ip : Option Text
  pub first_seen : ℤ
  pub is_resolved : Bool
  pub resolved_at : Option ℤ

pub record AuditLogRow : Type 0 where
  pub id : ℤ
  pub correlation_id : Text
  pub cert_fingerprint : Fingerprint
  pub stage : Text
  pub timestamp : ℤ
  pub details : Text
  pub created_at : ℤ

pub record CertificateInventoryRow : Type 0 where
  pub fingerprint : Fingerprint
  pub subject : Text
  pub source : Text
  pub imported_at : ℤ
  pub last_refresh_id : Text

pub record InventoryRefreshLogRow : Type 0 where
  pub id : Text
  pub timestamp : ℤ
  pub source : Text
  pub total_entries : Option ℤ
  pub new_entries : Option ℤ
  pub removed_entries : Option ℤ
  pub skipped_invalid : Option ℤ
  pub success : Bool

-- The probability is a floating-point number, which the storage only keeps.
pub record RenewalPredictionRow (F : Type 0) : Type 0 where
  pub cert_fingerprint : Fingerprint
  pub failure_probability : F
  pub severity : Text
  pub days_until_expiry : ℤ
  pub renewal_activity_detected : Bool
  pub reasoning : Option Text
  pub last_evaluated : ℤ
  pub created_at : ℤ

unfoldable pub risk_level_to_str : RiskLevel → Text
risk_level_to_str RiskLevel.low = text "low"
risk_level_to_str RiskLevel.medium = text "medium"
risk_level_to_str RiskLevel.high = text "high"
risk_level_to_str RiskLevel.critical = text "critical"

unfoldable pub str_to_risk_level : Text → RiskLevel
unfolding bytes_eq
str_to_risk_level s =
    if bytes_eq s (text "low")
    then RiskLevel.low
    else if bytes_eq s (text "medium")
    then RiskLevel.medium
    else if bytes_eq s (text "high")
    then RiskLevel.high
    else if bytes_eq s (text "critical")
    then RiskLevel.critical
    else RiskLevel.low

-- `timestamp_millis`: down to a whole millisecond.
unfoldable pub timestamp_millis : DateTime → ℤ
timestamp_millis (pos n) = pos (n / ns_per_ms)
timestamp_millis (negsuc n) = negsuc (n / ns_per_ms)

-- `timestamp_millis_opt(…).unwrap()`, for instants in the range of chrono.
unfoldable pub of_millis : ℤ → DateTime
of_millis (pos n) = pos (n * ns_per_ms)
of_millis (negsuc n) = negsuc (suc n * ns_per_ms - 1)

-- `x as i64` of a u64, and back.
unfoldable pub as_i64 : ℕ → ℤ
as_i64 n = if ltb (n % 2 ^ 64) (2 ^ 63) then pos (n % 2 ^ 64) else negsuc (2 ^ 64 - 1 - n % 2 ^ 64)

unfoldable pub as_u64 : ℤ → ℕ
as_u64 (pos n) = n % 2 ^ 64
as_u64 (negsuc n) = 2 ^ 64 - 1 - n % 2 ^ 64

-- `x as u8` of an i32.
unfoldable pub as_u8 : ℤ → ℕ
as_u8 (pos n) = n % 2 ^ 8
as_u8 (negsuc n) = 2 ^ 8 - 1 - n % 2 ^ 8

-- serde_json on lists of texts.
pub record Json : Type 0 where
  pub to_string : List Text → Text
  pub from_str : Text → Option (List Text)

abbrev pub or_default : Option (List Text) → List Text
or_default none = []
or_default (some l) = l

abbrev pub of_key : Fingerprint → Fingerprint
of_key blob = if length blob == 32 then blob else replicate 32 0

abbrev pub of_blob : Fingerprint → Option Fingerprint
of_blob blob = if length blob == 32 then some blob else none

abbrev pub and_then : {A B : Type 0} → Option A → (A → Option B) → Option B
and_then none f = none
and_then (some a) f = f a

module _ (json : Json) where
  -- The values of `upsert_certificate`.
  unfoldable pub certificate_to_row : ℤ → CertificateMetadata → CertificateRow
  unfolding timestamp_millis as_i64
  certificate_to_row now_ms cert = record {
    fingerprint = cert.fingerprint;
    subject = cert.subject;
    issuer = cert.issuer;
    serial_number = cert.serial_number;
    not_before = timestamp_millis cert.not_before;
    not_after = timestamp_millis cert.not_after;
    sans = some (json.to_string cert.sans);
    key_algorithm = cert.key_algorithm;
    key_size = cert.key_size;
    chain_depth = pos cert.chain_depth;
    issuer_fingerprint = cert.issuer_fingerprint;
    first_seen = timestamp_millis cert.first_seen;
    last_seen = timestamp_millis cert.last_seen;
    connection_count = as_i64 cert.connection_count;
    source_ip = cert.source_ip;
    destination_ip = cert.destination_ip;
    sni_hostname = cert.sni_hostname;
    completeness_flags = pos cert.completeness_flags;
    created_at = now_ms;
    updated_at = now_ms;
  }

  unfoldable pub row_to_certificate_metadata : CertificateRow → CertificateMetadata
  unfolding of_millis as_u8 as_u64 as_u32
  row_to_certificate_metadata row = record {
    fingerprint = of_key row.fingerprint;
    subject = row.subject;
    issuer = row.issuer;
    serial_number = row.serial_number;
    not_before = of_millis row.not_before;
    not_after = of_millis row.not_after;
    sans = or_default (and_then row.sans json.from_str);
    key_algorithm = row.key_algorithm;
    key_size = row.key_size;
    chain_depth = as_u8 row.chain_depth;
    issuer_fingerprint = and_then row.issuer_fingerprint of_blob;
    first_seen = of_millis row.first_seen;
    last_seen = of_millis row.last_seen;
    connection_count = as_u64 row.connection_count;
    source_ip = row.source_ip;
    destination_ip = row.destination_ip;
    sni_hostname = row.sni_hostname;
    completeness_flags = as_u32 row.completeness_flags;
  }
