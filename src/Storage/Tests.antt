-- ===== src/Storage/Tests.antt =====
-- Runs of the storage's statements, and the theorems at them.
use mathlib.Core.List.{append-nil, append_assoc}
use mathlib.Core.List.{Memᴰ}
use mathlib.Core.List.Memᴰ.{not-nil}
use tlapix.Common.{inl, inr}
use tlapix.Storage.Rows.{CertificateRow}
use tlapix.Common.{
  ℕ, zero, suc, ◌≡◌, refl, sym, ap, ◌∙◌, false, none, some, List, [], ◌∷◌, ◌++◌, map, replicate, ok,
  err, bytes_eq, String, arith,
}
use tlapix.Common.Int.{pos, ◌+ℤ◌, ◌-ℤ◌, ◌*ℤ◌}
use tlapix.Common.Text.{Text, text}
use tlapix.Common.Time.{as_u32}
use tlapix.Types.{CertificateMetadata, RiskLevel}
use tlapix.Storage.Rows.{
  Json, ActionDirectiveRow, ShadowCertificateRow, risk_level_to_str, str_to_risk_level,
  timestamp_millis, of_millis, as_i64, as_u64, as_u8, certificate_to_row,
  row_to_certificate_metadata,
}
use tlapix.Storage.Sql.{
  select_where, delete_where, update_where, exists, insert_desc, order_by_desc, limit_rows, find,
  upsert,
}
use tlapix.Storage.Database.{foreign_key, unique, sqlite, Database, blocking}
use tlapix.Storage.Certificates.{
  cert_key, referenced, delete_certificates, delete_certificate, touch_certificate,
  list_recent_fingerprints, upsert_certificate, get_certificate,
}
use tlapix.Storage.Certificates.RoundTrip.{
  IsTyped, at_whole_ms, seen_after, get-upsert, get-upsert_new,
}
use tlapix.Storage.Directives.{
  insert_action_directive, update_directive_status, list_directives_by_status,
}
use tlapix.Storage.Shadows.{upsert_shadow_certificate}
use tlapix.Storage.Retention.{
  cleanup_old_certificates, cleanup_old_audit_logs, run_retention_cleanup,
}
use tlapix.Storage.Retention.Blocked.{
  IsHeld, RunSwept, run_retention_cleanup-blocked, run_retention_cleanup-swept,
}
use tlapix.Storage.Integrity.{IsConsistent}
use tlapix.Storage.Integrity.Statements.{upsert_shadow, execute, execute-IsConsistent}

unfoldable pub programs : Unit {0}
unfolding bytes_eq risk_level_to_str str_to_risk_level timestamp_millis of_millis as_i64 as_u64
    as_u8 as_u32 certificate_to_row row_to_certificate_metadata select_where delete_where
    update_where exists insert_desc order_by_desc limit_rows find upsert blocking referenced
    delete_certificates delete_certificate touch_certificate list_recent_fingerprints
    upsert_certificate get_certificate insert_action_directive update_directive_status
    list_directives_by_status upsert_shadow_certificate cleanup_old_certificates
    cleanup_old_audit_logs run_retention_cleanup ◌+ℤ◌ ◌-ℤ◌ ◌*ℤ◌
programs = tt

risk_level_stored : (l : RiskLevel) → str_to_risk_level (risk_level_to_str l) ≡ l
unfolding programs
risk_level_stored RiskLevel.low = refl
risk_level_stored RiskLevel.medium = refl
risk_level_stored RiskLevel.high = refl
risk_level_stored RiskLevel.critical = refl

-- Texts one after the other, each ended by 0 and its bytes raised by 1.
abbrev join_texts : List Text → Text
join_texts [] = []
join_texts (t ∷ texts) = map suc t ++ 0 ∷ join_texts texts

abbrev split_texts : Text → Text → List Text
split_texts so_far [] = []
split_texts so_far (zero ∷ s) = so_far ∷ split_texts [] s
split_texts so_far (suc b ∷ s) = split_texts (so_far ++ b ∷ []) s

split_one :
    (so_far t s : Text) → split_texts so_far (map suc t ++ 0 ∷ s) ≡ (so_far ++ t) ∷ split_texts [] s
split_one so_far [] s = ap (λ x. x ∷ split_texts [] s) (sym (append-nil so_far))
split_one so_far (b ∷ t) s =
    split_one (so_far ++ b ∷ []) t s
    ∙ ap (λ x. x ∷ split_texts [] s) (append_assoc so_far (b ∷ []) t)

split_joined : (texts : List Text) → split_texts [] (join_texts texts) ≡ texts
split_joined [] = refl
split_joined (t ∷ texts) =
    split_one [] t (join_texts texts) ∙ ap (λ rest. t ∷ rest) (split_joined texts)

abbrev pub json : Json
json = record { to_string = join_texts; from_str = λ s. some (split_texts [] s) }

json_reads : (l : List Text) → json.from_str (json.to_string l) ≡ some l
json_reads l = ap some (split_joined l)

abbrev pub certificate : ℕ → CertificateMetadata
certificate n = record {
  fingerprint = replicate 32 n;
  subject = text "CN=shop.example.com";
  issuer = text "CN=Example CA";
  serial_number = text "01";
  not_before = pos 1000001;
  not_after = pos 9000000000;
  sans = text "shop.example.com" ∷ [];
  key_algorithm = text "RSA";
  key_size = 2048;
  chain_depth = 2;
  issuer_fingerprint = none;
  first_seen = pos 2000000;
  last_seen = pos 3000000;
  connection_count = 1;
  source_ip = none;
  destination_ip = none;
  sni_hostname = none;
  completeness_flags = 127;
}

abbrev pub directive : String → ℕ → ActionDirectiveRow
directive id n = record {
  id = text id;
  correlation_id = text "c";
  cert_fingerprint = replicate 32 n;
  action_type = text "alert";
  severity = text "low";
  reasoning = none;
  status = text "pending";
  attempt_count = pos 0;
  created_at = pos 5;
  executed_at = none;
  expired_at = none;
  failure_reason = none;
}

abbrev pub shadow_row : ℕ → RiskLevel → ShadowCertificateRow
shadow_row n level = record {
  fingerprint = replicate 32 n;
  risk_level = level;
  first_classified = pos 0;
  last_escalated = none;
  escalation_count = pos 0;
  source_ip = none;
  destination_ip = none;
  first_seen = pos 0;
  is_resolved = false;
  resolved_at = none;
}

-- Two certificates and an entry of the audit log.
abbrev pub two_certificates : Database ℕ
two_certificates = record {
  certificates =
      certificate_to_row json (pos 7) (certificate 1)
      ∷ certificate_to_row json (pos 7) (certificate 2)
      ∷ [];
  action_directives = [];
  shadow_certificates = [];
  renewal_predictions = [];
  audit_log =
      record {
        id = pos 1;
        correlation_id = text "c";
        cert_fingerprint = replicate 32 1;
        stage = text "observed";
        timestamp = pos 3;
        details = [];
        created_at = pos 3;
      }
      ∷ [];
  certificate_inventory = [];
  inventory_refresh_log = [];
  faults = [];
}

abbrev pub with_directive : Database ℕ
with_directive = record two_certificates { action_directives = directive "d" 2 ∷ [] }

insert_unknown_run :
    (insert_action_directive (directive "e" 3) with_directive).0 ≡ err (sqlite foreign_key)
unfolding programs
insert_unknown_run = refl

insert_twice_run :
    (insert_action_directive (directive "d" 2) with_directive).0 ≡ err (sqlite unique)
unfolding programs
insert_twice_run = refl

delete_run : (delete_certificate (replicate 32 1) with_directive).0 ≡ ok tt
unfolding programs
delete_run = refl

delete_referenced_run :
    delete_certificate (replicate 32 2) with_directive ≡ (err (sqlite foreign_key), with_directive)
unfolding programs
delete_referenced_run = refl

retention_run :
    (run_retention_cleanup (pos 10000000000) (pos 10000000001) two_certificates).0 ≡ ok (2, 1)
unfolding programs
retention_run = refl

two_certificates-IsConsistent : IsConsistent two_certificates
unfolding programs
two_certificates-IsConsistent = record {
  certificates = (refl, (refl, tt));
  directives = tt;
  shadows = tt;
  predictions = tt;
  inventory = tt;
  refreshes = tt;
  directives_refer = tt;
  shadows_refer = tt;
  predictions_refer = tt;
}

execute-IsConsistent_example :
    IsConsistent (execute (upsert_shadow (shadow_row 2 RiskLevel.low)) two_certificates)
execute-IsConsistent_example =
    execute-IsConsistent (upsert_shadow (shadow_row 2 RiskLevel.low)) two_certificates
      two_certificates-IsConsistent

certificate-IsTyped : (n : ℕ) → IsTyped (certificate n)
certificate-IsTyped n = record {
  fingerprint = refl;
  issuer = tt;
  depth = omega arith;
  count = omega arith;
  flags = omega arith;
}

unknown_certificate : find cert_key (replicate 32 3) two_certificates.certificates ≡ none
unfolding programs
unknown_certificate = refl

get-upsert_new_example :
    (get_certificate json
      (replicate 32 3)
      (upsert_certificate json (pos 8) (certificate 3) two_certificates).1).0
    ≡ ok (some (at_whole_ms (certificate 3)))
get-upsert_new_example =
    get-upsert_new json json_reads (pos 8) (certificate 3) two_certificates (certificate-IsTyped 3)
      refl unknown_certificate

known_certificate :
    (get_certificate json (replicate 32 1) two_certificates).0
    ≡ ok (some (at_whole_ms (certificate 1)))
unfolding programs
known_certificate = refl

get-upsert_example :
    (get_certificate json
      (replicate 32 1)
      (upsert_certificate json (pos 8) (certificate 1) two_certificates).1).0
    ≡ ok (seen_after (certificate 1) (some (at_whole_ms (certificate 1))))
unfolding bytes_eq
get-upsert_example =
    get-upsert json json_reads (pos 8) (certificate 1) two_certificates (replicate 32 1)
      (certificate-IsTyped 1) refl known_certificate (omega arith)

abbrev second_row : CertificateRow
second_row = certificate_to_row json (pos 7) (certificate 2)

old_is_blocked : IsHeld (pos 10000000000) with_directive
unfolding programs
old_is_blocked = (
  second_row,
  Memᴰ.tail (Memᴰ.head refl),
  omega arith,
  inl (directive "d" 2, Memᴰ.head refl, refl),
)

run_retention_cleanup-blocked_example :
    run_retention_cleanup (pos 10000000000) (pos 10000000001) with_directive
    ≡ (err (sqlite foreign_key), with_directive)
run_retention_cleanup-blocked_example =
    run_retention_cleanup-blocked (pos 10000000000) (pos 10000000001) with_directive refl
      old_is_blocked

nothing_is_blocked : ¬ IsHeld (pos 10000000000) two_certificates
nothing_is_blocked (r, stored, old, inl (d, there, same)) = not-nil there
nothing_is_blocked (r, stored, old, inr (inl (s, there, same))) = not-nil there
nothing_is_blocked (r, stored, old, inr (inr (p, there, same))) = not-nil there

run_retention_cleanup-swept_example :
    RunSwept
      (pos 10000000000)
      (pos 10000000001)
      two_certificates
      (run_retention_cleanup (pos 10000000000) (pos 10000000001) two_certificates)
run_retention_cleanup-swept_example =
    run_retention_cleanup-swept (pos 10000000000) (pos 10000000001) two_certificates refl
      nothing_is_blocked
