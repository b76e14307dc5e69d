-- ===== src/Analyzer/Escalation.antt =====
-- crates/tlapix-analyzer/src/shadow_escalation.rs: unresolved shadow certificates rise by one level every
-- 24 hours. The readings of the clock, the fresh identifiers and their text are parameters; `i` counts
-- the rows of the run and `k` the directives that are replaced for one of them. Log lines are left out.
pub mod Rows
pub mod Raised
pub mod Table
pub mod Liveness
mod Tests
use tlapix.Common.{
  ℕ, suc, ◌+◌, ◌-◌, ◌*◌, ◌^◌, Bool, true, false, not, ◌&&◌, ◌||◌, Option, none, some, List, [], ◌∷◌,
  ◌++◌, if◌then◌else◌, bytes_eq, Result, ok, err, ◌>>=◌, ◌>>◌, pure,
}
use tlapix.Common.Int.{ℤ, pos, negsuc, ltb_ℤ, ◌-ℤ◌, ◌+ℤ◌}
use tlapix.Common.Text.{Text, text}
use tlapix.Common.Time.{DateTime}
use tlapix.Common.Decimal.{show_ℤ}
use tlapix.Types.{Fingerprint, RiskLevel, escalate, Severity, alert, ActionDirective}
use tlapix.Storage.Rows.{ActionDirectiveRow, ShadowCertificateRow, timestamp_millis}
use tlapix.Storage.Database.{Database, Db}
use tlapix.Storage.Directives.{
  insert_action_directive, update_directive_status, list_pending_directives_by_fingerprint,
}
use tlapix.Storage.Shadows.{upsert_shadow_certificate, list_unresolved_shadow_certificates}

abbrev pub escalation_interval_ms : ℤ
escalation_interval_ms = pos (24 * 60 * 60 * 1000)

abbrev pub is_critical : RiskLevel → Bool
is_critical RiskLevel.critical = true
is_critical RiskLevel.high = false
is_critical RiskLevel.medium = false
is_critical RiskLevel.low = false

-- `shadow.last_escalated.unwrap_or(shadow.first_classified)`
abbrev pub reference_time : ShadowCertificateRow → ℤ
reference_time s = elim s.last_escalated [ none ↦ s.first_classified | some t ↦ t ]

-- The two guards of the loop.
unfoldable pub is_due : ℤ → ShadowCertificateRow → Bool
is_due now_ms s =
    if ltb_ℤ (now_ms -ℤ reference_time s) escalation_interval_ms
    then false
    else not (is_critical s.risk_level)

-- `n + 1` of an i32.
abbrev pub suc_i32 : ℤ → ℤ
suc_i32 n = let m = n +ℤ pos 1 in if ltb_ℤ m (pos (2 ^ 31)) then m else negsuc (2 ^ 31 - 1)

unfoldable pub updated_row : ℤ → ShadowCertificateRow → ShadowCertificateRow
unfolding escalate
updated_row now_ms s = record s {
  risk_level = escalate s.risk_level;
  last_escalated = some now_ms;
  escalation_count = suc_i32 s.escalation_count;
}

module _ {F : Type 0} (status_ms : ℕ → ℕ → ℤ) where
  unfoldable pub replace_loop : ℕ → ℕ → List ActionDirectiveRow → Db F (Unit {0})
  unfolding update_directive_status
  replace_loop i k [] = pure tt
  replace_loop i k (d ∷ pending) = do
    update_directive_status (status_ms i k) d.id (text "replaced") none
    replace_loop i (suc k) pending

  unfoldable pub replace_prior_directives : ℕ → Fingerprint → Db F (Unit {0})
  unfolding list_pending_directives_by_fingerprint replace_loop
  replace_prior_directives i fp = do
    pending ← list_pending_directives_by_fingerprint fp
    replace_loop i 0 pending

module _ (uuid_text : ℕ → Text) (uuid correlation : ℕ → ℕ) (status_ms : ℕ → ℕ → ℤ)
    (created : ℕ → DateTime) where
  unfoldable pub critical_directive : ℕ → ShadowCertificateRow → ActionDirective
  critical_directive i s = record {
    id = uuid i;
    correlation_id = correlation i;
    cert_fingerprint = s.fingerprint;
    action_type = alert;
    severity = Severity.critical;
    reasoning =
        text "Shadow certificate escalated to critical after "
        ++ (show_ℤ s.escalation_count
            ++ text " escalation(s). Unresolved shadow certificate requires immediate attention.");
    created_at = created i;
    source_anomaly = none;
    attempt_count = 0;
  }

  unfoldable pub directive_row : ActionDirective → ActionDirectiveRow
  unfolding timestamp_millis
  directive_row d = record {
    id = uuid_text d.id;
    correlation_id = uuid_text d.correlation_id;
    cert_fingerprint = d.cert_fingerprint;
    action_type = text "alert";
    severity = text "critical";
    reasoning = some d.reasoning;
    status = text "pending";
    attempt_count = pos 0;
    created_at = timestamp_millis d.created_at;
    executed_at = none;
    expired_at = none;
    failure_reason = none;
  }

  module _ {F : Type 0} where
    -- A row that reached the highest level. A failure to replace is only logged.
    unfoldable pub raise_alert :
        ℕ → ShadowCertificateRow → Database F → List ActionDirective × Database F
    unfolding replace_prior_directives critical_directive directive_row insert_action_directive
    raise_alert i updated db =
        let directive = critical_directive i updated in
        let (replaced, db1) = replace_prior_directives status_ms i updated.fingerprint db in
        let (inserted, db2) = insert_action_directive (directive_row directive) db1 in
        (elim inserted [ ok _ ↦ directive ∷ [] | err e ↦ [] ], db2)

    unfoldable pub escalate_row :
        ℤ → ℕ → ShadowCertificateRow → Database F → List ActionDirective × Database F
    unfolding is_due updated_row upsert_shadow_certificate raise_alert
    escalate_row now_ms i s db =
        if not (is_due now_ms s)
        then ([], db)
        else let updated = updated_row now_ms s in
          let (stored, db1) = upsert_shadow_certificate updated db in
          elim stored [
            | ok _ ↦ if is_critical updated.risk_level then raise_alert i updated db1 else ([], db1)
            | err e ↦ ([], db1)
          ]

    unfoldable pub escalate_rows :
        ℤ → ℕ → List ShadowCertificateRow → Database F → List ActionDirective × Database F
    unfolding escalate_row
    escalate_rows now_ms i [] db = ([], db)
    escalate_rows now_ms i (s ∷ rows) db =
        let (new, db1) = escalate_row now_ms i s db in
        let (more, db2) = escalate_rows now_ms (suc i) rows db1 in (new ++ more, db2)

    unfoldable pub escalate_stale_shadows : ℤ → Database F → List ActionDirective × Database F
    unfolding list_unresolved_shadow_certificates escalate_rows
    escalate_stale_shadows now_ms db =
        let (listed, db1) = list_unresolved_shadow_certificates db in
        elim listed [ ok rows ↦ escalate_rows now_ms 0 rows db1 | err e ↦ ([], db1) ]
