-- ===== src/Analyzer/Escalation/Tests.antt =====
-- Runs of the escalation, and its theorems at them.
use tlapix.Common.{ℕ, ◌+◌, ◌*◌, ◌≡◌, refl, [], ◌∷◌, map, arith}
use tlapix.Common.Int.{pos}
use tlapix.Common.Text.{Text, text}
use tlapix.Types.{RiskLevel, escalate}
use tlapix.Storage.Database.{Database}
use tlapix.Storage.Sql.{IsUnique}
use tlapix.Storage.Shadows.{shadow_key}
use tlapix.Storage.Tests.{programs, shadow_row, directive, two_certificates}
use tlapix.Analyzer.Escalation.{
  is_due, updated_row, replace_loop, replace_prior_directives, critical_directive, directive_row,
  raise_alert, escalate_row, escalate_rows, escalate_stale_shadows,
}
use tlapix.Analyzer.Escalation.Raised.{raised, last_raised}
use tlapix.Analyzer.Escalation.Table.{HasShadows, escalate_stale_shadows-risen}
use tlapix.Analyzer.Escalation.Liveness.{
  DayApart, EveryOpen, Readings, IsTop, run, three_runs-critical,
}

abbrev shadows : Database ℕ
shadows = record two_certificates {
  shadow_certificates = shadow_row 1 RiskLevel.low ∷ shadow_row 2 RiskLevel.high ∷ [];
  action_directives = directive "d" 2 ∷ [];
}

abbrev day : ℕ
day = 86400000

abbrev at_day : ℕ → Readings
at_day n = record {
  now_ms = pos (n * day);
  uuid = λ i. i;
  correlation = λ i. i + 10;
  status_ms = λ i k. pos (n * day);
  created = λ i. pos (n * day * 1000000);
}

abbrev uuid_text : ℕ → Text
uuid_text n = (n + 100) ∷ []

abbrev after_a_day : Database ℕ
after_a_day = run uuid_text (at_day 1) shadows

levels_run :
    map (λ s. s.risk_level) after_a_day.shadow_certificates
    ≡ RiskLevel.medium ∷ RiskLevel.critical ∷ []
unfolding programs escalate is_due updated_row replace_loop replace_prior_directives
    critical_directive directive_row raise_alert escalate_row escalate_rows escalate_stale_shadows
levels_run = refl

statuses_run :
    map (λ d. d.status) after_a_day.action_directives ≡ text "replaced" ∷ text "pending" ∷ []
unfolding programs escalate is_due updated_row replace_loop replace_prior_directives
    critical_directive directive_row raise_alert escalate_row escalate_rows escalate_stale_shadows
statuses_run = refl

shadows-IsUnique : IsUnique shadow_key shadows.shadow_certificates
unfolding programs
shadows-IsUnique = (refl, (refl, tt))

escalate_stale_shadows-risen_example :
    HasShadows (map (raised (pos day)) shadows.shadow_certificates) after_a_day
escalate_stale_shadows-risen_example =
    escalate_stale_shadows-risen uuid_text (λ i. i) (λ i. i + 10) (λ i k. pos (1 * day))
      (λ i. pos (1 * day * 1000000)) (pos day) shadows refl shadows-IsUnique

every_day : EveryOpen (λ s. DayApart (last_raised s) (pos day)) shadows.shadow_certificates
unfolding programs
every_day = ((λ opened. omega arith), ((λ opened. omega arith), tt))

first_day : DayApart (pos day) (pos (2 * day))
unfolding programs
first_day = omega arith

second_day : DayApart (pos (2 * day)) (pos (3 * day))
unfolding programs
second_day = omega arith

three_runs-critical_example :
    EveryOpen IsTop
      (run uuid_text
        (at_day 3)
        (run uuid_text (at_day 2) (run uuid_text (at_day 1) shadows))).shadow_certificates
three_runs-critical_example =
    three_runs-critical uuid_text (at_day 1) (at_day 2) (at_day 3) shadows refl shadows-IsUnique
      every_day first_day second_day
