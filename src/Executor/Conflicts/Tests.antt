-- ===== src/Executor/Conflicts/Tests.antt =====
-- Three directives for one certificate and one for another, and the theorems at them.
use tlapix.Common.{ℕ, ◌≡◌, ◌≢◌, refl, none, List, [], ◌∷◌, bytes_eq, map, replicate}
use tlapix.Common.Text.{Text, text}
use tlapix.Types.{to_bpf_value}
use tlapix.Common.Int.{pos}
use tlapix.Storage.Rows.{ActionDirectiveRow}
use tlapix.Executor.Conflicts.{
  severity_debug, more_severe, add_to_group, group_all, parse_severity, best_loop, discard,
  discard_loop, resolve_group, resolve_groups, resolve_conflicts,
}
use tlapix.Executor.Conflicts.Winner.{Resolved, resolve_group-Resolved}
use tlapix.Executor.Conflicts.Partition.{
  group_of, targeting, HasWinner, resolve_conflicts-HasWinner,
}

programs : Unit {0}
unfolding bytes_eq to_bpf_value severity_debug more_severe add_to_group group_all parse_severity
    best_loop discard discard_loop resolve_group resolve_groups resolve_conflicts group_of targeting
programs = tt

abbrev lower : Text → Text
lower s = s

abbrev row : Text → ℕ → Text → ActionDirectiveRow
row id n severity = record {
  id = id;
  correlation_id = text "c";
  cert_fingerprint = replicate 32 n;
  action_type = text "alert";
  severity = severity;
  reasoning = none;
  status = text "pending";
  attempt_count = pos 0;
  created_at = pos 0;
  executed_at = none;
  expired_at = none;
  failure_reason = none;
}

abbrev rows : List ActionDirectiveRow
rows =
    row (text "a") 1 (text "medium")
    ∷ row (text "b") 2 (text "low")
    ∷ row (text "c") 1 (text "critical")
    ∷ row (text "d") 1 (text "critical")
    ∷ []

winners_run : map (λ w. w.id) (resolve_conflicts lower rows).0 ≡ text "c" ∷ text "b" ∷ []
unfolding programs
winners_run = refl

discarded_run : map (λ d. d.id) (resolve_conflicts lower rows).1 ≡ text "a" ∷ text "d" ∷ []
unfolding programs
discarded_run = refl

rows_target : targeting (replicate 32 1) rows ≢ []
unfolding programs
rows_target e = cc

resolve_conflicts-HasWinner_example :
    HasWinner lower (targeting (replicate 32 1) rows) (resolve_conflicts lower rows).0
resolve_conflicts-HasWinner_example =
    resolve_conflicts-HasWinner lower (replicate 32 1) rows rows_target

resolve_group-Resolved_example : Resolved lower rows ([], []) (resolve_group lower rows ([], []))
resolve_group-Resolved_example =
    resolve_group-Resolved lower (row (text "a") 1 (text "medium"))
      (row (text "b") 2 (text "low")
        ∷ row (text "c") 1 (text "critical")
        ∷ row (text "d") 1 (text "critical")
        ∷ [])
      ([], [])
