-- ===== src/Executor/Conflicts.antt =====
-- `resolve_conflicts` of crates/tlapix-executor/src/expiry.rs: of the directives for one certificate
-- the most severe wins, the first of equals. The lower case of Unicode is a parameter. The groups are
-- listed in the order of their first members; the order in which a hash map lists them is not
-- specified, and the theorems do not depend on it.
pub mod Most
pub mod Winner
pub mod Partition
pub mod Tests
use tlapix.Common.{
  ℕ, ◌+◌, Bool, Option, none, some, List, [], ◌∷◌, ◌++◌, get_elem?, ltb, ◌==◌, if◌then◌else◌,
  bytes_eq,
}
use tlapix.Common.Text.{Text, text}
use tlapix.Types.{Fingerprint, Severity, to_bpf_value}
use tlapix.Storage.Rows.{ActionDirectiveRow}

pub record DiscardedDirective : Type 0 where
  pub id : Text
  pub severity : Text
  pub reason : Text

-- `{:?}` of a severity.
unfoldable pub severity_debug : Severity → Text
severity_debug Severity.low = text "Low"
severity_debug Severity.medium = text "Medium"
severity_debug Severity.high = text "High"
severity_debug Severity.critical = text "Critical"

-- The derived order of severities is that of their numbers.
unfoldable pub more_severe : Severity → Severity → Bool
unfolding to_bpf_value
more_severe a b = ltb (to_bpf_value b) (to_bpf_value a)

abbrev pub Groups : Type 0
Groups = List (Fingerprint × List ActionDirectiveRow)

-- `groups.entry(d.cert_fingerprint).or_default().push(d)`
unfoldable pub add_to_group : ActionDirectiveRow → Groups → Groups
unfolding bytes_eq
add_to_group d [] = (d.cert_fingerprint, d ∷ []) ∷ []
add_to_group d ((key, group) ∷ rest) =
    if bytes_eq d.cert_fingerprint key
    then (key, group ++ d ∷ []) ∷ rest
    else (key, group) ∷ add_to_group d rest

unfoldable pub group_all : List ActionDirectiveRow → Groups → Groups
unfolding add_to_group
group_all [] groups = groups
group_all (d ∷ directives) groups = group_all directives (add_to_group d groups)

-- The winners, then the discarded.
abbrev pub Resolution : Type 0
Resolution = List ActionDirectiveRow × List DiscardedDirective

-- `group[best_idx]`, where an index out of range would panic.
abbrev pub winner_at : List ActionDirectiveRow → ℕ → List ActionDirectiveRow
winner_at group i = elim (get_elem? group i) [ some w ↦ w ∷ [] | none ↦ [] ]

module _ (to_lowercase : Text → Text) where
  unfoldable pub parse_severity : Text → Severity
  unfolding bytes_eq
  parse_severity s =
      let lower = to_lowercase s in
      if bytes_eq lower (text "critical")
      then Severity.critical
      else if bytes_eq lower (text "high")
      then Severity.high
      else if bytes_eq lower (text "medium")
      then Severity.medium
      else if bytes_eq lower (text "low")
      then Severity.low
      else Severity.low

  -- The loop from index `i` on, with the best index and severity so far.
  unfoldable pub best_loop : ℕ → List ActionDirectiveRow → ℕ → Severity → ℕ × Severity
  unfolding more_severe parse_severity
  best_loop i [] best_idx best_severity = (best_idx, best_severity)
  best_loop i (directive ∷ rest) best_idx best_severity =
      let sev = parse_severity directive.severity in
      let kept = best_loop (i + 1) rest best_idx best_severity in
      let replaced = best_loop (i + 1) rest i sev in
      if more_severe sev best_severity then replaced else kept

  unfoldable pub discard : Severity → ActionDirectiveRow → DiscardedDirective
  unfolding severity_debug
  discard best_severity directive = record {
    id = directive.id;
    severity = directive.severity;
    reason =
        text "Lower severity than winner (winner severity: "
        ++ (severity_debug best_severity ++ text ")");
  }

  -- The rows of a group from index `i` on, without the winner.
  unfoldable pub discard_loop : ℕ → List ActionDirectiveRow → ℕ → Severity → List DiscardedDirective
  unfolding discard
  discard_loop i [] best_idx best_severity = []
  discard_loop i (directive ∷ rest) best_idx best_severity =
      let others = discard_loop (i + 1) rest best_idx best_severity in
      if i == best_idx then others else discard best_severity directive ∷ others

  unfoldable pub resolve_group : List ActionDirectiveRow → Resolution → Resolution
  unfolding best_loop discard_loop
  resolve_group [] (winners, discarded) = (winners, discarded)
  resolve_group (first ∷ rest) (winners, discarded) =
      let (best_idx, best_severity) = best_loop 1 rest 0 (parse_severity first.severity) in
      (
        winners ++ winner_at (first ∷ rest) best_idx,
        discarded ++ discard_loop 0 (first ∷ rest) best_idx best_severity,
      )

  unfoldable pub resolve_groups : Groups → Resolution → Resolution
  unfolding resolve_group
  resolve_groups [] r = r
  resolve_groups ((key, group) ∷ rest) r = resolve_groups rest (resolve_group group r)

  unfoldable pub resolve_conflicts : List ActionDirectiveRow → Resolution
  unfolding group_all resolve_groups
  resolve_conflicts directives = resolve_groups (group_all directives []) ([], [])
