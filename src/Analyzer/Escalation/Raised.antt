-- ===== src/Analyzer/Escalation/Raised.antt =====
-- What a run of crates/tlapix-analyzer/src/shadow_escalation.rs makes of one row, stated apart from its code.
use tlapix.Common.{◌||◌, if◌then◌else◌, Option, some, ◌*◌, ◌-◌, ◌^◌, ◌≡◌, none, arith}
use tlapix.Common.Int.{ℤ, pos, negsuc, ltb_ℤ, ◌+ℤ◌, ◌-ℤ◌, +ℤ_parts, -ℤ_parts}
use tlapix.Types.{RiskLevel, escalate}
use tlapix.Storage.Rows.{ShadowCertificateRow}
use tlapix.Analyzer.Escalation.{suc_i32, is_due, updated_row}
use tlapix.Analyzer.Escalation.Rows.{risen}

-- The next level, if there is one.
abbrev pub above : RiskLevel → Option RiskLevel
above RiskLevel.low = some RiskLevel.medium
above RiskLevel.medium = some RiskLevel.high
above RiskLevel.high = some RiskLevel.critical
above RiskLevel.critical = none

-- One more in an i32.
abbrev one_more : ℤ → ℤ
one_more n = if ltb_ℤ n (pos (2 ^ 31 - 1)) then n +ℤ pos 1 else negsuc (2 ^ 31 - 1)

abbrev raised_to : ℤ → ShadowCertificateRow → Option RiskLevel → ShadowCertificateRow
raised_to now s none = s
raised_to now s (some level) = record s {
  risk_level = level;
  last_escalated = some now;
  escalation_count = one_more s.escalation_count;
}

-- When a row was last raised, or else classified.
abbrev pub last_raised : ShadowCertificateRow → ℤ
last_raised s = elim s.last_escalated [ none ↦ s.first_classified | some t ↦ t ]

-- A row after a run at `now`: raised if it is unresolved and a day has passed since it last was.
abbrev pub raised : ℤ → ShadowCertificateRow → ShadowCertificateRow
raised now s =
    if s.is_resolved || ltb_ℤ now (last_raised s +ℤ pos (24 * 60 * 60 * 1000))
    then s
    else raised_to now s (above s.risk_level)

one_more_lem : (n : ℤ) → suc_i32 n ≡ one_more n
one_more_lem n = ground (arith, +ℤ_parts n (pos 1))

day_lem : (now t : ℤ) → ltb_ℤ (now -ℤ t) (pos 86400000) ≡ ltb_ℤ now (t +ℤ pos 86400000)
day_lem now t = ground (arith, +ℤ_parts t (pos 86400000), -ℤ_parts now t)

pub risen-raised : (now : ℤ) (s : ShadowCertificateRow) → risen now s ≡ raised now s
unfolding is_due updated_row escalate
risen-raised now s = ground (
  arith,
  day_lem now s.first_classified,
  +ℤ_parts s.first_classified (pos 86400000),
  one_more_lem s.escalation_count,
  day_lem now (last_raised s),
)
