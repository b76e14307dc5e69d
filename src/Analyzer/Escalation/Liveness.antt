-- ===== src/Analyzer/Escalation/Liveness.antt =====
-- Three runs of `escalate_stale_shadows` (crates/tlapix-analyzer/src/shadow_escalation.rs) a day apart take
-- every unresolved row to the highest level.
use tlapix.Common.{
  ℕ, ◌≡◌, refl, ap, sym, ◌∙◌, subst, true, false, List, [], ◌∷◌, map, Bool-cases, inl, inr, arith,
}
use tlapix.Common.Int.{ℤ, ltb_ℤ, ◌-ℤ◌, ◌+ℤ◌, ◌≤ℤ◌, +ℤ_parts, -ℤ_parts}
use tlapix.Common.Text.{Text}
use tlapix.Common.Time.{DateTime}
use tlapix.Types.{Fingerprint, RiskLevel, critical, escalate}
use tlapix.Storage.Rows.{ShadowCertificateRow}
use tlapix.Storage.Sql.{exists, is_key, IsUnique}
use tlapix.Storage.Database.{Database, Quiet}
use tlapix.Storage.Shadows.{shadow_key}
use tlapix.Analyzer.Escalation.{
  escalation_interval_ms, is_critical, is_due, reference_time, updated_row, escalate_stale_shadows,
}
use tlapix.Common.{◌*◌}
use tlapix.Common.Int.{pos}
use tlapix.Analyzer.Escalation.Raised.{last_raised}
use tlapix.Analyzer.Escalation.Rows.{is_open, risen}
use tlapix.Analyzer.Escalation.Table.{HasShadows, escalated}

-- A day lies between two instants.
abbrev pub DayApart : ℤ → ℤ → Type 0
DayApart before after = before +ℤ pos (24 * 60 * 60 * 1000) ≤ℤ after

elapsed :
    (before after : ℤ)
    → DayApart before after
    → ltb_ℤ (after -ℤ before) escalation_interval_ms ≡ false
elapsed before after h =
    ground (arith, +ℤ_parts before escalation_interval_ms, -ℤ_parts after before)

critical_stays :
    (now : ℤ) (s : ShadowCertificateRow) → is_critical s.risk_level ≡ true → risen now s ≡ s
unfolding is_due
critical_stays now s top = ground arith

open_rises :
    (now : ℤ) (s : ShadowCertificateRow)
    → is_open s ≡ true
    → is_critical s.risk_level ≡ false
    → DayApart (reference_time s) now
    → risen now s ≡ updated_row now s
unfolding is_due
open_rises now s opened below day = rw (opened, elapsed (reference_time s) now day, below) refl

-- A row that reaches the highest level with one rise is there after a run.
last_rise :
    (now : ℤ) (s : ShadowCertificateRow)
    → is_open s ≡ true
    → DayApart (reference_time s) now
    → is_critical (escalate s.risk_level) ≡ true
    → is_critical (risen now s).risk_level ≡ true
unfolding updated_row
last_rise now s opened day next_top = elim (Bool-cases (is_critical s.risk_level)) [
  | inl top ↦ ap (λ r. is_critical r.risk_level) (critical_stays now s top) ∙ top
  | inr below ↦ ap (λ r. is_critical r.risk_level) (open_rises now s opened below day) ∙ next_top
]

still_critical :
    (now : ℤ) (s : ShadowCertificateRow)
    → is_critical s.risk_level ≡ true
    → is_critical (risen now s).risk_level ≡ true
still_critical now s top = ap (λ r. is_critical r.risk_level) (critical_stays now s top) ∙ top

two_rises :
    (s : ShadowCertificateRow) (m n : ℤ)
    → is_open s ≡ true
    → DayApart (reference_time s) m
    → DayApart m n
    → is_critical (escalate (escalate s.risk_level)) ≡ true
    → is_critical (risen n (risen m s)).risk_level ≡ true
unfolding updated_row
two_rises s m n opened day gap next_top = elim (Bool-cases (is_critical s.risk_level)) [
  | inl top ↦ still_critical n (risen m s) (still_critical m s top)
  | inr below ↦
      subst (λ r. is_critical (risen n r).risk_level ≡ true) (sym (open_rises m s opened below day))
        (last_rise n (updated_row m s) opened gap next_top)
]

escalate_thrice : (l : RiskLevel) → is_critical (escalate (escalate (escalate l))) ≡ true
unfolding escalate
escalate_thrice RiskLevel.low = refl
escalate_thrice RiskLevel.medium = refl
escalate_thrice RiskLevel.high = refl
escalate_thrice RiskLevel.critical = refl

module _ (n1 n2 n3 : ℤ) (first : DayApart n1 n2) (second : DayApart n2 n3) where
  three_rises :
      (s : ShadowCertificateRow)
      → is_open s ≡ true
      → DayApart (reference_time s) n1
      → is_critical (risen n3 (risen n2 (risen n1 s))).risk_level ≡ true
  unfolding updated_row
  three_rises s opened day = elim (Bool-cases (is_critical s.risk_level)) [
    | inl top ↦
        still_critical n3 (risen n2 (risen n1 s))
          (still_critical n2 (risen n1 s) (still_critical n1 s top))
    | inr below ↦
        subst (λ r. is_critical (risen n3 (risen n2 r)).risk_level ≡ true)
          (sym (open_rises n1 s opened below day))
          (two_rises (updated_row n1 s) n2 n3 opened first second (escalate_thrice s.risk_level))
  ]

-- Every unresolved row satisfies a property.
abbrev pub EveryOpen : (ShadowCertificateRow → Type 0) → List ShadowCertificateRow → Type 0
EveryOpen P [] = Unit
EveryOpen P (s ∷ rows) = (is_open s ≡ true → P s) × EveryOpen P rows

open_before : (now : ℤ) (s : ShadowCertificateRow) → is_open (risen now s) ≡ is_open s
unfolding updated_row
open_before now s = ground arith

key_before : (now : ℤ) (s : ShadowCertificateRow) → shadow_key (risen now s) ≡ shadow_key s
unfolding updated_row
key_before now s = ground arith

exists-map-risen :
    (now : ℤ) (k : Fingerprint) (rows : List ShadowCertificateRow)
    → exists (is_key shadow_key k) (map (risen now) rows) ≡ exists (is_key shadow_key k) rows
unfolding exists
exists-map-risen now k [] = refl
exists-map-risen now k (s ∷ rows) = rw (key_before now s, exists-map-risen now k rows) refl

map_risen-IsUnique :
    (now : ℤ) (rows : List ShadowCertificateRow)
    → IsUnique shadow_key rows
    → IsUnique shadow_key (map (risen now) rows)
map_risen-IsUnique now [] u = tt
map_risen-IsUnique now (s ∷ rows) (fresh, u) = (
  rw (key_before now s, exists-map-risen now (shadow_key s) rows) fresh,
  map_risen-IsUnique now rows u,
)

-- The readings of a run: the time at its start, fresh identifiers, and the clock.
pub record Readings : Type 0 where
  pub now_ms : ℤ
  pub uuid : ℕ → ℕ
  pub correlation : ℕ → ℕ
  pub status_ms : ℕ → ℕ → ℤ
  pub created : ℕ → DateTime

abbrev pub IsTop : ShadowCertificateRow → Type 0
IsTop s = s.risk_level ≡ critical

critical_lem : (l : RiskLevel) → is_critical l ≡ true → l ≡ critical
critical_lem RiskLevel.low h = absurd (ground arith)
critical_lem RiskLevel.medium h = absurd (ground arith)
critical_lem RiskLevel.high h = absurd (ground arith)
critical_lem RiskLevel.critical h = refl

module _ (n1 n2 n3 : ℤ) (first : DayApart n1 n2) (second : DayApart n2 n3) where
  rows-IsTop :
      (rows : List ShadowCertificateRow)
      → EveryOpen (λ s. DayApart (reference_time s) n1) rows
      → EveryOpen IsTop (map (risen n3) (map (risen n2) (map (risen n1) rows)))
  rows-IsTop [] h = tt
  rows-IsTop (s ∷ rows) (day, h) = (
    λ opened.
        let was_open =
          sym (open_before n1 s)
          ∙ sym (open_before n2 (risen n1 s))
          ∙ sym (open_before n3 (risen n2 (risen n1 s)))
          ∙ opened in
        critical_lem _ (three_rises n1 n2 n3 first second s was_open (day was_open)),
    rows-IsTop rows h,
  )

module _ (uuid_text : ℕ → Text) {F : Type 0} where
  abbrev pub run : Readings → Database F → Database F
  run r db =
      (escalate_stale_shadows uuid_text r.uuid r.correlation r.status_ms r.created r.now_ms db).1

  run_lem :
      (r : Readings) (table : List ShadowCertificateRow) (db : Database F)
      → IsUnique shadow_key table
      → HasShadows table db
      → HasShadows (map (risen r.now_ms) table) (run r db)
  run_lem r table db u (same, quiet) =
      subst (λ t. HasShadows (map (risen r.now_ms) t) (run r db)) same
        (escalated uuid_text r.uuid r.correlation r.status_ms r.created r.now_ms db quiet
          (subst (IsUnique shadow_key) (sym same) u))

  -- Where no operation fails and fingerprints are unique among the shadow certificates, three runs with a
  -- day at least between them, the first of them a day at least after every unresolved row was last
  -- raised or classified, take every unresolved row to the level critical.
  pub three_runs-critical :
      (a b c : Readings) (db : Database F)
      → Quiet db
      → IsUnique shadow_key db.shadow_certificates
      → EveryOpen (λ s. DayApart (last_raised s) a.now_ms) db.shadow_certificates
      → DayApart a.now_ms b.now_ms
      → DayApart b.now_ms c.now_ms
      → EveryOpen IsTop (run c (run b (run a db))).shadow_certificates
  three_runs-critical a b c db quiet u day first second =
      let t1 = map (risen a.now_ms) db.shadow_certificates in
      let t2 = map (risen b.now_ms) t1 in
      let u1 = map_risen-IsUnique a.now_ms db.shadow_certificates u in
      let h1 = run_lem a db.shadow_certificates db u (refl, quiet) in
      let h2 = run_lem b t1 (run a db) u1 h1 in
      let h3 = run_lem c t2 (run b (run a db)) (map_risen-IsUnique b.now_ms t1 u1) h2 in
      subst (EveryOpen IsTop) (sym h3.0)
        (rows-IsTop a.now_ms b.now_ms c.now_ms first second db.shadow_certificates day)
