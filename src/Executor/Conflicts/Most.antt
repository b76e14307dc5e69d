-- ===== src/Executor/Conflicts/Most.antt =====
-- The first of the most severe directives of a group (crates/tlapix-executor/src/expiry.rs).
use mathlib.Core.List.{append-nil, append_assoc}
use tlapix.Common.{
  ℕ, zero, suc, ◌+◌, ◌≤◌, ◌<◌, ◌≡◌, ◌⊎◌, inl, inr, refl, ap, sym, ◌∙◌, subst, true, false, some,
  List, [], ◌∷◌, ◌++◌, get_elem?, length, length-append, Bool-cases, ltb→lt, arith,
}
use tlapix.Common.Text.{Text}
use tlapix.Types.{Severity, to_bpf_value}
use tlapix.Storage.Rows.{ActionDirectiveRow}
use tlapix.Executor.Conflicts.{more_severe, parse_severity, best_loop}

get-snoc-old :
    {A : Type 0} (l : List A) (a : A) (j : ℕ)
    → j < length l
    → get_elem? (l ++ a ∷ []) j ≡ get_elem? l j
get-snoc-old [] a j lt = absurd (omega arith)
get-snoc-old (x ∷ l) a zero lt = refl
get-snoc-old (x ∷ l) a (suc j) lt = get-snoc-old l a j (omega arith)

get-snoc-new : {A : Type 0} (l : List A) (a : A) → get_elem? (l ++ a ∷ []) (length l) ≡ some a
get-snoc-new [] a = refl
get-snoc-new (x ∷ l) a = get-snoc-new l a

pub get-bound : {A : Type 0} (l : List A) (j : ℕ) {a : A} → get_elem? l j ≡ some a → j < length l
get-bound [] j h = cc
get-bound (x ∷ l) zero h = omega arith
get-bound (x ∷ l) (suc j) h = omega (arith, get-bound l j h)

module _ (lower : Text → Text) where
  abbrev pub rank : ActionDirectiveRow → ℕ
  rank d = to_bpf_value (parse_severity lower d.severity)

  -- The row at `best` has severity `sev`; none is more severe, and those before it are less.
  pub record FirstMost (group : List ActionDirectiveRow) (best : ℕ) (sev : Severity) : Type 0 where
    pub held :
        (w : ActionDirectiveRow) × (get_elem? group best ≡ some w)
        × (parse_severity lower w.severity ≡ sev)
    pub most :
        (j : ℕ) (d : ActionDirectiveRow) → get_elem? group j ≡ some d → rank d ≤ to_bpf_value sev
    pub first :
        (j : ℕ) (d : ActionDirectiveRow)
        → get_elem? group j ≡ some d
        → j < best
        → rank d < to_bpf_value sev

  snoc-cases :
      (seen : List ActionDirectiveRow) (d : ActionDirectiveRow) (j : ℕ) {x : ActionDirectiveRow}
      → get_elem? (seen ++ d ∷ []) j ≡ some x
      → (get_elem? seen j ≡ some x) ⊎ ((x ≡ d) × (j ≡ length seen))
  snoc-cases [] d zero h = inr (ground arith, refl)
  snoc-cases [] d (suc j) h = cc
  snoc-cases (y ∷ seen) d zero h = inl h
  snoc-cases (y ∷ seen) d (suc j) h = elim (snoc-cases seen d j h) [
    | inl old ↦ inl old
    | inr (same, at_end) ↦ inr (same, ap suc at_end)
  ]

  keeps :
      (seen : List ActionDirectiveRow) (d : ActionDirectiveRow) (best : ℕ) (sev : Severity)
      → more_severe (parse_severity lower d.severity) sev ≡ false
      → FirstMost seen best sev
      → FirstMost (seen ++ d ∷ []) best sev
  unfolding more_severe
  keeps seen d best sev not_more b =
      let (w, at_best, of_sev) = b.held in
      record {
        held = (w, get-snoc-old seen d best (get-bound seen best at_best) ∙ at_best, of_sev);
        most = λ j x h. elim (snoc-cases seen d j h) [
          | inl old ↦ b.most j x old
          | inr (same, _) ↦ ground arith
        ];
        first = λ j x h lt. elim (snoc-cases seen d j h) [
          | inl old ↦ b.first j x old lt
          | inr (same, at_end) ↦ absurd (omega (arith, get-bound seen best at_best))
        ];
      }

  replaces :
      (seen : List ActionDirectiveRow) (d : ActionDirectiveRow) (best : ℕ) (sev : Severity)
      → more_severe (parse_severity lower d.severity) sev ≡ true
      → FirstMost seen best sev
      → FirstMost (seen ++ d ∷ []) (length seen) (parse_severity lower d.severity)
  unfolding more_severe
  replaces seen d best sev more b = record {
    held = (d, get-snoc-new seen d, refl);
    most = λ j x h. elim (snoc-cases seen d j h) [
      | inl old ↦ omega (arith, b.most j x old, ltb→lt _ _ more)
      | inr (same, _) ↦ rw same (omega arith)
    ];
    first = λ j x h lt. elim (snoc-cases seen d j h) [
      | inl old ↦ omega (arith, b.most j x old, ltb→lt _ _ more)
      | inr (same, at_end) ↦ absurd (omega arith)
    ];
  }

  pub alone : (d : ActionDirectiveRow) → FirstMost (d ∷ []) 0 (parse_severity lower d.severity)
  alone d = record {
    held = (d, refl, refl);
    most = λ j x h. ground arith;
    first = λ j x h lt. absurd (omega arith);
  }

  best_loop_more :
      (i : ℕ) (d : ActionDirectiveRow) (rest : List ActionDirectiveRow) (best : ℕ) (sev : Severity)
      → more_severe (parse_severity lower d.severity) sev ≡ true
      → best_loop lower i (d ∷ rest) best sev
        ≡ best_loop lower (i + 1) rest i (parse_severity lower d.severity)
  unfolding best_loop
  best_loop_more i d rest best sev more = cc

  best_loop_less :
      (i : ℕ) (d : ActionDirectiveRow) (rest : List ActionDirectiveRow) (best : ℕ) (sev : Severity)
      → more_severe (parse_severity lower d.severity) sev ≡ false
      → best_loop lower i (d ∷ rest) best sev ≡ best_loop lower (i + 1) rest best sev
  unfolding best_loop
  best_loop_less i d rest best sev not_more = cc

  pub best_loop-FirstMost :
      (seen rest : List ActionDirectiveRow) (best : ℕ) (sev : Severity)
      → FirstMost seen best sev
      → FirstMost
          (seen ++ rest)
          (best_loop lower (length seen) rest best sev).0
          (best_loop lower (length seen) rest best sev).1
  unfolding best_loop
  best_loop-FirstMost seen [] best sev b =
      subst (λ l. FirstMost l best sev) (sym (append-nil seen)) b
  best_loop-FirstMost seen (d ∷ rest) best sev b =
      let moved : (best' : ℕ) (sev' : Severity)
          → FirstMost (seen ++ d ∷ []) best' sev'
          → FirstMost (seen ++ d ∷ rest) (best_loop lower (length seen + 1) rest best' sev').0
              (best_loop lower (length seen + 1) rest best' sev').1 =
        λ best' sev' h.
          subst
            (λ l.
              FirstMost l (best_loop lower (length seen + 1) rest best' sev').0
                (best_loop lower (length seen + 1) rest best' sev').1)
            (append_assoc seen (d ∷ []) rest)
            (subst
              (λ n.
                FirstMost ((seen ++ d ∷ []) ++ rest) (best_loop lower n rest best' sev').0
                  (best_loop lower n rest best' sev').1)
              (length-append seen (d ∷ []))
              (best_loop-FirstMost (seen ++ d ∷ []) rest best' sev' h)) in
      elim (Bool-cases (more_severe (parse_severity lower d.severity) sev)) [
        | inl more ↦
            subst (λ r. FirstMost (seen ++ d ∷ rest) r.0 r.1)
              (sym (best_loop_more (length seen) d rest best sev more))
              (moved (length seen) (parse_severity lower d.severity)
                (replaces seen d best sev more b))
        | inr not_more ↦
            subst (λ r. FirstMost (seen ++ d ∷ rest) r.0 r.1)
              (sym (best_loop_less (length seen) d rest best sev not_more))
              (moved best sev (keeps seen d best sev not_more b))
      ]
