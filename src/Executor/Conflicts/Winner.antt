-- ===== src/Executor/Conflicts/Winner.antt =====
-- The winner of a group of directives (crates/tlapix-executor/src/expiry.rs).
use tlapix.Common.{
  ◌==◌, map, ℕ, zero, suc, ◌+◌, ◌<◌, ◌≡◌, refl, ap, sym, ◌∙◌, subst, true, false, some, List, [],
  ◌∷◌, ◌++◌, get_elem?, arith,
}
use tlapix.Common.Text.{Text}
use tlapix.Types.{Severity}
use tlapix.Storage.Rows.{ActionDirectiveRow}
use tlapix.Executor.Conflicts.{
  Resolution, DiscardedDirective, winner_at, parse_severity, best_loop, discard, discard_loop,
  resolve_group,
}
use tlapix.Executor.Conflicts.Most.{FirstMost, alone, best_loop-FirstMost}

module _ (lower : Text → Text) where
  -- The rows of a list but the one at an index, in their order.
  abbrev pub but : {A : Type 0} → ℕ → List A → List A
  but i [] = []
  but zero (x ∷ xs) = xs
  but (suc i) (x ∷ xs) = x ∷ but i xs

  abbrev pub named : ActionDirectiveRow → Text × Text
  named d = (d.id, d.severity)

  abbrev pub named_discarded : DiscardedDirective → Text × Text
  named_discarded d = (d.id, d.severity)

  -- What a group adds to a resolution: a winner that no directive of the group exceeds in severity and
  -- that comes before every other of its own, and as discarded, with their identifiers and severities,
  -- the other directives in their order.
  abbrev pub Resolved : List ActionDirectiveRow → Resolution → Resolution → Type 0
  Resolved group (winners, discarded) (winners', discarded') =
      (best : ℕ) × (w : ActionDirectiveRow) × (get_elem? group best ≡ some w)
      × FirstMost lower group best (parse_severity lower w.severity)
      × (winners' ≡ winners ++ w ∷ [])
      × (map named_discarded discarded'
          ≡ map named_discarded discarded ++ map named (but best group))

  discard_loop-past :
      (i : ℕ) (group : List ActionDirectiveRow) (best : ℕ) (sev : Severity)
      → best < i
      → map named_discarded (discard_loop lower i group best sev) ≡ map named group
  unfolding discard_loop discard
  discard_loop-past i [] best sev lt = refl
  discard_loop-past i (d ∷ group) best sev lt =
      rw (ne, discard_loop-past (i + 1) group best sev (omega arith)) refl
    where
      ne : (i == best) ≡ false
      ne = ground arith

  next_index : (i k : ℕ) → i + 1 + k ≡ i + suc k
  next_index i k = omega arith

  discard_loop-but :
      (i k : ℕ) (group : List ActionDirectiveRow) (sev : Severity)
      → map named_discarded (discard_loop lower i group (i + k) sev) ≡ map named (but k group)
  unfolding discard_loop discard
  discard_loop-but i zero [] sev = refl
  discard_loop-but i (suc k) [] sev = refl
  discard_loop-but i zero (d ∷ group) sev =
      rw eq (discard_loop-past (i + 1) group (i + 0) sev (omega arith))
    where
      eq : (i == i + 0) ≡ true
      eq = ground arith
  discard_loop-but i (suc k) (d ∷ group) sev = rw ne (
      ap (λ l. named d ∷ l)
        (subst
          (λ n.
            map named_discarded (discard_loop lower (i + 1) group n sev) ≡ map named (but k group))
          (next_index i k) (discard_loop-but (i + 1) k group sev)))
    where
      ne : (i == i + suc k) ≡ false
      ne = ground arith

  winner_at-some :
      (group : List ActionDirectiveRow) (i : ℕ) {w : ActionDirectiveRow}
      → get_elem? group i ≡ some w
      → winner_at group i ≡ w ∷ []
  winner_at-some group i h = rw (winner_at, h)

  map-append :
      (xs ys : List DiscardedDirective)
      → map named_discarded (xs ++ ys) ≡ map named_discarded xs ++ map named_discarded ys
  map-append [] ys = refl
  map-append (x ∷ xs) ys = ap (λ l. named_discarded x ∷ l) (map-append xs ys)

  all_others :
      (best : ℕ) (group : List ActionDirectiveRow) (sev : Severity)
      → map named_discarded (discard_loop lower 0 group best sev) ≡ map named (but best group)
  all_others best group sev =
      subst
        (λ n. map named_discarded (discard_loop lower 0 group n sev) ≡ map named (but best group))
        (from_start best) (discard_loop-but 0 best group sev)
    where
      from_start : (n : ℕ) → 0 + n ≡ n
      from_start n = omega arith

  resolve_group-split :
      (d : ActionDirectiveRow) (rest winners : List ActionDirectiveRow)
      (discarded : List DiscardedDirective)
      → resolve_group lower (d ∷ rest) (winners, discarded) ≡ (
        winners
            ++ winner_at (d ∷ rest) (best_loop lower 1 rest 0 (parse_severity lower d.severity)).0,
        discarded
            ++ discard_loop lower 0
                (d ∷ rest)
                (best_loop lower 1 rest 0 (parse_severity lower d.severity)).0
                (best_loop lower 1 rest 0 (parse_severity lower d.severity)).1,
      )
  unfolding resolve_group
  resolve_group-split d rest winners discarded = refl

  -- A group that is not empty has the first of its most severe directives as its winner, and exactly the
  -- others are discarded, in their order, with their identifiers and severities.
  pub resolve_group-Resolved :
      (d : ActionDirectiveRow) (rest : List ActionDirectiveRow) (r : Resolution)
      → Resolved (d ∷ rest) r (resolve_group lower (d ∷ rest) r)
  unfolding resolve_group
  resolve_group-Resolved d rest (winners, discarded) =
      let b =
        best_loop-FirstMost lower (d ∷ []) rest 0 (parse_severity lower d.severity)
          (alone lower d) in
      let (w, at_best, of_sev) = b.held in
      let result = best_loop lower 1 rest 0 (parse_severity lower d.severity) in
      let split = resolve_group-split d rest winners discarded in
      (
        result.0,
        w,
        at_best,
        subst (FirstMost lower (d ∷ rest) result.0) (sym of_sev) b,
        ap (λ r. r.0) split ∙ ap (λ x. winners ++ x) (winner_at-some (d ∷ rest) result.0 at_best),
        ap (λ r. map named_discarded r.1) split
            ∙ map-append discarded (discard_loop lower 0 (d ∷ rest) result.0 result.1)
            ∙ ap (λ l. map named_discarded discarded ++ l)
                (all_others result.0 (d ∷ rest) result.1),
      )
