-- ===== src/Executor/Conflicts/Partition.antt =====
-- How crates/tlapix-executor/src/expiry.rs groups directives by certificate.
use mathlib.Core.List.{append-nil, append_assoc, Memᴰ}
use tlapix.Common.{
  ℕ, ◌≡◌, ◌≢◌, refl, some, get_elem?, ap, sym, ◌∙◌, subst, List, [], ◌∷◌, ◌++◌, bytes_eq,
  bytes_eq_iff, if◌then◌else◌, Bool-cases, inl, inr, arith,
}
use tlapix.Types.{Fingerprint}
use tlapix.Common.Text.{Text}
use tlapix.Storage.Rows.{ActionDirectiveRow}
use tlapix.Executor.Conflicts.{
  Groups, Resolution, add_to_group, group_all, parse_severity, resolve_group, resolve_groups,
  resolve_conflicts,
}
use tlapix.Executor.Conflicts.Most.{FirstMost}
use tlapix.Executor.Conflicts.Winner.{resolve_group-Resolved}

-- The group under a fingerprint, empty if there is none.
unfoldable pub group_of : Fingerprint → Groups → List ActionDirectiveRow
group_of fp [] = []
group_of fp ((key, group) ∷ rest) = if bytes_eq fp key then group else group_of fp rest

-- The directives for a certificate, in order.
unfoldable pub targeting : Fingerprint → List ActionDirectiveRow → List ActionDirectiveRow
targeting fp [] = []
targeting fp (d ∷ directives) =
    let rest = targeting fp directives in if bytes_eq fp d.cert_fingerprint then d ∷ rest else rest

group_of-add :
    (fp : Fingerprint) (d : ActionDirectiveRow) (groups : Groups)
    → group_of fp (add_to_group d groups) ≡ group_of fp groups ++ targeting fp (d ∷ [])
unfolding group_of add_to_group targeting
group_of-add fp d [] = ground arith
group_of-add fp d ((key, group) ∷ rest) = ground (
  arith,
  bytes_eq_iff fp key,
  bytes_eq_iff fp d.cert_fingerprint,
  bytes_eq_iff d.cert_fingerprint key,
  append-nil group,
  append-nil (group_of fp rest),
  group_of-add fp d rest,
)

targeting-append :
    (fp : Fingerprint) (xs ys : List ActionDirectiveRow)
    → targeting fp (xs ++ ys) ≡ targeting fp xs ++ targeting fp ys
unfolding targeting
targeting-append fp [] ys = refl
targeting-append fp (x ∷ xs) ys = ground (arith, targeting-append fp xs ys)

group_of-all :
    (fp : Fingerprint) (directives : List ActionDirectiveRow) (groups : Groups)
    → group_of fp (group_all directives groups) ≡ group_of fp groups ++ targeting fp directives
unfolding group_all targeting
group_of-all fp [] groups = sym (append-nil (group_of fp groups))
group_of-all fp (d ∷ directives) groups =
    group_of-all fp directives (add_to_group d groups)
    ∙ ap (λ l. l ++ targeting fp directives) (group_of-add fp d groups)
    ∙ append_assoc (group_of fp groups) (targeting fp (d ∷ [])) (targeting fp directives)
    ∙ ap (λ l. group_of fp groups ++ l) (sym (targeting-append fp (d ∷ []) directives))

-- The group of a certificate is the directives for it, all of them and in their order.
pub group_all-targeting :
    (fp : Fingerprint) (directives : List ActionDirectiveRow)
    → group_of fp (group_all directives []) ≡ targeting fp directives
unfolding group_of
group_all-targeting fp directives = group_of-all fp directives []

module _ (lower : Text → Text) where
  -- The winner of a group, among the winners.
  abbrev pub HasWinner : List ActionDirectiveRow → List ActionDirectiveRow → Type 0
  HasWinner group winners =
      (best : ℕ) × (w : ActionDirectiveRow) × (get_elem? group best ≡ some w)
      × FirstMost lower group best (parse_severity lower w.severity)
      × Memᴰ w winners

  mem-append-left : {A : Type 0} {a : A} {xs : List A} (ys : List A) → Memᴰ a xs → Memᴰ a (xs ++ ys)
  mem-append-left ys (Memᴰ.head e) = Memᴰ.head e
  mem-append-left ys (Memᴰ.tail m) = Memᴰ.tail (mem-append-left ys m)

  mem-last : {A : Type 0} (xs : List A) (a : A) → Memᴰ a (xs ++ a ∷ [])
  mem-last [] a = Memᴰ.head refl
  mem-last (x ∷ xs) a = Memᴰ.tail (mem-last xs a)

  resolve_group-keeps :
      (group : List ActionDirectiveRow) (r : Resolution) {w : ActionDirectiveRow}
      → Memᴰ w r.0
      → Memᴰ w (resolve_group lower group r).0
  unfolding resolve_group
  resolve_group-keeps [] r m = m
  resolve_group-keeps (d ∷ rest) r {w} m =
      let (_, v, _, _, won, _) = resolve_group-Resolved lower d rest r in
      subst (Memᴰ w) (sym won) (mem-append-left (v ∷ []) m)

  resolve_groups-keeps :
      (groups : Groups) (r : Resolution) {w : ActionDirectiveRow}
      → Memᴰ w r.0
      → Memᴰ w (resolve_groups lower groups r).0
  unfolding resolve_groups
  resolve_groups-keeps [] r m = m
  resolve_groups-keeps ((key, group) ∷ rest) r m =
      resolve_groups-keeps rest (resolve_group lower group r) (resolve_group-keeps group r m)

  resolve_group-HasWinner :
      (group : List ActionDirectiveRow) (r : Resolution)
      → group ≢ []
      → HasWinner group (resolve_group lower group r).0
  resolve_group-HasWinner [] r some_left = absurd (some_left refl)
  resolve_group-HasWinner (d ∷ rest) r some_left =
      let (best, w, held, most, won, _) = resolve_group-Resolved lower d rest r in
      (best, w, held, most, subst (Memᴰ w) (sym won) (mem-last r.0 w))

  resolve_groups-HasWinner :
      (fp : Fingerprint) (groups : Groups) (r : Resolution)
      → group_of fp groups ≢ []
      → HasWinner (group_of fp groups) (resolve_groups lower groups r).0
  unfolding resolve_groups group_of
  resolve_groups-HasWinner fp [] r some_left = absurd (some_left refl)
  resolve_groups-HasWinner fp ((key, group) ∷ rest) r some_left =
      elim (Bool-cases (bytes_eq fp key)) [
        | inl here ↦
            let this : group_of fp ((key, group) ∷ rest) ≡ group = rw (group_of, here) in
            subst (λ g. HasWinner g (resolve_groups lower rest (resolve_group lower group r)).0)
              (sym this)
              (kept rest (resolve_group lower group r)
                (resolve_group-HasWinner group r (λ e. some_left (this ∙ e))))
        | inr there ↦
            let later : group_of fp ((key, group) ∷ rest) ≡ group_of fp rest =
              rw (group_of, there) in
            subst (λ g. HasWinner g (resolve_groups lower rest (resolve_group lower group r)).0)
              (sym later)
              (resolve_groups-HasWinner fp rest (resolve_group lower group r)
                (λ e. some_left (later ∙ e)))
      ]
    where
      kept :
          {g : List ActionDirectiveRow} (gs : Groups) (q : Resolution)
          → HasWinner g q.0
          → HasWinner g (resolve_groups lower gs q).0
      kept gs q (best, w, held, most, won) = (best, w, held, most, resolve_groups-keeps gs q won)

  -- For each certificate that directives target, the first of the most severe among all of them is one
  -- of the winners.
  pub resolve_conflicts-HasWinner :
      (fp : Fingerprint) (directives : List ActionDirectiveRow)
      → targeting fp directives ≢ []
      → HasWinner (targeting fp directives) (resolve_conflicts lower directives).0
  unfolding resolve_conflicts
  resolve_conflicts-HasWinner fp directives some_left =
      subst (λ g. HasWinner g (resolve_conflicts lower directives).0)
        (group_all-targeting fp directives)
        (resolve_groups-HasWinner fp (group_all directives []) ([], [])
          (λ e. some_left (sym (group_all-targeting fp directives) ∙ e)))
