-- ===== src/Storage/Sql/Laws.antt =====
-- What a lookup by key sees after each kind of statement, and what keeps keys unique.
use mathlib.Core.List.{Memᴰ}
use mathlib.Core.List.Memᴰ.{not-nil}
use tlapix.Common.{
  subst, sym, bytes_eq_refl, refl, Bool-cases, ℕ, ◌≡◌, inl, inr, refl, Bool, true, false, ◌||◌,
  Option, none, some, List, [], ◌∷◌, ◌++◌, if◌then◌else◌, bytes_eq, bytes_eq_iff, Bool-cases, arith,
}
use tlapix.Storage.Sql.{delete_where, update_where, exists, is_key, find, upsert, IsUnique}

abbrev pub apply_to : {R : Type 0} → (R → R) → Option R → Option R
apply_to f none = none
apply_to f (some r) = some (f r)

module _ {R : Type 0} where
  pub member_exists :
      (p : R → Bool) (rows : List R) {r : R} → Memᴰ r rows → p r ≡ true → exists p rows ≡ true
  unfolding exists
  member_exists p [] there h = absurd (not-nil there)
  member_exists p (q ∷ rows) (Memᴰ.head same) h = rw (exists, subst (λ x. p x ≡ true) same h) refl
  member_exists p (q ∷ rows) (Memᴰ.tail there) h = ground (arith, member_exists p rows there h)

module _ {R : Type 0} (key : R → List ℕ) where
  -- A change to rows that leaves their keys.
  abbrev pub KeepsKey : (R → R) → Type 0
  KeepsKey f = (r : R) → key (f r) ≡ key r

  pub exists_find :
      (k : List ℕ) (rows : List R)
      → exists (is_key key k) rows ≡ true
      → (r : R) × (find key k rows ≡ some r) × (key r ≡ k)
  unfolding exists find
  exists_find k [] h = absurd (ground arith)
  exists_find k (r ∷ rows) h = elim (Bool-cases (is_key key k r)) [
    | inl here ↦ (r, rw here, (bytes_eq_iff (key r) k).0 here)
    | inr there ↦
        let (q, found, same) = exists_find k rows (ground arith) in (q, rw there found, same)
  ]

  pub not_exists_find :
      (k : List ℕ) (rows : List R) → exists (is_key key k) rows ≡ false → find key k rows ≡ none
  unfolding exists find
  not_exists_find k [] h = refl
  not_exists_find k (r ∷ rows) h = ground (arith, not_exists_find k rows)

  pub find_exists :
      (k : List ℕ) (rows : List R) {r : R}
      → find key k rows ≡ some r
      → exists (is_key key k) rows ≡ true
  unfolding exists find
  find_exists k [] h = cc
  find_exists k (q ∷ rows) {r} h = ground (arith, find_exists k rows {r = r})

  pub find-append :
      (k : List ℕ) (rows : List R) (r : R)
      → find key k (rows ++ r ∷ []) ≡ (
          if exists (is_key key k) rows
          then find key k rows
          else if is_key key k r
          then some r
          else none)
  unfolding exists find
  find-append k [] r = ground arith
  find-append k (q ∷ rows) r = ground (arith, find-append k rows r)

  pub find-update :
      (k j : List ℕ) (f : R → R) (rows : List R)
      → KeepsKey f
      → find key j (update_where (is_key key k) f rows)
        ≡ (if bytes_eq k j then apply_to f (find key j rows) else find key j rows)
  unfolding update_where find
  find-update k j f [] keeps = ground arith
  find-update k j f (q ∷ rows) keeps = ground (
    arith,
    find-update k j f rows keeps,
    keeps q,
    bytes_eq_iff (key q) k,
    bytes_eq_iff (key q) j,
    bytes_eq_iff k j,
  )

  pub exists-update :
      (k : List ℕ) (p : R → Bool) (f : R → R) (rows : List R)
      → KeepsKey f
      → exists (is_key key k) (update_where p f rows) ≡ exists (is_key key k) rows
  unfolding update_where exists
  exists-update k p f [] keeps = refl
  exists-update k p f (q ∷ rows) keeps = ground (arith, exists-update k p f rows keeps, keeps q)

  pub exists-append :
      (p : R → Bool) (rows : List R) (r : R) → exists p (rows ++ r ∷ []) ≡ (exists p rows || p r)
  unfolding exists
  exists-append p [] r = ground arith
  exists-append p (q ∷ rows) r = ground (arith, exists-append p rows r)

  pub update-IsUnique :
      (p : R → Bool) (f : R → R) (rows : List R)
      → KeepsKey f
      → IsUnique key rows
      → IsUnique key (update_where p f rows)
  unfolding update_where
  update-IsUnique p f [] keeps u = tt
  update-IsUnique p f (r ∷ rows) keeps (fresh, u) = (
    elim (Bool-cases (p r)) [
      | inl hit ↦ rw (hit, keeps r, exists-update (key r) p f rows keeps, fresh)
      | inr miss ↦ rw (miss, exists-update (key r) p f rows keeps, fresh)
    ],
    update-IsUnique p f rows keeps u,
  )

  exists-delete :
      (k : List ℕ) (p : R → Bool) (rows : List R)
      → exists (is_key key k) rows ≡ false
      → exists (is_key key k) (delete_where p rows) ≡ false
  unfolding delete_where exists
  exists-delete k p [] h = refl
  exists-delete k p (q ∷ rows) h = ground (arith, exists-delete k p rows)

  pub delete-IsUnique :
      (p : R → Bool) (rows : List R) → IsUnique key rows → IsUnique key (delete_where p rows)
  unfolding delete_where
  delete-IsUnique p [] u = tt
  delete-IsUnique p (r ∷ rows) (fresh, u) = elim (Bool-cases (p r)) [
    | inl hit ↦ rw (delete_where, hit) (delete-IsUnique p rows u)
    | inr miss ↦
        rw (delete_where, miss) (exists-delete (key r) p rows fresh, delete-IsUnique p rows u)
  ]

  pub append-IsUnique :
      (rows : List R) (r : R)
      → exists (is_key key (key r)) rows ≡ false
      → IsUnique key rows
      → IsUnique key (rows ++ r ∷ [])
  unfolding exists
  append-IsUnique [] r fresh u = (refl, tt)
  append-IsUnique (q ∷ rows) r fresh (old, u) = (
    ground (
      arith,
      exists-append (is_key key (key q)) rows r,
      bytes_eq_iff (key r) (key q),
      bytes_eq_iff (key q) (key r),
    ),
    append-IsUnique rows r (ground arith) u,
  )

  pub upsert-IsUnique :
      (r : R) (f : R → R) (rows : List R)
      → KeepsKey f
      → IsUnique key rows
      → IsUnique key (upsert key r f rows)
  unfolding upsert
  upsert-IsUnique r f rows keeps u = elim (Bool-cases (exists (is_key key (key r)) rows)) [
    | inl there ↦ rw (upsert, there) (update-IsUnique (is_key key (key r)) f rows keeps u)
    | inr new ↦ rw (upsert, new) (append-IsUnique rows r new u)
  ]

  -- A lookup after an upsert sees the new row, or the changed one, under its key, and the old ones under
  -- the others.
  pub find-upsert :
      (k : List ℕ) (r : R) (f : R → R) (rows : List R)
      → KeepsKey f
      → find key k (upsert key r f rows) ≡ (
          if bytes_eq (key r) k
          then (if exists (is_key key k) rows then apply_to f (find key k rows) else some r)
          else find key k rows)
  unfolding upsert
  find-upsert k r f rows keeps = ground (
    arith,
    find-append k rows r,
    find-update (key r) k f rows keeps,
    bytes_eq_iff (key r) k,
    not_exists_find k rows,
  )

  -- A row is found under its key where keys are unique.
  pub unique_find :
      (rows : List R) {r : R} → IsUnique key rows → Memᴰ r rows → find key (key r) rows ≡ some r
  unfolding find
  unique_find [] u there = absurd (not-nil there)
  unique_find (q ∷ rows) {r} (fresh, u) (Memᴰ.head same) =
      subst (λ x. find key (key r) (x ∷ rows) ≡ some r) same (rw (find, bytes_eq_refl (key r)) refl)
  unique_find (q ∷ rows) {r} (fresh, u) (Memᴰ.tail there) =
      elim (Bool-cases (bytes_eq (key q) (key r))) [
        | inl same ↦ absurd (
            twice (
              member_exists (is_key key (key q)) rows there
                ((bytes_eq_iff (key r) (key q)).1 (sym ((bytes_eq_iff (key q) (key r)).0 same)))))
        | inr differs ↦ rw (find, differs) (unique_find rows u there)
      ]
    where
      twice : exists (is_key key (key q)) rows ≡ true → ⊥
      twice h = ground arith
