-- ===== src/Storage/Sql/Members.antt =====
-- The rows that are in a table, and in what a statement selects of it or leaves in it.
use mathlib.Core.List.{Memᴰ}
use mathlib.Core.List.Memᴰ.{not-nil}
use tlapix.Common.{
  ◌+◌, ◌≡◌, ◌↔◌, inl, inr, refl, sym, subst, Bool, true, false, ◌&&◌, List, [], ◌∷◌, length, arith,
  Bool-cases,
}
use tlapix.Storage.Sql.{select_where, delete_where, exists}

module _ {R : Type 0} where
  pub exists-select :
      (p q : R → Bool) (rows : List R)
      → exists q (select_where p rows) ≡ exists (λ r. p r && q r) rows
  unfolding exists select_where
  exists-select p q [] = refl
  exists-select p q (r ∷ rows) = ground (arith, exists-select p q rows)

  pub length-select :
      (p : R → Bool) (rows : List R)
      → length (select_where p rows) + length (delete_where p rows) ≡ length rows
  unfolding select_where delete_where
  length-select p [] = refl
  length-select p (r ∷ rows) = ground (arith, length-select p rows)

  pub exists_member :
      (p : R → Bool) (rows : List R) → exists p rows ≡ true → (r : R) × Memᴰ r rows × (p r ≡ true)
  unfolding exists
  exists_member p [] h = absurd (ground arith)
  exists_member p (q ∷ rows) h = elim (Bool-cases (p q)) [
    | inl here ↦ (q, Memᴰ.head refl, here)
    | inr not_here ↦
        let (r, there, holds) = exists_member p rows (ground arith) in (r, Memᴰ.tail there, holds)
  ]

  pub member-delete :
      (p : R → Bool) (rows : List R) (r : R)
      → Memᴰ r (delete_where p rows) ↔ (Memᴰ r rows × (p r ≡ false))
  unfolding delete_where
  member-delete p [] r = (λ there. absurd (not-nil there), λ (there, h). there)
  member-delete p (q ∷ rows) r =
      let (to, back) = member-delete p rows r in
      elim (Bool-cases (p q)) [
        | inl goes ↦ rw goes (
          λ there. (Memᴰ.tail (to there).0, (to there).1),
          λ (there, h). elim there [
            | Memᴰ.head same ↦ absurd (ground arith)
            | Memᴰ.tail rest ↦ back (rest, h)
          ],
        )
        | inr stays ↦ rw stays (
          λ there. elim there [
            | Memᴰ.head same ↦ (Memᴰ.head same, subst (λ x. p x ≡ false) (sym same) stays)
            | Memᴰ.tail rest ↦ (Memᴰ.tail (to rest).0, (to rest).1)
          ],
          λ (there, h). elim there [
            | Memᴰ.head same ↦ Memᴰ.head same
            | Memᴰ.tail rest ↦ Memᴰ.tail (back (rest, h))
          ],
        )
      ]
