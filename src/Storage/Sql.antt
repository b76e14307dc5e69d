-- ===== src/Storage/Sql.antt =====
-- The clauses of the SQL statements in crates/tlapix-common/src/storage.rs, over a table as a list.
pub mod Laws
pub mod Members
pub mod Coverage
use tlapix.Common.{
  ℕ, zero, suc, ◌^◌, Bool, true, false, not, ◌||◌, Option, none, some, List, [], ◌∷◌, ◌++◌, ltb,
  take, if◌then◌else◌, bytes_eq, ◌≡◌,
}
use tlapix.Common.Int.{ℤ, ltb_ℤ}

module _ {R : Type 0} where
  -- SELECT … WHERE
  unfoldable pub select_where : (R → Bool) → List R → List R
  select_where p [] = []
  select_where p (r ∷ rows) = let rest = select_where p rows in if p r then r ∷ rest else rest

  -- DELETE … WHERE
  unfoldable pub delete_where : (R → Bool) → List R → List R
  delete_where p [] = []
  delete_where p (r ∷ rows) = let rest = delete_where p rows in if p r then rest else r ∷ rest

  -- UPDATE … SET … WHERE
  unfoldable pub update_where : (R → Bool) → (R → R) → List R → List R
  update_where p f [] = []
  update_where p f (r ∷ rows) = (if p r then f r else r) ∷ update_where p f rows

  -- EXISTS
  unfoldable pub exists : (R → Bool) → List R → Bool
  exists p [] = false
  exists p (r ∷ rows) = p r || exists p rows

  -- ORDER BY … DESC. Rows that tie keep their order, which SQL leaves open.
  unfoldable pub insert_desc : (R → ℤ) → R → List R → List R
  insert_desc k r [] = r ∷ []
  insert_desc k r (q ∷ rows) =
      let rest = insert_desc k r rows in if ltb_ℤ (k r) (k q) then q ∷ rest else r ∷ q ∷ rows

  unfoldable pub order_by_desc : (R → ℤ) → List R → List R
  unfolding insert_desc
  order_by_desc k [] = []
  order_by_desc k (r ∷ rows) = insert_desc k r (order_by_desc k rows)

  -- LIMIT, of a usize that becomes an i64: a negative one is no limit.
  unfoldable pub limit_rows : ℕ → List R → List R
  limit_rows n rows = if ltb n (2 ^ 63) then take n rows else rows

  -- The row of a query that gives at most one.
  abbrev pub first : List R → Option R
  first [] = none
  first (r ∷ rows) = some r

  module _ (key : R → List ℕ) where
    -- WHERE key = k
    abbrev pub is_key : List ℕ → R → Bool
    is_key k r = bytes_eq (key r) k

    unfoldable pub find : List ℕ → List R → Option R
    unfolding bytes_eq
    find k [] = none
    find k (r ∷ rows) = if is_key k r then some r else find k rows

    -- INSERT … ON CONFLICT(key) DO UPDATE
    unfoldable pub upsert : R → (R → R) → List R → List R
    unfolding bytes_eq exists update_where
    upsert r f rows =
        if exists (is_key (key r)) rows
        then update_where (is_key (key r)) f rows
        else rows ++ r ∷ []

    -- PRIMARY KEY
    abbrev pub IsUnique : List R → Type 0
    IsUnique [] = Unit
    IsUnique (r ∷ rows) = (exists (is_key (key r)) rows ≡ false) × IsUnique rows
