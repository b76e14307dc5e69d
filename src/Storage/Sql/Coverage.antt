-- ===== src/Storage/Sql/Coverage.antt =====
-- A pass that works off a list of rows until no row of the table is bad: what is bad and not yet worked
-- off is still to come. For the loops over rows of crates/tlapix-common/src/storage.rs.
use tlapix.Common.{◌≡◌, refl, Bool, true, false, not, ◌&&◌, List, [], ◌∷◌, arith}
use tlapix.Storage.Sql.{select_where, update_where, exists}

-- `same d r`: the row r of the table is the row d of the list.
module _ {R : Type 0} (bad : R → Bool) (same : R → R → Bool) where
  abbrev pub to_come : List R → R → Bool
  to_come ds r = exists (λ d. same d r) ds

  abbrev pub Covered : List R → List R → Type 0
  Covered ds table = exists (λ r. bad r && not (to_come ds r)) table ≡ false

  -- The first row of the list is mended in the table.
  pub mended-Covered :
      (p : R → Bool) (f : R → R) (d : R) (ds table : List R)
      → ((r : R) → bad (f r) ≡ false)
      → ((r : R) → same d r ≡ true → p r ≡ true)
      → Covered (d ∷ ds) table
      → Covered ds (update_where p f table)
  unfolding update_where exists
  mended-Covered p f d ds [] mends hits h = refl
  mended-Covered p f d ds (r ∷ table) mends hits h =
      ground (arith, mended-Covered p f d ds table mends hits, mends r, hits r)

  -- The first row of the list turns out not to be bad.
  pub harmless-Covered :
      (d : R) (ds table : List R)
      → ((r : R) → same d r ≡ true → bad r ≡ false)
      → Covered (d ∷ ds) table
      → Covered ds table
  unfolding exists
  harmless-Covered d ds [] harmless h = refl
  harmless-Covered d ds (r ∷ table) harmless h =
      ground (arith, harmless-Covered d ds table harmless, harmless r)

  pub grown-Covered :
      (ds ds' table : List R)
      → ((r : R) → to_come ds r ≡ true → to_come ds' r ≡ true)
      → Covered ds table
      → Covered ds' table
  unfolding exists
  grown-Covered ds ds' [] grow h = refl
  grown-Covered ds ds' (r ∷ table) grow h = ground (arith, grown-Covered ds ds' table grow, grow r)

  -- What the pass selects covers the table.
  pub select-Covered :
      (q : R → Bool) (table : List R)
      → ((r : R) → bad r ≡ true → q r ≡ true)
      → ((r : R) → same r r ≡ true)
      → Covered (select_where q table) table
  unfolding select_where exists
  select-Covered q [] selects self = refl
  select-Covered q (r ∷ table) selects self = ground (
    arith,
    selects r,
    self r,
    grown-Covered (select_where q table) (select_where q (r ∷ table)) table (λ x h. ground arith)
        (select-Covered q table selects self),
  )

  pub Covered-over : (table : List R) → Covered [] table → exists bad table ≡ false
  unfolding exists
  Covered-over [] h = refl
  Covered-over (r ∷ table) h = ground (arith, Covered-over table)
