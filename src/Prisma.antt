-- ===== src/Prisma.antt =====
-- The database client, which the repository takes from the package @prisma/client: a table has
-- contents, and the calls that the services make of it act on the contents as documented. A client
-- of the interface knows only these laws, and not which of several matching rows a query finds.
pub mod Rows
pub mod Memory
pub mod Unique
use ai_saas_multi_tenant.Base.{
  ◌≡◌, Bool, true, false, Option, none, some, List, [], ◌∷◌, ◌++◌, map, All, Text,
}
use Rows.{In, update_row, remove}

pub record Prisma : Type 1 where
  pub Table : Type 0 → Type 0
  -- the contents, in the order of creation
  pub rows : {R : Type 0} → Table R → List R
  -- `findUnique`, `findFirst` with a `where`
  pub find_first : {R : Type 0} → (R → Bool) → Table R → Option R
  -- the order of the database on text columns
  pub collate : Text → Text → Bool
  -- `findFirst` with a `where` and a descending `orderBy` on the text column that is given first
  pub find_greatest : {R : Type 0} → (R → Text) → (R → Bool) → Table R → Option R
  pub create : {R : Type 0} → R → Table R → Table R
  -- `update`, `updateMany`
  pub update_many : {R : Type 0} → (R → Bool) → (R → R) → Table R → Table R
  -- `delete`
  pub delete_many : {R : Type 0} → (R → Bool) → Table R → Table R
  pub find_first-some :
      {R : Type 0} (p : R → Bool) (t : Table R) {r : R}
      → find_first p t ≡ some r
      → In r (rows t) × (p r ≡ true)
  pub find_first-none :
      {R : Type 0} (p : R → Bool) (t : Table R)
      → find_first p t ≡ none
      → All (λ r. p r ≡ false) (rows t)
  pub find_greatest-some :
      {R : Type 0} (column : R → Text) (p : R → Bool) (t : Table R) {r : R}
      → find_greatest column p t ≡ some r
      → In r (rows t)
        × (p r ≡ true)
        × All (λ s. p s ≡ true → collate (column r) (column s) ≡ false) (rows t)
  pub find_greatest-none :
      {R : Type 0} (column : R → Text) (p : R → Bool) (t : Table R)
      → find_greatest column p t ≡ none
      → All (λ r. p r ≡ false) (rows t)
  pub rows-create : {R : Type 0} (r : R) (t : Table R) → rows (create r t) ≡ rows t ++ r ∷ []
  pub rows-update_many :
      {R : Type 0} (p : R → Bool) (f : R → R) (t : Table R)
      → rows (update_many p f t) ≡ map (update_row p f) (rows t)
  pub rows-delete_many :
      {R : Type 0} (p : R → Bool) (t : Table R) → rows (delete_many p t) ≡ remove p (rows t)
