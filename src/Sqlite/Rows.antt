-- ===== src/Sqlite/Rows.antt =====
-- Tables as lists of rows: what the WHERE clauses find, and what the writes by key leave.
pub mod Found
pub mod Distinct
pub mod Sorted
use rakit.Prelude.{
  String, ◌≡◌, refl, Bool, true, false, not, ◌&&◌, Option, none, some, List, [], ◌∷◌, ◌++◌, map,
  ◌==◌, eq_iff, eq_refl, if◌then◌else◌, elem, IsDistinct, Bool-cases, inl, inr, arith,
}

module _ {Row : Type 0} (key : Row → String) where
  -- The row with the key.
  unfoldable pub find_row : String → List Row → Option Row
  find_row k [] = none
  find_row k (r ∷ rs) = if key r == k then some r else find_row k rs

  -- INSERT ... ON CONFLICT(key) DO UPDATE: `merge old new` is what the update leaves.
  unfoldable pub upsert_row : (Row → Row → Row) → Row → List Row → List Row
  upsert_row merge r [] = r ∷ []
  upsert_row merge r (s ∷ rs) = if key s == key r then merge s r ∷ rs else s ∷ upsert_row merge r rs

module _ {Row : Type 0} where
  -- The rows that a WHERE clause selects.
  unfoldable pub rows_where : (Row → Bool) → List Row → List Row
  rows_where p [] = []
  rows_where p (r ∷ rs) = if p r then r ∷ rows_where p rs else rows_where p rs

  -- UPDATE ... SET ... WHERE
  unfoldable pub update_where : (Row → Bool) → (Row → Row) → List Row → List Row
  update_where p f [] = []
  update_where p f (r ∷ rs) = (if p r then f r else r) ∷ update_where p f rs
