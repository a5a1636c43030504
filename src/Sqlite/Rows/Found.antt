-- ===== src/Sqlite/Rows/Found.antt =====
-- What a key finds after each write of a table.
use rakit.Prelude.{
  String, length, ltb, ◌≡◌, refl, Bool, false, Option, none, some, List, [], ◌∷◌, ◌++◌, map, ◌==◌,
  eq_iff, if◌then◌else◌, elem, IsDistinct, arith,
}
use rakit.Sqlite.Rows.{find_row, upsert_row, rows_where, update_where}

abbrev pub kept_by {ℓ} : {A : Type ℓ} → (A → Bool) → Option A → Option A
kept_by p none = none
kept_by p (some a) = if p a then some a else none

abbrev pub merged : {Row : Type 0} → (Row → Row → Row) → Row → Option Row → Row
merged merge r none = r
merged merge r (some s) = merge s r

-- An UPDATE that finds no row changes nothing.
pub update_where-unmatched :
    {Row : Type 0} (p : Row → Bool) (f : Row → Row) (rows : List Row)
    → ltb 0 (length (rows_where p rows)) ≡ false
    → update_where p f rows ≡ rows
unfolding rows_where update_where
update_where-unmatched p f [] h = refl
update_where-unmatched p f (s ∷ rows) h = ground (arith, update_where-unmatched p f rows)

module _ {Row : Type 0} (key : Row → String) where
  pub find_row-key :
      (k : String) (rows : List Row) (r : Row) → find_row key k rows ≡ some r → key r ≡ k
  unfolding find_row
  find_row-key k [] r h = cc
  find_row-key k (s ∷ rows) r h = ground (arith, eq_iff (key s) k, find_row-key k rows r)

  pub find_row-absent :
      (k : String) (rows : List Row) → elem k (map key rows) ≡ false → find_row key k rows ≡ none
  unfolding find_row
  find_row-absent k [] h = refl
  find_row-absent k (s ∷ rows) h = ground (arith, find_row-absent k rows)

  pub absent-find_row :
      (k : String) (rows : List Row) → find_row key k rows ≡ none → elem k (map key rows) ≡ false
  unfolding find_row
  absent-find_row k [] h = refl
  absent-find_row k (s ∷ rows) h = ground (arith, absent-find_row k rows)

  pub find_row-append :
      (k : String) (rows : List Row) (r : Row)
      → find_row key (key r) rows ≡ none
      → find_row key k (rows ++ r ∷ []) ≡ (if key r == k then some r else find_row key k rows)
  unfolding find_row
  find_row-append k [] r h = refl
  find_row-append k (s ∷ rows) r h =
      ground (
        arith,
        eq_iff (key s) k,
        eq_iff (key r) k,
        eq_iff (key s) (key r),
        find_row-append k rows r,
      )

  pub find_row-rows_where :
      (p : Row → Bool) (k : String) (rows : List Row)
      → IsDistinct (map key rows)
      → find_row key k (rows_where p rows) ≡ kept_by p (find_row key k rows)
  unfolding find_row rows_where
  find_row-rows_where p k [] h = refl
  find_row-rows_where p k (s ∷ rows) h =
      ground (
        arith,
        eq_iff (key s) k,
        find_row-rows_where p k rows h.1,
        find_row-absent (key s) rows h.0,
      )

  pub find_row-update_where :
      (p : Row → Bool) (f : Row → Row)
      → ((r : Row) → key (f r) ≡ key r)
      → (k : String) (rows : List Row)
      → find_row key k (update_where p f rows)
        ≡ elim (find_row key k rows) [ none ↦ none | some r ↦ some (if p r then f r else r) ]
  unfolding find_row update_where
  find_row-update_where p f keeps k [] = refl
  find_row-update_where p f keeps k (s ∷ rows) = ground (
    arith,
    keeps s,
    eq_iff (key s) k,
    eq_iff (key (f s)) k,
    find_row-update_where p f keeps k rows,
  )

  module _ (merge : Row → Row → Row)
      (keeps : (s r : Row) → key s ≡ key r → key (merge s r) ≡ key r) where
    pub find_row-upsert_row :
        (k : String) (r : Row) (rows : List Row)
        → find_row key k (upsert_row key merge r rows) ≡ (
            if key r == k
            then some (merged merge r (find_row key (key r) rows))
            else find_row key k rows)
    unfolding find_row upsert_row
    find_row-upsert_row k r [] = refl
    find_row-upsert_row k r (s ∷ rows) = ground (
      arith,
      keeps s r,
      eq_iff (key s) (key r),
      eq_iff (key (merge s r)) k,
      eq_iff (key r) k,
      eq_iff (key s) k,
      find_row-upsert_row k r rows,
    )
