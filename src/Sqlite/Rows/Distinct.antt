-- ===== src/Sqlite/Rows/Distinct.antt =====
-- The writes of a table keep its primary key unique.
use rakit.Prelude.{
  String, ◌≡◌, refl, Bool, false, List, [], ◌∷◌, map, ◌==◌, eq_iff, elem, IsDistinct, arith,
}
use rakit.Sqlite.Rows.{upsert_row, rows_where}

module _ {Row : Type 0} (key : Row → String) where
  elem-rows_where :
      (p : Row → Bool) (k : String) (rows : List Row)
      → elem k (map key rows) ≡ false
      → elem k (map key (rows_where p rows)) ≡ false
  unfolding rows_where
  elem-rows_where p k [] h = refl
  elem-rows_where p k (s ∷ rows) h = ground (arith, elem-rows_where p k rows)

  pub rows_where-IsDistinct :
      (p : Row → Bool) (rows : List Row)
      → IsDistinct (map key rows)
      → IsDistinct (map key (rows_where p rows))
  unfolding rows_where
  rows_where-IsDistinct p [] h = tt
  rows_where-IsDistinct p (s ∷ rows) h =
      ground (arith, rows_where-IsDistinct p rows h.1, elem-rows_where p (key s) rows h.0)

  module _ (merge : Row → Row → Row)
      (keeps : (s r : Row) → key s ≡ key r → key (merge s r) ≡ key r) where
    elem-upsert_row :
        (k : String) (r : Row) (rows : List Row)
        → elem k (map key rows) ≡ false
        → (key r == k) ≡ false
        → elem k (map key (upsert_row key merge r rows)) ≡ false
    unfolding upsert_row
    elem-upsert_row k r [] h n = ground arith
    elem-upsert_row k r (s ∷ rows) h n =
        ground (arith, keeps s r, eq_iff (key s) (key r), elem-upsert_row k r rows)

    pub upsert_row-IsDistinct :
        (r : Row) (rows : List Row)
        → IsDistinct (map key rows)
        → IsDistinct (map key (upsert_row key merge r rows))
    unfolding upsert_row
    upsert_row-IsDistinct r [] h = (refl, tt)
    upsert_row-IsDistinct r (s ∷ rows) h = ground (
      arith,
      keeps s r,
      eq_iff (key s) (key r),
      eq_iff (key r) (key s),
      elem-upsert_row (key s) r rows h.0,
      upsert_row-IsDistinct r rows h.1,
    )
