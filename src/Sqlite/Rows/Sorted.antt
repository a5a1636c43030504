-- ===== src/Sqlite/Rows/Sorted.antt =====
-- Rows in ascending order are determined by what their keys find, if no two times are equal.
use rakit.Prelude.{
  ap, ℕ, ◌≤◌, ◌<◌, String, ◌≡◌, refl, false, some, List, [], ◌∷◌, map, ◌==◌, eq_iff, eq_refl, elem,
  IsDistinct, Bool-cases, inl, inr, arith,
}
use mathlib.Core.Path.{ap₂, subst}
use rakit.Sqlite.Rows.{find_row}
use rakit.Sqlite.Rows.Found.{find_row-absent}

abbrev pub All : {A : Type 0} → (A → Type 0) → List A → Type 0
All P [] = Unit
All P (x ∷ xs) = P x × All P xs

module _ {Row : Type 0} (time : Row → ℕ) where
  -- No row stands before one with an earlier time.
  abbrev pub IsAscending : List Row → Type 0
  IsAscending [] = Unit
  IsAscending (r ∷ rows) = All (λ s. time r ≤ time s) rows × IsAscending rows

  -- Each row has a later time than those before it.
  abbrev pub IsStrictlyAscending : List Row → Type 0
  IsStrictlyAscending [] = Unit
  IsStrictlyAscending (r ∷ rows) = All (λ s. time r < time s) rows × IsStrictlyAscending rows

module _ {Row : Type 0} (key : Row → String) where
  pub All-find_row :
      (P : Row → Type 0) (k : String) (rows : List Row) (r : Row)
      → All P rows
      → find_row key k rows ≡ some r
      → P r
  unfolding find_row
  All-find_row P k [] r a h = cc
  All-find_row P k (s ∷ rows) r a h = elim (Bool-cases (key s == k)) [
    | inl e ↦ subst P (ground arith) a.0
    | inr e ↦ All-find_row P k rows r a.1 (ground arith)
  ]

  same_tail :
      (x y : Row) (xs ys : List Row)
      → x ≡ y
      → elem (key x) (map key xs) ≡ false
      → elem (key y) (map key ys) ≡ false
      → (k : String) → find_row key k (x ∷ xs) ≡ find_row key k (y ∷ ys)
      → find_row key k xs ≡ find_row key k ys
  unfolding find_row
  same_tail x y xs ys e nx ny k h = ground (
    arith,
    ap key e,
    eq_iff (key x) k,
    eq_iff (key y) k,
    find_row-absent key (key x) xs nx,
    find_row-absent key (key y) ys ny,
  )

  module _ (time : Row → ℕ) where
    same_head :
        (x y : Row) (xs ys : List Row)
        → IsAscending time (x ∷ xs)
        → IsStrictlyAscending time (y ∷ ys)
        → ((k : String) → find_row key k (x ∷ xs) ≡ find_row key k (y ∷ ys))
        → x ≡ y
    unfolding find_row
    same_head x y xs ys ax ay h = elim (Bool-cases (key y == key x)) [
      | inl e ↦ ground (arith, h (key x), eq_refl (key x))
      | inr e ↦
          let later =
            All-find_row (λ s. time y < time s) (key x) ys x ay.0
              (ground (arith, h (key x), eq_refl (key x))) in
          let earlier =
            All-find_row (λ s. time x ≤ time s) (key y) xs y ax.0
              (ground (
                arith,
                h (key y),
                eq_refl (key y),
                eq_iff (key x) (key y),
                eq_iff (key y) (key x),
              )) in
          absurd (omega arith)
    ]

    pub ascending_unique :
        (xs ys : List Row)
        → IsAscending time xs
        → IsStrictlyAscending time ys
        → IsDistinct (map key xs)
        → IsDistinct (map key ys)
        → ((k : String) → find_row key k xs ≡ find_row key k ys)
        → xs ≡ ys
    unfolding find_row
    ascending_unique [] [] ax ay dx dy h = refl
    ascending_unique [] (y ∷ ys) ax ay dx dy h = ground (arith, h (key y), eq_refl (key y))
    ascending_unique (x ∷ xs) [] ax ay dx dy h = ground (arith, h (key x), eq_refl (key x))
    ascending_unique (x ∷ xs) (y ∷ ys) ax ay dx dy h =
        let e = same_head x y xs ys ax ay h in
        ap₂ ◌∷◌ e (
          ascending_unique xs ys ax.1 ay.1 dx.1 dy.1 (λ k. same_tail x y xs ys e dx.0 dy.0 k (h k)))
