-- ===== src/Prelude/Lists.antt =====
-- Lists measured by native numbers, association lists, and membership by tests.
use Prim.Native.Nat.{ℕ, zero, suc, ◌+◌, ◌-◌}
use Prim.Native.String.{String}
use mathlib.Core.Path.{◌≡◌, refl}
use mathlib.Core.Bool.{Bool, false, ◌||◌}
use mathlib.Core.Option.{Option, none, some}
use mathlib.Core.List.{List, [], ◌∷◌, ◌++◌}
use native.Mathlib.Omega.{arith}
use rakit.Prelude.Tests.{◌==◌, eq_iff, if◌then◌else◌}

module _ {ℓ} {A : Type ℓ} where
  abbrev pub length : List A → ℕ
  length [] = 0
  length (x ∷ xs) = suc (length xs)

  abbrev pub take : ℕ → List A → List A
  take zero xs = []
  take (suc n) [] = []
  take (suc n) (x ∷ xs) = x ∷ take n xs

  abbrev pub drop : ℕ → List A → List A
  drop zero xs = xs
  drop (suc n) [] = []
  drop (suc n) (x ∷ xs) = drop n xs

  pub length-append : (xs ys : List A) → length (xs ++ ys) ≡ length xs + length ys
  length-append [] ys = omega arith
  length-append (x ∷ xs) ys = omega (arith, length-append xs ys)

  pub length-drop : (n : ℕ) (xs : List A) → length (drop n xs) ≡ length xs - n
  length-drop zero xs = omega arith
  length-drop (suc n) [] = omega arith
  length-drop (suc n) (x ∷ xs) = omega (arith, length-drop n xs)

-- Whether a text is in the list: a Go map used as a set of strings.
abbrev pub elem : String → List String → Bool
elem k [] = false
elem k (j ∷ l) = j == k || elem k l

-- No text twice.
abbrev pub IsDistinct : List String → Type 0
IsDistinct [] = Unit
IsDistinct (k ∷ l) = (elem k l ≡ false) × IsDistinct l

-- A Go map with string keys, as an association list with at most one pair for a key.
abbrev pub Assoc {ℓ} : Type ℓ → Type ℓ
Assoc V = List (String × V)

module _ {ℓ} {V : Type ℓ} where
  unfoldable pub find : String → Assoc V → Option V
  find k [] = none
  find k ((j, v) ∷ l) = if j == k then some v else find k l

  -- `m[k] = v`
  unfoldable pub insert : String → V → Assoc V → Assoc V
  insert k v [] = (k, v) ∷ []
  insert k v ((j, w) ∷ l) = if j == k then (k, v) ∷ l else (j, w) ∷ insert k v l

  -- `delete(m, k)`
  unfoldable pub delete : String → Assoc V → Assoc V
  delete k [] = []
  delete k ((j, v) ∷ l) = if j == k then delete k l else (j, v) ∷ delete k l

  pub find-insert :
      (k j : String) (v : V) (l : Assoc V)
      → find j (insert k v l) ≡ (if k == j then some v else find j l)
  unfolding find insert
  find-insert k j v [] = refl
  find-insert k j v ((i, w) ∷ l) =
      ground (arith, eq_iff k j, eq_iff i k, eq_iff i j, find-insert k j v l)

  pub find-delete :
      (k j : String) (l : Assoc V) → find j (delete k l) ≡ (if k == j then none else find j l)
  unfolding find delete
  find-delete k j [] = ground arith
  find-delete k j ((i, w) ∷ l) =
      ground (arith, eq_iff k j, eq_iff i k, eq_iff i j, find-delete k j l)
