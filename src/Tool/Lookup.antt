-- ===== src/Tool/Lookup.antt =====
-- Look-ups in a registry after registrations.
use rakit.Prelude.{
  String, ◌≡◌, refl, List, [], ◌∷◌, Option, none, some, or_else, ◌==◌, if◌then◌else◌, find-insert,
  arith,
}
use rakit.Tool.{Tool, Registry, register, get, register_all}

-- The last tool of the list with the name.
abbrev pub last_named : String → List Tool → Option Tool
last_named k [] = none
last_named k (t ∷ ts) = elim (last_named k ts) [
  | some u ↦ some u
  | none ↦ if t.name == k then some t else none
]

pub get-register_all :
    (ts : List Tool) (r : Registry) (k : String)
    → get k (register_all ts r) ≡ or_else (last_named k ts) (get k r)
unfolding register_all get register
get-register_all [] r k = refl
get-register_all (t ∷ ts) r k =
    ground (arith, get-register_all ts (register t r) k, find-insert t.name k t r)
