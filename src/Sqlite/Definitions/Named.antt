-- ===== src/Sqlite/Definitions/Named.antt =====
-- Tables whose rows have a unique name, in storage/metadata/sqlite/store.go.
use rakit.Prelude.{
  ℕ, String, Bool, true, false, Option, none, some, List, [], ◌∷◌, ◌++◌, nat_eq, ◌==◌,
  if◌then◌else◌, Result, ok, err,
}
use rakit.Jsonl.Journal.{Codec}
use rakit.Sqlite.Database.{Error, constraint_failed, marshal_failed}
use rakit.Sqlite.Rows.{find_row, upsert_row}

-- `json.Marshal` of a value
abbrev pub marshalled : {Raw A : Type 0} → Codec Raw A → A → Result Error Raw
marshalled c a = elim (c.encode a) [ none ↦ err marshal_failed | some raw ↦ ok raw ]

-- `INSERT ... ON CONFLICT(name) DO UPDATE` into a table whose id is the primary key: a row of the
-- name is updated, and else the id must be new.
unfoldable pub insert_named :
    {Row : Type 0}
    → (Row → String)
    → (Row → String)
    → (Row → Row → Row)
    → Row
    → List Row
    → Result Error (Unit {0}) × List Row
insert_named id name merge row rows = elim (find_row name (name row) rows) [
  | some _ ↦ (ok tt, upsert_row name merge row rows)
  | none ↦ elim (find_row id (id row) rows) [
    | some _ ↦ (err constraint_failed, rows)
    | none ↦ (ok tt, rows ++ row ∷ [])
  ]
]

-- `enabled := 0; if def.Enabled { enabled = 1 }`
abbrev pub flag : Bool → ℕ
flag true = 1
flag false = 0

abbrev pub or_id : String → String → String
or_id fresh id = if id == "" then fresh else id

abbrev pub or_now : ℕ → ℕ → ℕ
or_now now at = if nat_eq at 0 then now else at

abbrev pub found_as : {Row A : Type 0} → (Row → A) → Option Row → Option A
found_as f none = none
found_as f (some row) = some (f row)
