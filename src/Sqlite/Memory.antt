-- ===== src/Sqlite/Memory.antt =====
-- The scoped memory of storage/metadata/sqlite/store.go.
use rakit.Prelude.{ℕ, String, ◌^^◌, Bool, not, Option, none, some, List, map, ◌==◌}
use rakit.Metadata.Definitions.{MemoryScope, global, scoped_key}
use rakit.Sqlite.Database.{MemoryRow, Db, ◌>>=◌, pure, select, exec}
use rakit.Sqlite.Rows.{find_row, upsert_row, rows_where}

abbrev pub memory_key : MemoryRow → String
memory_key r = r.key

-- The value that is stored takes the place of the old one.
abbrev pub update_memory : MemoryRow → MemoryRow → MemoryRow
update_memory old new = record old { value = new.value }

abbrev pub memory_value : Option MemoryRow → Option (List ℕ)
memory_value none = none
memory_value (some r) = some r.value

module _ {Raw : Type 0} where
  unfoldable pub set_memory : MemoryScope → String → String → List ℕ → Db Raw (Unit {0})
  set_memory scope scope_id key value = exec (λ t. record t {
    memory =
        upsert_row memory_key update_memory
          (record { key = scoped_key scope scope_id key; value = value }) t.memory;
  })

  unfoldable pub get_memory : MemoryScope → String → String → Db Raw (Option (List ℕ))
  get_memory scope scope_id key = do
    row ← select (λ t. find_row memory_key (scoped_key scope scope_id key) t.memory)
    pure (memory_value row)

  unfoldable pub delete_memory : MemoryScope → String → String → Db Raw (Unit {0})
  delete_memory scope scope_id key = exec (λ t. record t {
    memory = rows_where (λ r. not (r.key == scoped_key scope scope_id key)) t.memory;
  })

  -- `like text pattern` is SQL's LIKE.
  unfoldable pub list_memory :
      (String → String → Bool) → MemoryScope → String → String → Db Raw (List String)
  list_memory like scope scope_id prefix = do
    rows ←
        select
          (λ t. rows_where (λ r. like r.key (scoped_key scope scope_id prefix ^^ "%")) t.memory)
    pure (map memory_key rows)

  -- `Set`, `Get`, `Delete` and `List` of the store, on the keys of global scope.
  abbrev pub set_global : String → List ℕ → Db Raw (Unit {0})
  set_global key value = set_memory global "" key value

  abbrev pub get_global : String → Db Raw (Option (List ℕ))
  get_global key = get_memory global "" key

  abbrev pub delete_global : String → Db Raw (Unit {0})
  delete_global key = delete_memory global "" key

  abbrev pub list_global : (String → String → Bool) → String → Db Raw (List String)
  list_global like prefix = list_memory like global "" prefix
