-- ===== src/Sqlite/Sessions/Written.antt =====
-- The rows that the messages of a snapshot are written as.
use rakit.Prelude.{ℕ, ◌<◌, String, ◌≡◌, refl, ap, some, List, [], ◌∷◌, map, arith}
use rakit.Metadata.{Message}
use rakit.Sqlite.Database.{MessageRow, Columns}
use rakit.Sqlite.Rows.Sorted.{All, IsStrictlyAscending}
use rakit.Sqlite.Sessions.{or_default, message_row, message_of}
use rakit.Sqlite.Sessions.Reconciled.{RowsOf}

module _ {Raw : Type 0} (columns : Columns Raw) where
  -- The rows that the messages of a snapshot are written as; their calls can be encoded.
  abbrev pub WrittenAs : String → List Message → List (MessageRow Raw) → Type 0
  WrittenAs id [] [] = Unit
  WrittenAs id (m ∷ ms) (r ∷ rs) =
      (columns.tool_calls.encode m.tool_calls ≡ some r.tool_calls)
      × (r ≡ message_row id m r.tool_calls)
      × WrittenAs id ms rs
  WrittenAs id _ _ = ⊥

  pub WrittenAs-RowsOf :
      (id : String) (ms : List Message) (new : List (MessageRow Raw))
      → WrittenAs id ms new
      → RowsOf id ms new
  WrittenAs-RowsOf id [] [] w = (tt, refl)
  WrittenAs-RowsOf id [] (r ∷ new) w = absurd w
  WrittenAs-RowsOf id (m ∷ ms) [] w = absurd w
  WrittenAs-RowsOf id (m ∷ ms) (r ∷ new) w = ground (arith, WrittenAs-RowsOf id ms new w.2)

  pub WrittenAs-messages :
      (id : String) (ms : List Message) (new : List (MessageRow Raw))
      → WrittenAs id ms new
      → map (message_of columns) new ≡ ms
  unfolding or_default
  WrittenAs-messages id [] [] w = refl
  WrittenAs-messages id [] (r ∷ new) w = absurd w
  WrittenAs-messages id (m ∷ ms) [] w = absurd w
  WrittenAs-messages id (m ∷ ms) (r ∷ new) w = ground (
    arith,
    WrittenAs-messages id ms new w.2,
    columns.tool_calls.decode-encode m.tool_calls r.tool_calls w.0,
  )

  All-later :
      (t : ℕ) (id : String) (ms : List Message) (new : List (MessageRow Raw))
      → WrittenAs id ms new
      → All (λ m. t < m.created_at) ms
      → All (λ r. t < r.created_at) new
  All-later t id [] [] w a = tt
  All-later t id [] (r ∷ new) w a = absurd w
  All-later t id (m ∷ ms) [] w a = absurd w
  All-later t id (m ∷ ms) (r ∷ new) w a = (rw w.1 a.0, All-later t id ms new w.2 a.1)

  pub WrittenAs-IsStrictlyAscending :
      (id : String) (ms : List Message) (new : List (MessageRow Raw))
      → WrittenAs id ms new
      → IsStrictlyAscending (λ m. m.created_at) ms
      → IsStrictlyAscending (λ r. r.created_at) new
  WrittenAs-IsStrictlyAscending id [] [] w a = tt
  WrittenAs-IsStrictlyAscending id [] (r ∷ new) w a = absurd w
  WrittenAs-IsStrictlyAscending id (m ∷ ms) [] w a = absurd w
  WrittenAs-IsStrictlyAscending id (m ∷ ms) (r ∷ new) w a = (
    All-later r.created_at id ms new w.2 (rw (ap (λ (x : MessageRow Raw). x.created_at) w.1) a.0),
    WrittenAs-IsStrictlyAscending id ms new w.2 a.1,
  )
