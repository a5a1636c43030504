-- ===== src/Sqlite/Sessions/Observed.antt =====
-- What GetSession reads of the tables.
use rakit.Prelude.{
  String, ◌≡◌, refl, false, Option, none, some, List, [], ◌∷◌, map, ltb, length, eq_iff, elem,
  IsDistinct, arith, Result, ok, err,
}
use rakit.Metadata.{Message, Session, Fields}
use rakit.Metadata.Contract.{Sessions}
use rakit.Sqlite.Database.{
  fault_free, ℤ, pos, negsuc, SessionRow, MessageRow, Tables, Columns, Engine, ◌>>=◌, pure, lift,
  statement, next_of,
}
use rakit.Sqlite.Rows.{find_row, rows_where}
use rakit.Sqlite.Rows.Sorted.{IsAscending}
use rakit.Sqlite.Sessions.{
  int_eq, session_key, message_key, message_of, of_session, session_of, matches, get_session,
  or_default, encode_session_metadata, interrupts_of,
}

-- The primary keys of the tables are unique.
pub record IsValid {Raw : Type 0} (t : Tables Raw) : Type 0 where
  pub sessions : IsDistinct (map session_key t.sessions)
  pub messages : IsDistinct (map message_key t.messages)

-- ORDER BY created_at ASC gives the rows that it is given, in ascending order.
pub record Orders {Raw : Type 0} (engine : Engine Raw) : Type 0 where
  pub same :
      (k : String) (rows : List (MessageRow Raw))
      → IsDistinct (map message_key rows)
      → find_row message_key k (engine.by_created_at rows) ≡ find_row message_key k rows
  pub unique :
      (rows : List (MessageRow Raw))
      → IsDistinct (map message_key rows)
      → IsDistinct (map message_key (engine.by_created_at rows))
  pub ascending :
      (rows : List (MessageRow Raw)) → IsAscending (λ r. r.created_at) (engine.by_created_at rows)

-- The value of a result.
abbrev pub value {ℓ} : {E A : Type ℓ} → Result E A → Option A
value (ok a) = some a
value (err x) = none

-- What a read finds: `none` for no session and for one that cannot be read.
abbrev pub found_in {ℓ} : {E A : Type ℓ} → Result E (Option A) → Option A
found_in (ok o) = o
found_in (err x) = none

module _ {Raw : Type 0} where
  matched_absent :
      (id : String) (revision : ℤ) (rows : List (SessionRow Raw))
      → elem id (map session_key rows) ≡ false
      → rows_where (matches id revision) rows ≡ []
  unfolding rows_where
  matched_absent id revision [] h = refl
  matched_absent id revision (r ∷ rows) h = ground (arith, matched_absent id revision rows)

  -- The UPDATE of an update finds the session's row if that has the expected revision.
  pub matched :
      (id : String) (revision : ℤ) (row : SessionRow Raw) (rows : List (SessionRow Raw))
      → IsDistinct (map session_key rows)
      → find_row session_key id rows ≡ some row
      → ltb 0 (length (rows_where (matches id revision) rows)) ≡ int_eq row.revision revision
  unfolding rows_where find_row
  matched id revision row [] d h = cc
  matched id revision row (r ∷ rows) d h = ground (
    arith,
    matched id revision row rows d.1,
    eq_iff r.id id,
    matched_absent r.id revision rows d.0,
  )

module _ {Raw : Type 0} (columns : Columns Raw) where
  abbrev pub observed : Option (SessionRow Raw) → List Message → Option Session
  observed none ms = none
  observed (some row) ms = elim row.revision [
    | negsuc _ ↦ none
    | pos revision ↦ some (session_of columns row revision ms)
  ]

  -- What was encoded is read again.
  pub read-encoded :
      (s : Session) (encoded : Raw × Raw)
      → encode_session_metadata columns s ≡ ok encoded
      → (or_default Fields.end (columns.state.decode encoded.0) ≡ s.state)
        × (interrupts_of columns encoded.1 ≡ s.open_interrupts)
  unfolding encode_session_metadata or_default
  read-encoded s encoded e = ground (
    arith,
    columns.state.decode-encode s.state encoded.0,
    columns.interrupts.decode-encode s.open_interrupts encoded.1,
    columns.encode-is_empty_text s.open_interrupts encoded.1,
  )

module _ {Raw : Type 0} (columns : Columns Raw) (engine : Engine Raw) where
  -- What a GetSession finds whose statements succeed.
  unfoldable pub observe : Tables Raw → Sessions
  observe t id = found_in (get_session columns engine id (fault_free t)).0

  abbrev pub read_messages : String → Tables Raw → List Message
  read_messages id t = map (message_of columns) (engine.by_created_at (of_session id t.messages))

  pub observe_lem :
      (t : Tables Raw) (id : String)
      → observe t id ≡ observed columns (find_row session_key id t.sessions) (read_messages id t)
  unfolding observe get_session ◌>>=◌ statement next_of pure lift
  observe_lem t id = ground arith
