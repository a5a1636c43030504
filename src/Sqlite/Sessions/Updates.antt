-- ===== src/Sqlite/Sessions/Updates.antt =====
-- `UpdateSession` of storage/metadata/sqlite/store.go.
use rakit.Prelude.{
  ℕ, ◌+◌, String, Bool, false, not, ◌&&◌, none, some, List, [], ◌∷◌, map, length, leb, ltb, nat_eq,
  ◌==◌, if◌then◌else◌, elem, Result, ok, err,
}
use rakit.Metadata.{Message, Session}
use rakit.Jsonl.Sessions.{max_int64}
use rakit.Sqlite.Database.{
  Error, marshal_failed, not_found, session_conflict, revision_overflow, updated_at_overflow, ℤ,
  pos, negsuc, SessionRow, MessageRow, Tables, Columns, Db, ◌>>=◌, ◌>>◌, pure, lift, fail,
  statement, select, exec, transaction,
}
use rakit.Sqlite.Rows.{find_row, upsert_row, rows_where, update_where}

abbrev pub int_eq : ℤ → ℤ → Bool
int_eq (pos a) (pos b) = nat_eq a b
int_eq (negsuc a) (negsuc b) = nat_eq a b
int_eq _ _ = false

-- `committedSessionMetadata`
pub record Committed : Type 0 where
  pub revision : ℕ
  pub created_at : ℕ
  pub updated_at : ℕ

unfoldable pub validate_session_update : Session → Result Error (Unit {0})
validate_session_update s = if leb max_int64 s.revision then err (revision_overflow s.id) else ok tt

-- `nextSQLiteUpdatedAt` at the clock's `now`
unfoldable pub next_sqlite_updated_at : ℕ → String → ℕ → Result Error ℕ
next_sqlite_updated_at now id current =
    if ltb current now
    then ok now
    else if nat_eq current max_int64
    then err (updated_at_overflow id)
    else ok (current + 1)

unfoldable pub apply_committed_session : Session → Committed → Session
apply_committed_session s c = record s {
  revision = c.revision;
  created_at = c.created_at;
  updated_at = c.updated_at;
}

module _ {Raw : Type 0} where
  abbrev pub session_key : SessionRow Raw → String
  session_key r = r.id

  abbrev pub message_key : MessageRow Raw → String
  message_key r = r.id

  -- `created_at, updated_at` of the row that an update starts from.
  unfoldable pub load_session_timestamps : String → Db Raw (ℕ × ℕ)
  load_session_timestamps id = do
    found ← select (λ t. find_row session_key id t.sessions)
    elim found [ none ↦ fail (not_found id) | some row ↦ pure (row.created_at, row.updated_at) ]

  unfoldable pub classify_session_update_miss : String → Db Raw (Unit {0})
  classify_session_update_miss id = do
    found ← select (λ t. find_row session_key id t.sessions)
    elim found [ none ↦ fail (not_found id) | some _ ↦ fail (session_conflict id) ]

  -- `WHERE id = ? AND revision = ?`
  abbrev pub matches : String → ℤ → SessionRow Raw → Bool
  matches id expected row = row.id == id && int_eq row.revision expected

  -- The columns that the UPDATE sets.
  abbrev pub set_columns : Session → Raw × Raw → ℤ → ℕ → SessionRow Raw → SessionRow Raw
  set_columns s (state, interrupts) next updated_at row = record row {
    agent_id = s.agent_id;
    user_id = s.user_id;
    parent_session_id = s.parent_session_id;
    state = state;
    open_interrupts = interrupts;
    revision = next;
    updated_at = updated_at;
  }

  -- `UPDATE sessions ... WHERE id = ? AND revision = ?` with the number of its rows.
  abbrev pub update_matching :
      Session → Raw × Raw → ℤ → ℤ → ℕ → Tables Raw → Result Error ℕ × Tables Raw
  update_matching s encoded expected next updated_at t = (
    ok (length (rows_where (matches s.id expected) t.sessions)),
    record t {
      sessions =
          update_where (matches s.id expected) (set_columns s encoded next updated_at) t.sessions;
    },
  )

  unfoldable pub update_session_row : Session → Raw × Raw → ℤ → ℤ → ℕ → Db Raw (Unit {0})
  unfolding classify_session_update_miss
  update_session_row s encoded expected next updated_at = do
    updated ← statement (update_matching s encoded expected next updated_at)
    if ltb 0 updated then pure tt else classify_session_update_miss s.id

  -- The rows of a session that its new messages do not name are deleted, all without a message.
  unfoldable pub delete_removed_messages : String → List Message → Db Raw (Unit {0})
  delete_removed_messages id [] =
      exec (λ t. record t { messages = rows_where (λ r. not (r.session_id == id)) t.messages })
  delete_removed_messages id (m ∷ ms) = exec (λ t. record t {
    messages =
        rows_where
          (λ r. not (r.session_id == id && not (elem r.id (map (λ (x : Message). x.id) (m ∷ ms)))))
          t.messages;
  })

  -- `ON CONFLICT(id) DO UPDATE` sets every column but the id.
  abbrev pub excluded : MessageRow Raw → MessageRow Raw → MessageRow Raw
  excluded old new = record new { id = old.id }

  abbrev pub message_row : String → Message → Raw → MessageRow Raw
  message_row session_id m tool_calls = record {
    id = m.id;
    session_id = session_id;
    role = m.role;
    content = m.content;
    tool_calls = tool_calls;
    created_at = m.created_at;
  }

module _ {Raw : Type 0} (columns : Columns Raw) where
  unfoldable pub encode_session_metadata : Session → Result Error (Raw × Raw)
  encode_session_metadata s = elim (columns.state.encode s.state) [
    | none ↦ err marshal_failed
    | some state ↦ elim (columns.interrupts.encode s.open_interrupts) [
      | none ↦ err marshal_failed
      | some interrupts ↦ ok (state, interrupts)
    ]
  ]

  unfoldable pub upsert_session_message : String → Message → Db Raw (Unit {0})
  upsert_session_message session_id m = elim (columns.tool_calls.encode m.tool_calls) [
    | none ↦ fail marshal_failed
    | some raw ↦ exec (λ t. record t {
      messages = upsert_row message_key excluded (message_row session_id m raw) t.messages;
    })
  ]

  -- The loop of `reconcileSessionMessages`
  unfoldable pub upsert_all : String → List Message → Db Raw (Unit {0})
  upsert_all session_id [] = pure tt
  upsert_all session_id (m ∷ ms) = upsert_session_message session_id m >> upsert_all session_id ms

  unfoldable pub reconcile_session_messages : String → List Message → Db Raw (Unit {0})
  reconcile_session_messages session_id ms =
      delete_removed_messages session_id ms >> upsert_all session_id ms

  unfoldable pub update_session_transaction : ℕ → Session → Raw × Raw → Db Raw Committed
  update_session_transaction now s encoded = do
    times ← load_session_timestamps s.id
    updated_at ← lift (next_sqlite_updated_at now s.id times.1)
    update_session_row s encoded (pos s.revision) (pos (s.revision + 1)) updated_at
    reconcile_session_messages s.id s.messages
    pure (record { revision = s.revision + 1; created_at = times.0; updated_at = updated_at })

  -- `UpdateSession`: the caller's session as it is left on success.
  unfoldable pub update_session : ℕ → Session → Db Raw Session
  update_session now s = do
    lift (validate_session_update s)
    encoded ← lift (encode_session_metadata s)
    committed ← transaction (update_session_transaction now s encoded)
    pure (apply_committed_session s committed)
