-- ===== src/Sqlite/Sessions.antt =====
-- The session operations of storage/metadata/sqlite/store.go; `UpdateSession` is in Updates.
mod Updates
pub mod Deleted
pub mod Atomic
pub mod Specified
pub mod Updated
pub mod Foreign
pub mod Swapped
pub mod Observed
pub mod Written
pub mod Runs
pub mod Reconciled
unfoldable pub use Updates.*
use rakit.Prelude.{
  ℕ, ◌+◌, String, Bool, true, false, not, ◌&&◌, Option, none, some, List, [], ◌∷◌, ◌++◌, map, ◌==◌,
  if◌then◌else◌, Result, ok, err,
}
use rakit.Metadata.{Fields, Message, Interrupt, Session}
use rakit.Sqlite.Database.{
  Error, constraint_failed, invalid_revision, pos, negsuc, SessionRow, MessageRow, Tables, Columns,
  Engine, Db, ◌>>=◌, ◌>>◌, pure, lift, fail, statement, select, exec,
}
use rakit.Sqlite.Rows.{find_row, rows_where}

unfoldable pub or_default : {A : Type 0} → A → Option A → A
or_default a none = a
or_default a (some b) = b

abbrev pub is_some : {A : Type 0} → Option A → Bool
is_some none = false
is_some (some a) = true

module _ {Raw : Type 0} where
  -- INSERT INTO sessions, whose id is the primary key.
  abbrev pub insert_session : SessionRow Raw → Tables Raw → Result Error (Unit {0}) × Tables Raw
  insert_session row t = elim (find_row session_key row.id t.sessions) [
    | some _ ↦ (err constraint_failed, t)
    | none ↦ (ok tt, record t { sessions = t.sessions ++ row ∷ [] })
  ]

  abbrev pub of_session : String → List (MessageRow Raw) → List (MessageRow Raw)
  of_session id rows = rows_where (λ r. r.session_id == id) rows

  abbrev pub summary_of : SessionRow Raw → ℕ → Session
  summary_of row revision = record {
    id = row.id;
    agent_id = row.agent_id;
    user_id = row.user_id;
    parent_session_id = row.parent_session_id;
    messages = [];
    state = Fields.end;
    open_interrupts = [];
    revision = revision;
    created_at = row.created_at;
    updated_at = row.updated_at;
  }

  -- The loop of `querySessionSummaries` with `scanSessionSummary`
  unfoldable pub scan_session_summaries : List (SessionRow Raw) → Result Error (List Session)
  scan_session_summaries [] = ok []
  scan_session_summaries (row ∷ rows) = elim row.revision [
    | negsuc _ ↦ err (invalid_revision row.id)
    | pos revision ↦ elim (scan_session_summaries rows) [
      | err x ↦ err x
      | ok rest ↦ ok (summary_of row revision ∷ rest)
    ]
  ]

module _ {Raw : Type 0} (columns : Columns Raw) where
  -- `CreateSession` with the clock and the new random id
  unfoldable pub create_session : ℕ → String → String → String → Db Raw Session
  create_session now id agent_id user_id = do
    statement (
        insert_session (record {
          id = id;
          agent_id = agent_id;
          user_id = user_id;
          parent_session_id = "";
          state = columns.object_text;
          open_interrupts = columns.array_text;
          revision = pos 1;
          created_at = now;
          updated_at = now;
        }))
    pure (record {
      id = id;
      agent_id = agent_id;
      user_id = user_id;
      parent_session_id = "";
      messages = [];
      state = Fields.end;
      open_interrupts = [];
      revision = 1;
      created_at = now;
      updated_at = now;
    })

  abbrev pub message_of : MessageRow Raw → Message
  message_of r = record {
    id = r.id;
    role = r.role;
    content = r.content;
    tool_calls = or_default [] (columns.tool_calls.decode r.tool_calls);
    created_at = r.created_at;
  }

  abbrev pub interrupts_of : Raw → List Interrupt
  interrupts_of raw =
      or_default []
        (columns.interrupts.decode (if columns.is_empty_text raw then columns.array_text else raw))

  abbrev pub session_of : SessionRow Raw → ℕ → List Message → Session
  session_of row revision messages = record {
    id = row.id;
    agent_id = row.agent_id;
    user_id = row.user_id;
    parent_session_id = row.parent_session_id;
    messages = messages;
    state = or_default Fields.end (columns.state.decode row.state);
    open_interrupts = interrupts_of row.open_interrupts;
    revision = revision;
    created_at = row.created_at;
    updated_at = row.updated_at;
  }

module _ {Raw : Type 0} (columns : Columns Raw) (engine : Engine Raw) where
  unfoldable pub load_messages : String → Db Raw (List Message)
  load_messages id = do
    rows ← select (λ t. engine.by_created_at (of_session id t.messages))
    pure (map (message_of columns) rows)

  -- What follows the first query of `GetSession`.
  unfoldable pub read_row : String → Option (SessionRow Raw) → Db Raw (Option Session)
  unfolding load_messages
  read_row id none = pure none
  read_row id (some row) = elim row.revision [
    | negsuc _ ↦ fail (invalid_revision id)
    | pos revision ↦ do
      messages ← load_messages id
      pure (some (session_of columns row revision messages))
  ]

  unfoldable pub get_session : String → Db Raw (Option Session)
  unfolding read_row
  get_session id = do found ← select (λ t. find_row session_key id t.sessions); read_row id found

module _ {Raw : Type 0} (engine : Engine Raw) where
  -- `DELETE FROM sessions WHERE id = ?`, with the messages where foreign keys are enforced.
  unfoldable pub delete_session : String → Db Raw (Unit {0})
  delete_session id = exec (λ t. record t {
    sessions = rows_where (λ r. not (r.id == id)) t.sessions;
    messages =
        if engine.foreign_keys && is_some (find_row session_key id t.sessions)
        then rows_where (λ r. not (r.session_id == id)) t.messages
        else t.messages;
  })

  unfoldable pub query_session_summaries : (SessionRow Raw → Bool) → Db Raw (List Session)
  query_session_summaries p = do
    rows ← select (λ t. engine.by_updated_at_desc (rows_where p t.sessions))
    lift (scan_session_summaries rows)

  unfoldable pub list_sessions : String → Db Raw (List Session)
  list_sessions agent_id = query_session_summaries (λ r. r.agent_id == agent_id)

  unfoldable pub list_sessions_by_user : String → String → Db Raw (List Session)
  list_sessions_by_user agent_id user_id =
      query_session_summaries (λ r. r.agent_id == agent_id && r.user_id == user_id)
