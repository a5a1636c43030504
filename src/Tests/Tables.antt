-- ===== src/Tests/Tables.antt =====
-- The tables of a SQLite database with two sessions, and the theorems at them.
use rakit.Prelude.{none, ◌==◌, if◌then◌else◌, ℕ, String, ◌≡◌, refl, [], ◌∷◌, ok, some, arith}
use rakit.Metadata.Definitions.{ToolDef}
use rakit.Metadata.{Value, Fields, Message, Session}
use rakit.Metadata.Contract.{swap}
use rakit.Sqlite.Database.{
  pos, SessionRow, MessageRow, Tables, Database, Outcome, fault_free, next_of, ◌>>=◌, pure, lift,
  statement, transaction, close_transaction,
}
use rakit.Sqlite.Rows.{find_row, upsert_row, rows_where, update_where}
use rakit.Sqlite.Sessions.{
  message_row, or_default, validate_session_update, next_sqlite_updated_at, apply_committed_session,
  load_session_timestamps, classify_session_update_miss, update_session_row,
  delete_removed_messages, encode_session_metadata, upsert_session_message, upsert_all,
  reconcile_session_messages, update_session_transaction, update_session, load_messages, read_row,
  get_session, delete_session,
}
use rakit.Sqlite.Definitions.{insert_named, save_tool}
use rakit.Sqlite.Definitions.Saved.{observe_tool, kept_identity, save_tool-observe_tool}
use rakit.Sqlite.Sessions.Observed.{IsValid, observe}
use rakit.Sqlite.Sessions.Specified.{limits}
use rakit.Sqlite.Sessions.Updated.{Storable}
use rakit.Sqlite.Sessions.Swapped.{Implements, update_session-Swaps}
use rakit.Sqlite.Sessions.Atomic.{SwapsOrFails, update_session-SwapsOrFails}
use rakit.Sqlite.Sessions.Deleted.{DeleteEnd, delete_session-Removes}
use rakit.Tests.Engines.{
  Column, state_text, interrupts_text, calls_text, sort_rows, plain_columns, plain_definitions,
  plain_engine, plain_engine-Orders,
}

-- What the store's operations call, to run them.
unfoldable sqlite_code : Unit {0}
unfolding ◌>>=◌ pure lift statement transaction close_transaction next_of find_row upsert_row
    rows_where update_where or_default validate_session_update next_sqlite_updated_at
    apply_committed_session load_session_timestamps classify_session_update_miss update_session_row
    delete_removed_messages encode_session_metadata upsert_session_message upsert_all
    reconcile_session_messages update_session_transaction update_session load_messages read_row
    get_session observe sort_rows insert_named save_tool
sqlite_code = tt

abbrev said : String → ℕ → Message
said id at = record { id = id; role = "user"; content = "hello"; tool_calls = []; created_at = at }

abbrev stored_message : String → String → ℕ → MessageRow Column
stored_message session_id id at = message_row session_id (said id at) (calls_text [])

abbrev stored_session : String → SessionRow Column
stored_session id = record {
  id = id;
  agent_id = "a";
  user_id = "u";
  parent_session_id = "";
  state = state_text Fields.end;
  open_interrupts = interrupts_text [];
  revision = pos 1;
  created_at = 3;
  updated_at = 5;
}

-- Two sessions, of which the first has a message that the update drops.
abbrev two_sessions : Tables Column
two_sessions = record {
  sessions = stored_session "s" ∷ stored_session "t" ∷ [];
  messages = stored_message "s" "m0" 4 ∷ stored_message "t" "x" 4 ∷ [];
  tools = [];
  skills = [];
  memory = [];
  servers = [];
}

abbrev snapshot : Session
snapshot = record {
  id = "s";
  agent_id = "a";
  user_id = "u";
  parent_session_id = "";
  messages = said "m1" 6 ∷ said "m2" 7 ∷ [];
  state = Fields.end;
  open_interrupts = [];
  revision = 1;
  created_at = 0;
  updated_at = 0;
}

two_sessions-IsValid : IsValid two_sessions
two_sessions-IsValid = ground arith

snapshot-Storable :
    Storable plain_columns snapshot
      (state_text Fields.end, interrupts_text [])
      (stored_message "s" "m1" 6 ∷ stored_message "s" "m2" 7 ∷ [])
      two_sessions
unfolding encode_session_metadata
snapshot-Storable = record {
  encodes = refl;
  written = ground arith;
  distinct = ground arith;
  rising = omega arith;
  own = ground arith;
}

update_session-Swaps_example :
    Implements plain_columns plain_engine
      (update_session plain_columns 9 snapshot (fault_free two_sessions))
      (swap limits 9 snapshot (observe plain_columns plain_engine two_sessions))
update_session-Swaps_example =
    update_session-Swaps plain_columns plain_engine 9 snapshot two_sessions
      (state_text Fields.end, interrupts_text [])
      (stored_message "s" "m1" 6 ∷ stored_message "s" "m2" 7 ∷ []) plain_engine-Orders
      two_sessions-IsValid snapshot-Storable

-- The commit takes effect, but an error is reported.
abbrev late_commit : Database Column
late_commit = record {
  tables = two_sessions;
  outcomes =
      Outcome.done ∷ Outcome.done ∷ Outcome.done ∷ Outcome.done ∷ Outcome.done ∷ Outcome.done
      ∷ Outcome.late ∷ [];
}

update_session-SwapsOrFails_example :
    SwapsOrFails plain_columns plain_engine late_commit
      (update_session plain_columns 9 snapshot late_commit)
      (swap limits 9 snapshot (observe plain_columns plain_engine two_sessions))
update_session-SwapsOrFails_example =
    update_session-SwapsOrFails plain_columns plain_engine 9 snapshot late_commit
      (state_text Fields.end, interrupts_text [])
      (stored_message "s" "m1" 6 ∷ stored_message "s" "m2" 7 ∷ []) plain_engine-Orders
      two_sessions-IsValid snapshot-Storable

delete_session-Removes_example :
    DeleteEnd plain_columns plain_engine "s" late_commit
      (delete_session plain_engine "s" late_commit)
delete_session-Removes_example = delete_session-Removes plain_columns plain_engine "s" late_commit

-- A message that is later than the one behind it, as the summary of a compaction is: the messages
-- are read in another order than they were stored in.
abbrev compacted : Session
compacted = record snapshot { messages = said "summary" 9 ∷ said "m2" 7 ∷ [] }

compacted_order :
    observe plain_columns plain_engine
      (update_session plain_columns 10 compacted (fault_free two_sessions)).1.tables
      "s"
    ≡ some (record compacted {
      messages = said "m2" 7 ∷ said "summary" 9 ∷ [];
      revision = 2;
      created_at = 3;
      updated_at = 10;
    })
unfolding sqlite_code
compacted_order = refl

-- A message whose id a message of the session "t" has is taken from that session.
abbrev taking : Session
taking = record snapshot { messages = said "x" 6 ∷ [] }

taken_message :
    observe plain_columns plain_engine
      (update_session plain_columns 10 taking (fault_free two_sessions)).1.tables
      "t"
    ≡ some (record {
      id = "t";
      agent_id = "a";
      user_id = "u";
      parent_session_id = "";
      messages = [];
      state = Fields.end;
      open_interrupts = [];
      revision = 1;
      created_at = 3;
      updated_at = 5;
    })
unfolding sqlite_code
taken_message = refl

abbrev weather : ToolDef
weather = record {
  id = "";
  agent_id = "a";
  name = "weather";
  description = "";
  parameters = Value.null;
  handler = "http";
  endpoint = "";
  headers = none;
  input_mapping = none;
  response_field = "";
  script_path = "";
  created_at = 0;
}

abbrev after_save : Tables Column
after_save = (save_tool plain_definitions 7 "tool-1" weather (fault_free two_sessions)).1.tables

saved_runs :
    save_tool plain_definitions 7 "tool-1" weather (fault_free two_sessions)
    ≡ (ok (record weather { id = "tool-1"; created_at = 7 }), fault_free after_save)
unfolding sqlite_code
saved_runs = refl

save_tool-observe_tool_example : observe_tool plain_definitions after_save "weather" ≡ (
    if "weather" == "weather"
    then some (
        kept_identity plain_definitions
          (observe_tool plain_definitions two_sessions "weather")
          (record weather { id = "tool-1"; created_at = 7 }))
    else observe_tool plain_definitions two_sessions "weather")
save_tool-observe_tool_example =
    save_tool-observe_tool plain_definitions 7 "tool-1" weather
      (record weather { id = "tool-1"; created_at = 7 }) two_sessions after_save saved_runs
      "weather"
