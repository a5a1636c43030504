-- ===== src/Jsonl/Replay.antt =====
-- `replaySession` and `applySessionMessageEvent` of storage/metadata/jsonl/sessions.go.
pub mod Deferred
pub mod Fresh
use rakit.Prelude.{
  String, Bool, true, false, ◌&&◌, ◌||◌, not, Option, none, some, List, [], ◌∷◌, ◌++◌, ◌==◌,
  if◌then◌else◌, Result, ok, err, ◌>>=◌, Assoc, find, insert, delete, elem,
}
use rakit.Metadata.{Fields, Message, Session}
use rakit.Jsonl.Journal.{
  Error, decode_failed, foreign_record, invalid_position, id_mismatch, duplicate_transaction,
  follows_commit, unknown_event, no_created_record, Envelope, SessionMeta, Std,
}

abbrev pub zero_session : Session
zero_session = record {
  id = "";
  agent_id = "";
  user_id = "";
  parent_session_id = "";
  messages = [];
  state = Fields.end;
  open_interrupts = [];
  revision = 0;
  created_at = 0;
  updated_at = 0;
}

-- `metaFromSession`
abbrev pub meta_from_session : Session → SessionMeta
meta_from_session s = record {
  id = s.id;
  agent_id = s.agent_id;
  user_id = s.user_id;
  parent_session_id = s.parent_session_id;
  state = s.state;
  open_interrupts = s.open_interrupts;
  revision = s.revision;
  created_at = s.created_at;
  updated_at = s.updated_at;
}

-- `sessionMeta.apply`
abbrev pub apply_meta : SessionMeta → Session → Session
apply_meta m s = record s {
  id = m.id;
  agent_id = m.agent_id;
  user_id = m.user_id;
  parent_session_id = m.parent_session_id;
  state = m.state;
  open_interrupts = m.open_interrupts;
  revision = m.revision;
  created_at = m.created_at;
  updated_at = m.updated_at;
}

-- The first message with the id is replaced, or the message is appended.
unfoldable pub upsert_message : Message → List Message → List Message
upsert_message m [] = m ∷ []
upsert_message m (c ∷ cs) = if c.id == m.id then m ∷ cs else c ∷ upsert_message m cs

-- The local variables of the loop.
pub record ReplayState (Raw : Type 0) : Type 0 where
  pub session : Session
  pub created : Bool
  pub deleted : Bool
  pub pending : Assoc (List (Envelope Raw))
  pub committed : List String

abbrev pub decoded : {A : Type 0} → Option A → String → Result Error A
decoded o type = elim o [ none ↦ err (decode_failed type) | some a ↦ ok a ]

module _ {Raw : Type 0} where
  abbrev pub initial : ReplayState Raw
  initial = record {
    session = zero_session;
    created = false;
    deleted = false;
    pending = [];
    committed = [];
  }

  abbrev pub pending_of : String → Assoc (List (Envelope Raw)) → List (Envelope Raw)
  pending_of t p = elim (find t p) [ none ↦ [] | some es ↦ es ]

  -- `pending[t] = append(pending[t], event)`
  unfoldable pub defer : Envelope Raw → Assoc (List (Envelope Raw)) → Assoc (List (Envelope Raw))
  defer e p = insert e.transaction_id (pending_of e.transaction_id p ++ e ∷ []) p

module _ {Raw : Type 0} (std : Std Raw) where
  unfoldable pub apply_message_event : Session → Envelope Raw → Result Error Session
  apply_message_event s e =
      if e.type == "message.upsert"
      then (do
        m ← decoded (std.message.decode e.payload) e.type
        ok (record s { messages = upsert_message m s.messages }))
      else if e.type == "messages.replaced"
      then (do
        ms ← decoded (std.replacement.decode e.payload) e.type
        ok (record s { messages = ms }))
      else err (unknown_event e.type)

  unfoldable pub apply_message_events : Session → List (Envelope Raw) → Result Error Session
  apply_message_events s [] = ok s
  apply_message_events s (e ∷ es) = do s' ← apply_message_event s e; apply_message_events s' es

  unfoldable pub replay_created :
      String → Envelope Raw → ReplayState Raw → Result Error (ReplayState Raw)
  replay_created id e r = if r.created || r.deleted then err (invalid_position e.type) else do
    m ← decoded (std.meta.decode e.payload) e.type
    if m.id == "" || not (m.id == id)
        then err (id_mismatch m.id id)
        else ok (record r { session = apply_meta m r.session; created = true })

  -- The commit of a transaction: its deferred message events are applied.
  unfoldable pub commit_pending : String → ReplayState Raw → Result Error (ReplayState Raw)
  commit_pending t r =
      if t == "" then ok r else if elem t r.committed then err (duplicate_transaction t) else do
        s ← apply_message_events r.session (pending_of t r.pending)
        ok (record r { session = s; pending = delete t r.pending; committed = t ∷ r.committed })

  unfoldable pub replay_updated :
      String → Envelope Raw → ReplayState Raw → Result Error (ReplayState Raw)
  replay_updated id e r = if not r.created || r.deleted then err (invalid_position e.type) else do
    m ← decoded (std.meta.decode e.payload) e.type
    if m.id == "" || not (m.id == id) then err (id_mismatch m.id id) else do
      r' ← commit_pending e.transaction_id r
      ok (record r' { session = apply_meta m r'.session })

  unfoldable pub replay_message : Envelope Raw → ReplayState Raw → Result Error (ReplayState Raw)
  replay_message e r =
      if not r.created || r.deleted
      then err (invalid_position e.type)
      else if e.transaction_id == ""
      then (do s ← apply_message_event r.session e; ok (record r { session = s }))
      else if elem e.transaction_id r.committed
      then err (follows_commit e.transaction_id)
      else ok (record r { pending = defer e r.pending })

  unfoldable pub replay_deleted : Envelope Raw → ReplayState Raw → Result Error (ReplayState Raw)
  replay_deleted e r =
      if not r.created || r.deleted
      then err (invalid_position e.type)
      else ok (record r { deleted = true })

  -- One round of the loop.
  unfoldable pub replay_step :
      String → Envelope Raw → ReplayState Raw → Result Error (ReplayState Raw)
  replay_step id e r =
      if not (e.session_id == "") && not (e.session_id == id)
      then err (foreign_record e.session_id)
      else if e.type == "session.created"
      then replay_created id e r
      else if e.type == "session.updated"
      then replay_updated id e r
      else if e.type == "message.upsert"
      then replay_message e r
      else if e.type == "messages.replaced"
      then replay_message e r
      else if e.type == "session.deleted"
      then replay_deleted e r
      else err (unknown_event e.type)

  unfoldable pub replay_records :
      String → List (Envelope Raw) → ReplayState Raw → Result Error (ReplayState Raw)
  replay_records id [] r = ok r
  replay_records id (e ∷ es) r = do r' ← replay_step id e r; replay_records id es r'

  -- What follows the loop: the session, and whether it was deleted.
  unfoldable pub finish : String → ReplayState Raw → Result Error (Session × Bool)
  finish id r =
      if not r.created
      then err no_created_record
      else if not (r.session.id == "") && not (r.session.id == id)
      then err (id_mismatch r.session.id id)
      else ok (record r.session { id = id }, r.deleted)

  unfoldable pub replay_session : String → List (Envelope Raw) → Result Error (Session × Bool)
  replay_session id records = do r ← replay_records id records initial; finish id r
