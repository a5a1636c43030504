-- ===== src/Jsonl/Sessions.antt =====
-- The session operations of storage/metadata/jsonl/sessions.go on a disk.
pub mod Commit
pub mod Files
pub mod Appends
pub mod Inversion
pub mod Prepared
pub mod Update
pub mod Revisions
pub mod Created
pub mod Tombstone
pub mod Deleted
pub mod Isolated
pub mod Swapped
use Prim.Native.Nat.{zero, suc}
use rakit.Prelude.{
  length, ℕ, ◌+◌, ◌%◌, ◌^◌, ◌-◌, String, Bool, true, false, not, Option, none, some, List, [], ◌∷◌,
  ◌++◌, leb, nat_eq, if◌then◌else◌, Result, ok, err, ◌>>=◌, find, delete,
}
use rakit.Metadata.{Fields, Session}
use rakit.Jsonl.Journal.{
  Error, io_failed, not_found, session_conflict, revision_overflow, updated_at_overflow,
  no_unique_id, Envelope, Std, Source, Fault, fine, late, Disk, new_id, new_envelope,
  read_envelopes, lines_of, next_fault, append_envelope, append_all, session_path,
}
use rakit.Jsonl.Replay.{meta_from_session, replay_session}
use rakit.Jsonl.Changes.{session_message_changes}

abbrev pub max_uint64 : ℕ
max_uint64 = 2 ^ 64 - 1

abbrev pub max_int64 : ℕ
max_int64 = 2 ^ 63 - 1

abbrev pub visible : Session × Bool → Option Session
visible (s, deleted) = if deleted then none else some s

-- `next.UpdatedAt`: the clock, or one more than the stored time where the clock did not advance.
unfoldable pub next_updated_at : String → ℕ → ℕ → Result Error ℕ
next_updated_at id now stored =
    if leb now stored
    then (if nat_eq stored max_int64 then err (updated_at_overflow id) else ok (stored + 1))
    else ok now

unfoldable pub transaction_of : Source → String
transaction_of src = new_id "txn-" src.transaction

-- The random texts of `n` attempts, from the `i`-th on.
unfoldable pub attempts_from : Source → ℕ → ℕ → List String
attempts_from src zero i = []
attempts_from src (suc n) i = src.attempt i ∷ attempts_from src n (suc i)

abbrev pub created_session : Source → String → String → String → Session
created_session src id agent_id user_id = record {
  id = id;
  agent_id = agent_id;
  user_id = user_id;
  parent_session_id = "";
  messages = [];
  state = Fields.end;
  open_interrupts = [];
  revision = 1;
  created_at = src.now;
  updated_at = src.now;
}

module _ {Raw : Type 0} where
  abbrev pub moved : String → Disk Raw → Disk Raw
  moved id d = record d { transcripts = delete id d.transcripts; staged = id ∷ d.staged }

  abbrev pub unstaged : Disk Raw → Disk Raw
  unstaged d = record d { staged = elim d.staged [ [] ↦ [] | _ ∷ l ↦ l ] }

  -- `os.Remove` of the renamed transcript, and the last sync.
  unfoldable pub remove_under : Fault → Disk Raw → Result Error (Unit {0}) × Disk Raw
  remove_under fine d = (ok tt, unstaged d)
  remove_under late d = (err io_failed, unstaged d)
  remove_under _ d = (err io_failed, d)

  -- `os.Rename` of the transcript and its sync.
  unfoldable pub rename_under : Fault → String → Disk Raw → Result Error (Unit {0}) × Disk Raw
  rename_under fine id d = let (g, d') = next_fault (moved id d) in remove_under g d'
  rename_under late id d = (err io_failed, moved id d)
  rename_under _ id d = (err io_failed, d)

  unfoldable pub remove_transcript : String → Disk Raw → Result Error (Unit {0}) × Disk Raw
  remove_transcript id d = let (f, d') = next_fault d in rename_under f id d'

module _ {Raw : Type 0} (std : Std Raw) where
  -- What follows `readEnvelopes` in `getSessionLocked`.
  unfoldable pub replayed : String → List (Envelope Raw) → Result Error (Option Session)
  replayed id [] = ok none
  replayed id (e ∷ es) = do v ← replay_session std id (e ∷ es); ok (visible v)

  -- `GetSession`
  unfoldable pub get_session : String → Disk Raw → Result Error (Option Session)
  get_session id d = do
    path ← session_path std id
    records ← read_envelopes (lines_of path d)
    replayed id records

  unfoldable pub clone_session : Session → Session
  clone_session s = elim (std.session.encode s) [
    | none ↦ s
    | some raw ↦ elim (std.session.decode raw) [ none ↦ s | some copy ↦ copy ]
  ]

  -- The snapshot that `UpdateSession` stores for `s` over `current`.
  unfoldable pub next_session : Source → Session → Session → Result Error Session
  unfolding clone_session
  next_session src s current = do
    updated_at ← next_updated_at s.id src.now current.updated_at
    ok (record (clone_session s) {
      id = current.id;
      created_at = current.created_at;
      revision = (current.revision + 1) % 2 ^ 64;
      updated_at = updated_at;
    })

  -- The records of one update, the commit marker last.
  unfoldable pub update_records :
      Source → String → Session → Session → Result Error (List (Envelope Raw) × Envelope Raw)
  update_records src id current next = do
    events ← session_message_changes std src (transaction_of src) id current.messages next.messages
    commit ←
        new_envelope std.meta src (length events) "session.updated" id "" (meta_from_session next)
    ok (events, record commit { transaction_id = transaction_of src })

  -- The stored session that `UpdateSession` starts from.
  unfoldable pub current_session : String → Disk Raw → Result Error Session
  current_session id d = do
    path ← session_path std id
    found ← get_session id d
    elim found [ none ↦ err (not_found id) | some current ↦ ok current ]

  -- The revision checks, the next snapshot and its records.
  unfoldable pub plan_update :
      Source → Session → Session → Result Error (Session × List (Envelope Raw) × Envelope Raw)
  plan_update src s current =
      if not (nat_eq s.revision current.revision)
      then err (session_conflict s.id current.revision s.revision)
      else if nat_eq current.revision max_uint64
      then err (revision_overflow s.id)
      else do
        next ← next_session src s current
        records ← update_records src s.id current next
        ok (next, records.0, records.1)

  -- `UpdateSession` up to the first write.
  unfoldable pub prepare_update :
      Source → Session → Disk Raw → Result Error (Session × List (Envelope Raw) × Envelope Raw)
  prepare_update src s d = do current ← current_session s.id d; plan_update src s current

  -- `UpdateSession`: the session as it is left for the caller, which is the stored one on success.
  unfoldable pub update_session : Source → Session → Disk Raw → Result Error Session × Disk Raw
  update_session src s d = elim (prepare_update src s d) [
    | err e ↦ (err e, d)
    | ok (next, events, commit) ↦
        let (r, d') = append_all s.id (events ++ commit ∷ []) d in
        elim r [ err e ↦ (err e, d') | ok _ ↦ (ok next, d') ]
  ]

  unfoldable pub create_at :
      Source → String → String → String → Disk Raw → Result Error Session × Disk Raw
  create_at src id agent_id user_id d =
      let s = created_session src id agent_id user_id in
      elim (new_envelope std.meta src 0 "session.created" id "" (meta_from_session s)) [
        | err e ↦ (err e, d)
        | ok e ↦
            let (r, d') = append_envelope id e d in
            elim r [ err x ↦ (err x, d') | ok _ ↦ (ok s, d') ]
      ]

  -- The loop of `CreateSession` over the random texts that its attempts draw.
  unfoldable pub create_loop :
      List String → Source → String → String → Disk Raw → Result Error Session × Disk Raw
  create_loop [] src agent_id user_id d = (err no_unique_id, d)
  create_loop (random ∷ attempts) src agent_id user_id d =
      let again = create_loop attempts src agent_id user_id d in
      elim (session_path std (new_id "ses-" random)) [
        | err e ↦ (err e, d)
        | ok id ↦ elim (find id d.transcripts) [
          | some _ ↦ again
          | none ↦ create_at src id agent_id user_id d
        ]
      ]

  -- `CreateSession`
  unfoldable pub create_session :
      Source → String → String → Disk Raw → Result Error Session × Disk Raw
  create_session src agent_id user_id d =
      create_loop (attempts_from src 10 0) src agent_id user_id d

  -- The tombstone of `DeleteSession`, appended where the session is still visible.
  unfoldable pub append_tombstone :
      Source → String → Option Session → Disk Raw → Result Error (Unit {0}) × Disk Raw
  append_tombstone src id none d = (ok tt, d)
  append_tombstone src id (some s) d =
      elim (new_envelope std.id_object src 0 "session.deleted" id "" id) [
        | err e ↦ (err e, d)
        | ok e ↦ append_envelope id e d
      ]

  abbrev pub delete_present : Source → String → Disk Raw → Result Error (Unit {0}) × Disk Raw
  delete_present src id d = elim (get_session id d) [
    | err e ↦ (err e, d)
    | ok current ↦
        let (r, d') = append_tombstone src id current d in
        elim r [ err e ↦ (err e, d') | ok _ ↦ remove_transcript id d' ]
  ]

  unfoldable pub delete_session : Source → String → Disk Raw → Result Error (Unit {0}) × Disk Raw
  delete_session src id d = elim (session_path std id) [
    | err e ↦ (err e, d)
    | ok path ↦ elim (find path d.transcripts) [
      | none ↦ (ok tt, d)
      | some _ ↦ delete_present src id d
    ]
  ]
