-- ===== src/Jsonl/Sessions/Tombstone.antt =====
-- A transcript to which `DeleteSession` has added its record.
use rakit.Prelude.{
  String, ◌≡◌, refl, true, false, List, [], ◌∷◌, ◌++◌, none, ok, arith, eq_refl, and-false,
}
use rakit.Metadata.{Session}
use rakit.Jsonl.Journal.{Envelope, complete, Std, Disk, lines_of, session_path}
use rakit.Jsonl.Replay.{
  ReplayState, initial, replay_deleted, replay_step, replay_records, finish, replay_session,
}
use rakit.Jsonl.Replay.Deferred.{replay_records-append}
use rakit.Jsonl.Changes.Events.{IsEnvelope}
use rakit.Jsonl.Sessions.{replayed, get_session}
use rakit.Jsonl.Sessions.Commit.{IsLive, IsLive_of_replay}
use rakit.Jsonl.Sessions.Files.{Added, read_envelopes-append}
use rakit.Jsonl.Sessions.Inversion.{IsStored}

module _ {Raw : Type 0} (std : Std Raw) where
  step-deleted :
      (id : String) (e : Envelope Raw) (r : ReplayState Raw)
      → IsEnvelope std.id_object id "session.deleted" id e
      → r.created ≡ true
      → r.deleted ≡ false
      → replay_step std id e r ≡ ok (record r { deleted = true })
  unfolding replay_step replay_deleted
  step-deleted id e r shape created deleted =
      simp (shape.session, shape.kind, created, deleted, eq_refl id, and-false) refl

  finish-deleted :
      (id : String) (r : ReplayState Raw) (s : Session)
      → finish std id r ≡ ok (s, false)
      → finish std id (record r { deleted = true }) ≡ ok (s, true)
  unfolding finish
  finish-deleted id r s h = ground arith

  replay_session-deleted :
      (id : String) (rs : List (Envelope Raw)) (e : Envelope Raw) (s : Session)
      → IsLive std id rs s
      → IsEnvelope std.id_object id "session.deleted" id e
      → replay_session std id (rs ++ e ∷ []) ≡ ok (s, true)
  unfolding replay_session replay_records
  replay_session-deleted id rs e s live shape =
      rw
        (
          replay_records-append std id rs (e ∷ []) initial,
          live.replays,
          step-deleted id e live.state shape live.created live.deleted,
        )
        (finish-deleted id live.state s live.finishes)

  replayed-deleted :
      (id : String) (rs : List (Envelope Raw)) (e : Envelope Raw) (s : Session)
      → replay_session std id (rs ++ e ∷ []) ≡ ok (s, true)
      → replayed std id (rs ++ e ∷ []) ≡ ok none
  unfolding replayed
  replayed-deleted id [] e s h = rw h
  replayed-deleted id (x ∷ rs) e s h = rw h

  -- A session with a tombstone is not read any more.
  pub get_session-tombstone :
      (id : String) (d d' : Disk Raw) (s : Session) (e : Envelope Raw)
      → IsStored std id d s
      → IsEnvelope std.id_object id "session.deleted" id e
      → Added id (complete e ∷ []) d d'
      → get_session std id d' ≡ ok none
  unfolding get_session session_path
  get_session-tombstone id d d' s e stored shape added =
      let live = IsLive_of_replay std id stored.records s stored.replays in
      rw
        (
          stored.valid,
          added id,
          eq_refl id,
          read_envelopes-append (lines_of id d) stored.records (e ∷ []) stored.reads
              (shape.readable, tt),
        )
        (replayed-deleted id stored.records e s
          (replay_session-deleted id stored.records e s live shape))
