-- ===== src/Jsonl/Sessions/Revisions.antt =====
-- The revision check of `UpdateSession`, and what the store sets in a snapshot.
use rakit.Prelude.{
  ℕ, ◌+◌, ◌<◌, ◌%◌, ◌^◌, String, ◌≡◌, ◌≢◌, ap, ◌∙◌, false, some, ok, err, arith, nat_eq, IsDistinct,
}
use rakit.Metadata.{Session}
use rakit.Jsonl.Journal.{session_conflict, Std, Source, Disk, lines_of, session_path}
use rakit.Jsonl.Changes.Equal.{ids}
use rakit.Jsonl.Sessions.{
  max_uint64, get_session, transaction_of, current_session, plan_update, prepare_update,
  update_session,
}
use rakit.Jsonl.Sessions.Files.{IsFreshIn, NoCut}
use rakit.Jsonl.Sessions.Inversion.{
  IsStored_of_get, get_of_IsStored, prepare_update-IsPrepared, update_session-ok,
}
use rakit.Jsonl.Sessions.Prepared.{next_session-fields, id-replay_session}
use rakit.Jsonl.Sessions.Update.{update_session-get}

module _ {Raw : Type 0} (std : Std Raw) where
  prepare_update-conflict :
      (src : Source) (s current : Session) (d : Disk Raw)
      → get_session std s.id d ≡ ok (some current)
      → s.revision ≢ current.revision
      → prepare_update std src s d ≡ err (session_conflict s.id current.revision s.revision)
  unfolding prepare_update current_session plan_update session_path
  prepare_update-conflict src s current d stored stale =
      let valid = (IsStored_of_get std s.id d current stored).valid in
      rw (valid, stored, differ s.revision current.revision stale)
    where
      differ : (a b : ℕ) → a ≢ b → nat_eq a b ≡ false
      differ a b h = ground arith

  -- A snapshot of another revision than the stored one is refused with the conflict error, and the
  -- disk is left as it was.
  pub update_session-conflict :
      (src : Source) (s current : Session) (d : Disk Raw)
      → get_session std s.id d ≡ ok (some current)
      → s.revision ≢ current.revision
      → update_session std src s d ≡ (err (session_conflict s.id current.revision s.revision), d)
  unfolding update_session
  update_session-conflict src s current d stored stale =
      rw (prepare_update-conflict src s current d stored stale, update_session)

  same_stored :
      (id : String) (a b : Session) (d : Disk Raw)
      → get_session std id d ≡ ok (some a)
      → get_session std id d ≡ ok (some b)
      → a ≡ b
  same_stored id a b d h k = ground arith

  -- What a successful update says of the stored session, whichever it was.
  updated :
      (src : Source) (s next : Session) (d d' : Disk Raw)
      → update_session std src s d ≡ (ok next, d')
      → (current : Session) × (t : ℕ) × (get_session std s.id d ≡ ok (some current))
        × (s.revision ≡ current.revision)
        × (nat_eq current.revision max_uint64 ≡ false)
        × (current.updated_at < t)
        × (next ≡ record s {
          id = current.id;
          created_at = current.created_at;
          revision = (current.revision + 1) % 2 ^ 64;
          updated_at = t;
        })
        × (current.id ≡ s.id)
  updated src s next d d' h =
      let (events, commit, p, _) = update_session-ok std src s d next d' h in
      let prepared = prepare_update-IsPrepared std src s d next events commit p in
      let (t, later, fields) = next_session-fields std src s prepared.current next prepared.made in
      (
        prepared.current,
        t,
        get_of_IsStored std s.id d prepared.current prepared.stored,
        prepared.revision,
        prepared.room,
        later,
        fields,
        id-replay_session std s.id prepared.stored.records prepared.current prepared.stored.replays,
      )

  -- A successful update stores the caller's snapshot at the next revision, with the id and the
  -- creation time that were stored, and a later update time than was stored, where the stored
  -- revision is a 64-bit number.
  pub update_session-fields :
      (src : Source) (s current next : Session) (d d' : Disk Raw)
      → get_session std s.id d ≡ ok (some current)
      → current.revision < 2 ^ 64
      → update_session std src s d ≡ (ok next, d')
      → (t : ℕ) × (current.updated_at < t)
        × (next ≡ record s {
          created_at = current.created_at;
          revision = s.revision + 1;
          updated_at = t;
        })
  update_session-fields src s current next d d' stored small h =
      let (c, t, found, revision, room, later, fields, kept) = updated src s next d d' h in
      let same : c ≡ current = same_stored s.id c current d found stored in
      let small' : c.revision < 2 ^ 64 = rw same small in
      let step : (c.revision + 1) % 2 ^ 64 ≡ s.revision + 1 = ground arith in
      (t, rw (← same) later, fields ∙ rw (kept, step, same))

  -- Of two writers that read the same revision only the first succeeds: once an update of the
  -- session has been made, a snapshot of the revision that it started from is refused with the
  -- conflict error and the disk is left as it was. The ids of the first writer's messages are
  -- distinct, its transaction id is new to the transcript and no write is cut short.
  pub update_session-once :
      (src src' : Source) (s s' next : Session) (d d' : Disk Raw)
      → NoCut d.faults
      → IsFreshIn (transaction_of src) (lines_of s.id d)
      → IsDistinct (ids s.messages)
      → update_session std src s d ≡ (ok next, d')
      → s'.id ≡ s.id
      → s'.revision ≡ s.revision
      → update_session std src' s' d' ≡ (err (session_conflict s'.id next.revision s'.revision), d')
  update_session-once src src' s s' next d d' no_cut fresh distinct h same_id same_revision =
      let (c, t, _, revision, room, _, fields, kept) = updated src s next d d' h in
      let stored = update_session-get std src s d no_cut fresh distinct next d' h in
      let next_revision : next.revision ≡ (c.revision + 1) % 2 ^ 64 =
        ap (λ (x : Session). x.revision) fields in
      update_session-conflict src' s' next d' (rw same_id stored) (λ e. ground arith)
