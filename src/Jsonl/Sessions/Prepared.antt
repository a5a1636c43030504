-- ===== src/Jsonl/Sessions/Prepared.antt =====
-- What the prepared records of an update replay to.
use mathlib.Core.Path.{subst}
use rakit.Prelude.{
  ℕ, ◌+◌, ◌<◌, ◌%◌, ◌^◌, length, String, ◌≡◌, refl, ap, sym, ◌∙◌, true, false, List, [], ◌∷◌, ◌++◌,
  ◌==◌, ok, Result-cases, inl, inr, arith, IsDistinct,
}
use rakit.Metadata.{Session}
use rakit.Jsonl.Journal.{Envelope, Std, Source, Disk, new_envelope, is_session_id, check_envelope}
use rakit.Jsonl.Replay.{initial, replay_session, replay_records, finish, meta_from_session}
use rakit.Jsonl.Replay.Deferred.{AllDeferred}
use rakit.Jsonl.Replay.Fresh.{IsFresh}
use rakit.Jsonl.Changes.{session_message_changes}
use rakit.Jsonl.Changes.Equal.{ids}
use rakit.Jsonl.Changes.Events.{IsEnvelope, new_envelope-IsEnvelope, new_id-ne-empty}
use rakit.Jsonl.Changes.Applied.{
  AllReadable, session_message_changes-WellMade, session_message_changes-applied,
}
use rakit.Jsonl.Sessions.{next_updated_at, next_session, transaction_of, update_records}
use rakit.Jsonl.Sessions.Commit.{
  IsLive, IsLive_of_replay, replay_session-uncommitted, replay_session-committed,
}
use rakit.Jsonl.Sessions.Inversion.{IsPrepared, clone_session-eq}

-- The clock that is stored moves on.
next_updated_at-lt :
    (id : String) (now stored t : ℕ) → next_updated_at id now stored ≡ ok t → stored < t
unfolding next_updated_at
next_updated_at-lt id now stored t h = ground arith

transaction_of-named : (src : Source) → (transaction_of src == "") ≡ false
unfolding transaction_of
transaction_of-named src = new_id-ne-empty "txn-" src.transaction refl

AllDeferred-left :
    {Raw : Type 0} (id t : String) (xs ys : List (Envelope Raw))
    → AllDeferred id t (xs ++ ys)
    → AllDeferred id t xs
AllDeferred-left id t [] ys h = tt
AllDeferred-left id t (x ∷ xs) ys h = (h.0, AllDeferred-left id t xs ys h.1)

module _ {Raw : Type 0} (std : Std Raw) where
  pub id-replay_session :
      (id : String) (rs : List (Envelope Raw)) (s : Session)
      → replay_session std id rs ≡ ok (s, false)
      → s.id ≡ id
  unfolding replay_session finish
  id-replay_session id rs s h = elim (Result-cases (replay_records std id rs initial)) [
    | inl (r, p) ↦ ground arith
    | inr (x, p) ↦ absurd (ground arith)
  ]

  pub is_session_id-named : (id : String) → is_session_id std id ≡ true → (id == "") ≡ false
  unfolding is_session_id
  is_session_id-named id h = ground arith

  -- The snapshot that is stored is the caller's, but for what the store itself sets.
  pub next_session-fields :
      (src : Source) (s current next : Session)
      → next_session std src s current ≡ ok next
      → (t : ℕ) × (current.updated_at < t)
        × (next ≡ record s {
          id = current.id;
          created_at = current.created_at;
          revision = (current.revision + 1) % 2 ^ 64;
          updated_at = t;
        })
  unfolding next_session
  next_session-fields src s current next h =
      elim (Result-cases (next_updated_at s.id src.now current.updated_at)) [
        | inl (t, p) ↦ (
          t,
          next_updated_at-lt s.id src.now current.updated_at t p,
          ground (arith, clone_session-eq std s),
        )
        | inr (x, p) ↦ absurd (ground arith)
      ]

  record UpdateParts (src : Source) (id : String) (current next : Session)
      (events : List (Envelope Raw)) (commit : Envelope Raw) : Type 0 where
    changes :
        session_message_changes std src (transaction_of src) id current.messages next.messages
        ≡ ok events
    shape : IsEnvelope std.meta id "session.updated" (meta_from_session next) commit
    marks : commit.transaction_id ≡ transaction_of src

  update_records-UpdateParts :
      (src : Source) (id : String) (current next : Session) (events : List (Envelope Raw))
      (commit : Envelope Raw)
      → update_records std src id current next ≡ ok (events, commit)
      → UpdateParts src id current next events commit
  unfolding update_records
  update_records-UpdateParts src id current next events commit h =
      let changes =
        session_message_changes std src (transaction_of src) id current.messages next.messages in
      elim (Result-cases changes) [
        | inl (es, p) ↦
            elim (Result-cases (
              new_envelope std.meta src (length es) "session.updated" id ""
                (meta_from_session next))) [
                  | inl (c, q) ↦
                      let e : record c { transaction_id = transaction_of src } ≡ commit =
                        ground arith in
                      let e' : es ≡ events = ground arith in
                      record {
                        changes = p ∙ ap ok e';
                        shape =
                            subst
                              (λ x.
                                IsEnvelope std.meta id "session.updated" (meta_from_session next) x)
                              e
                              (new_envelope-IsEnvelope std.meta src (length es) "session.updated" id
                                "" (transaction_of src) (meta_from_session next) c refl q);
                        marks = ap (λ (x : Envelope Raw). x.transaction_id) (sym e);
                      }
                  | inr (x, q) ↦ absurd (ground arith)
                ]
        | inr (x, p) ↦ absurd (ground arith)
      ]

  module _ (src : Source) (s : Session) (d : Disk Raw) (next : Session)
      (events : List (Envelope Raw)) (commit : Envelope Raw)
      (prepared : IsPrepared std src s d next events commit)
      (fresh : IsFresh (transaction_of src) prepared.stored.records) where
    parts : UpdateParts src s.id prepared.current next events commit
    parts = update_records-UpdateParts src s.id prepared.current next events commit prepared.records

    live : IsLive std s.id prepared.stored.records prepared.current
    live =
        IsLive_of_replay std s.id prepared.stored.records prepared.current prepared.stored.replays

    well_made : AllDeferred s.id (transaction_of src) events × AllReadable events
    well_made =
        session_message_changes-WellMade std src (transaction_of src) s.id prepared.current.messages
          next.messages events parts.changes

    -- All the records that an update appends can be read back.
    pub prepared-readable : AllReadable events × (check_envelope commit ≡ ok commit)
    prepared-readable = (well_made.1, parts.shape.readable)

    -- Until the commit marker is written, the transcript replays to the session as it was.
    pub prepared-uncommitted :
        (done rest : List (Envelope Raw))
        → events ≡ done ++ rest
        → replay_session std s.id (prepared.stored.records ++ done) ≡ ok (prepared.current, false)
    prepared-uncommitted done rest e =
        replay_session-uncommitted std s.id (transaction_of src) prepared.stored.records
          prepared.current (transaction_of-named src) fresh live done
          (AllDeferred-left s.id (transaction_of src) done rest (rw (← e) well_made.0))

    -- With the marker it replays to the new snapshot.
    pub prepared-committed :
        IsDistinct (ids s.messages)
        → replay_session std s.id (prepared.stored.records ++ (events ++ commit ∷ []))
          ≡ ok (next, false)
    prepared-committed distinct =
        let (t, _, fields) = next_session-fields src s prepared.current next prepared.made in
        let id_kept =
          id-replay_session s.id prepared.stored.records prepared.current prepared.stored.replays in
        let messages : next.messages ≡ s.messages = ap (λ (x : Session). x.messages) fields in
        let next_id : next.id ≡ s.id = ap (λ (x : Session). x.id) fields ∙ id_kept in
        replay_session-committed std s.id (transaction_of src) prepared.stored.records
          prepared.current (transaction_of-named src) fresh live events commit
          (meta_from_session next) next.messages well_made.0
          (λ x.
            session_message_changes-applied std src (transaction_of src) s.id
              prepared.current.messages next.messages events x parts.changes (rw messages distinct))
          parts.shape parts.marks next_id (is_session_id-named s.id prepared.stored.valid)
