-- ===== src/Jsonl/Sessions/Commit.antt =====
-- What a transcript replays to when the records of a transaction, or a part of them, are added.
use mathlib.Core.List.{append-nil}
use rakit.Prelude.{
  String, ◌≡◌, refl, true, false, List, [], ◌∷◌, ◌++◌, ◌==◌, eq_refl, ok, Result-cases, inl, inr,
  arith, and-false, delete, find,
}
use rakit.Metadata.{Message, Session}
use rakit.Jsonl.Journal.{Envelope, Std, SessionMeta}
use rakit.Jsonl.Replay.{
  ReplayState, zero_session, initial, pending_of, apply_meta, apply_message_events, commit_pending,
  replay_updated, replay_step, replay_records, finish, replay_session,
}
use rakit.Jsonl.Replay.Deferred.{
  AllDeferred, IsOpen, defer_all, replay_records-append, replay_records-deferred,
  pending_of-defer_all,
}
use rakit.Jsonl.Replay.Fresh.{IsFresh, IsUnused, replay_records-IsUnused}
use rakit.Jsonl.Changes.Events.{IsEnvelope}

module _ {Raw : Type 0} (std : Std Raw) (id : String) where
  -- A transcript that replays to a session which is not deleted.
  pub record IsLive (records : List (Envelope Raw)) (s : Session) : Type 0 where
    pub state : ReplayState Raw
    pub replays : replay_records std id records initial ≡ ok state
    pub finishes : finish std id state ≡ ok (s, false)
    pub created : state.created ≡ true
    pub deleted : state.deleted ≡ false
    pub messages : state.session.messages ≡ s.messages

  finish-created :
      (r : ReplayState Raw) (s : Session)
      → finish std id r ≡ ok (s, false)
      → (r.created ≡ true) × (r.deleted ≡ false) × (r.session.messages ≡ s.messages)
  unfolding finish
  finish-created r s h = (ground arith, ground arith, ground arith)

  pub IsLive_of_replay :
      (records : List (Envelope Raw)) (s : Session)
      → replay_session std id records ≡ ok (s, false)
      → IsLive records s
  unfolding replay_session
  IsLive_of_replay records s h = elim (Result-cases (replay_records std id records initial)) [
    | inl (r, p) ↦
        let q : finish std id r ≡ ok (s, false) = rw p at h in
        let (c, d, m) = finish-created r s q in
        record { state = r; replays = p; finishes = q; created = c; deleted = d; messages = m }
    | inr (x, p) ↦ absurd (ground arith)
  ]

  step-updated :
      (e : Envelope Raw) (r r' : ReplayState Raw) (m : SessionMeta)
      → IsEnvelope std.meta id "session.updated" m e
      → r.created ≡ true
      → r.deleted ≡ false
      → m.id ≡ id
      → (id == "") ≡ false
      → commit_pending std e.transaction_id r ≡ ok r'
      → replay_step std id e r ≡ ok (record r' { session = apply_meta m r'.session })
  unfolding replay_step replay_updated
  step-updated e r r' m shape created deleted kept named h =
      simp (shape.session, shape.kind, created, deleted, shape.payload, kept, named, eq_refl id, h)
        refl

module _ {Raw : Type 0} (std : Std Raw) (id t : String) (records : List (Envelope Raw))
    (s : Session) (named : (t == "") ≡ false) (fresh : IsFresh t records)
    (live : IsLive std id records s) where
  IsUnused-live : IsUnused t live.state
  IsUnused-live =
      replay_records-IsUnused std id t records initial live.state fresh live.replays
        (record { uncommitted = refl; absent = unfold find in refl })

  IsOpen-live : IsOpen t live.state
  IsOpen-live = record {
    created = live.created;
    deleted = live.deleted;
    uncommitted = IsUnused-live.uncommitted;
    named = named;
  }

  abbrev with_deferred : List (Envelope Raw) → ReplayState Raw
  with_deferred es = record live.state { pending = defer_all es live.state.pending }

  replay_records-live :
      (es rest : List (Envelope Raw))
      → AllDeferred id t es
      → replay_records std id (records ++ (es ++ rest)) initial
        ≡ replay_records std id rest (with_deferred es)
  replay_records-live es rest h = rw (
    replay_records-append std id records (es ++ rest) initial,
    live.replays,
    replay_records-append std id es rest live.state,
    replay_records-deferred std id t es live.state h IsOpen-live,
  )

  -- The message records of a transaction without its commit marker are not visible.
  pub replay_session-uncommitted :
      (es : List (Envelope Raw))
      → AllDeferred id t es
      → replay_session std id (records ++ es) ≡ ok (s, false)
  unfolding replay_session finish replay_records
  replay_session-uncommitted es h =
      let p = rw append-nil at (replay_records-live es [] h) in rw p live.finishes

  module _ (es : List (Envelope Raw)) (commit : Envelope Raw) (m : SessionMeta) (ns : List Message)
      (deferred : AllDeferred id t es)
      (applied : (x : Session)
        → apply_message_events std (record x { messages = s.messages }) es
          ≡ ok (record x { messages = ns }))
      (shape : IsEnvelope std.meta id "session.updated" m commit)
      (marks : commit.transaction_id ≡ t) (id_kept : m.id ≡ id)
      (id_named : (id == "") ≡ false) where
    abbrev committed_state : ReplayState Raw
    committed_state = record (with_deferred es) {
      session = record live.state.session { messages = ns };
      pending = delete t (with_deferred es).pending;
      committed = t ∷ live.state.committed;
    }

    commit_pending-live : commit_pending std t (with_deferred es) ≡ ok committed_state
    unfolding commit_pending
    commit_pending-live =
        let p : apply_message_events std live.state.session es
            ≡ ok (record live.state.session { messages = ns }) =
          rw (← live.messages) at (applied live.state.session) in
        rw (
          named,
          IsUnused-live.uncommitted,
          pending_of-defer_all std id t es live.state.pending deferred,
          pending_of,
          IsUnused-live.absent,
          p,
        )

    step-commit :
        replay_step std id commit (with_deferred es)
        ≡ ok (record committed_state { session = apply_meta m committed_state.session })
    step-commit =
        step-updated std id commit (with_deferred es) committed_state m shape live.created
          live.deleted id_kept id_named (rw marks commit_pending-live)

    -- With the commit marker the transcript replays to the session of the marker, with the new
    -- messages.
    pub replay_session-committed :
        replay_session std id (records ++ (es ++ commit ∷ []))
        ≡ ok (record (apply_meta m zero_session) { messages = ns }, false)
    unfolding replay_session replay_records finish
    replay_session-committed = rw (
      replay_records-live es (commit ∷ []) deferred,
      step-commit,
      live.created,
      live.deleted,
      id_kept,
      eq_refl id,
      and-false,
    )
