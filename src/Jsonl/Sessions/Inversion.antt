-- ===== src/Jsonl/Sessions/Inversion.antt =====
-- What a successful `getSessionLocked`, and the checks of a successful `UpdateSession`, show.
use rakit.Prelude.{
  String, ◌≡◌, ◌⊎◌, true, false, List, [], ◌∷◌, ◌++◌, some, Option-cases, Result, ok, err,
  Result-cases, inl, inr, Bool-cases, arith, nat_eq,
}
use rakit.Metadata.{Session}
use rakit.Jsonl.Journal.{
  Error, Envelope, Std, Source, Disk, append_all, read_envelopes, lines_of, is_session_id,
  session_path,
}
use rakit.Jsonl.Replay.{replay_records, finish, replay_session}
use rakit.Jsonl.Sessions.{
  max_uint64, replayed, get_session, clone_session, next_session, update_records, prepare_update,
  current_session, plan_update, update_session,
}

module _ {Raw : Type 0} (std : Std Raw) where
  -- A session that is read from the disk, with the records that it is read from.
  pub record IsStored (id : String) (d : Disk Raw) (s : Session) : Type 0 where
    pub valid : is_session_id std id ≡ true
    pub records : List (Envelope Raw)
    pub reads : read_envelopes (lines_of id d) ≡ ok records
    pub replays : replay_session std id records ≡ ok (s, false)

  replayed-some :
      (id : String) (rs : List (Envelope Raw)) (s : Session)
      → replayed std id rs ≡ ok (some s)
      → replay_session std id rs ≡ ok (s, false)
  unfolding replayed
  replayed-some id [] s h = absurd (ground arith)
  replayed-some id (e ∷ es) s h = ground arith

  pub replayed-live :
      (id : String) (rs : List (Envelope Raw)) (s : Session)
      → replay_session std id rs ≡ ok (s, false)
      → replayed std id rs ≡ ok (some s)
  unfolding replayed replay_session replay_records finish
  replayed-live id [] s h = absurd (ground arith)
  replayed-live id (e ∷ es) s h = rw h

  pub IsStored_of_get :
      (id : String) (d : Disk Raw) (s : Session)
      → get_session std id d ≡ ok (some s)
      → IsStored id d s
  unfolding get_session session_path
  IsStored_of_get id d s h = elim (Bool-cases (is_session_id std id)) [
    | inl v ↦ elim (Result-cases (read_envelopes (lines_of id d))) [
      | inl (rs, p) ↦ record {
        valid = v;
        records = rs;
        reads = p;
        replays = replayed-some id rs s (ground arith);
      }
      | inr (x, p) ↦ absurd (ground arith)
    ]
    | inr v ↦ absurd (ground arith)
  ]

  pub get_of_IsStored :
      (id : String) (d : Disk Raw) (s : Session)
      → IsStored id d s
      → get_session std id d ≡ ok (some s)
  unfolding get_session session_path
  get_of_IsStored id d s h = rw (h.valid, h.reads) (replayed-live id h.records s h.replays)

  pub clone_session-eq : (s : Session) → clone_session std s ≡ s
  unfolding clone_session
  clone_session-eq s = elim (Option-cases (std.session.encode s)) [
    | inl p ↦ rw (p, clone_session)
    | inr (raw, p) ↦ rw (p, clone_session, std.session.decode-encode s raw p)
  ]

  get_of_current :
      (id : String) (d : Disk Raw) (s : Session)
      → current_session std id d ≡ ok s
      → get_session std id d ≡ ok (some s)
  unfolding current_session
  get_of_current id d s h = ground arith

  module _ (src : Source) (s : Session) (d : Disk Raw) where
    pub record IsPrepared (next : Session) (events : List (Envelope Raw)) (commit : Envelope Raw)
        : Type 0 where
      pub current : Session
      pub stored : IsStored s.id d current
      pub revision : s.revision ≡ current.revision
      pub room : nat_eq current.revision max_uint64 ≡ false
      pub made : next_session std src s current ≡ ok next
      pub records : update_records std src s.id current next ≡ ok (events, commit)

    planned :
        (current next : Session) (events : List (Envelope Raw)) (commit : Envelope Raw)
        → current_session std s.id d ≡ ok current
        → plan_update std src s current ≡ ok (next, events, commit)
        → IsPrepared next events commit
    unfolding plan_update
    planned current next events commit p h = elim (Result-cases (next_session std src s current)) [
      | inl (n, q) ↦ elim (Result-cases (update_records std src s.id current n)) [
        | inl (rs, r) ↦
            let e : n ≡ next = ground arith in
            record {
              current = current;
              stored = IsStored_of_get s.id d current (get_of_current s.id d current p);
              revision = ground arith;
              room = ground arith;
              made = rw (← e) q;
              records = rw (← e) (ground arith);
            }
        | inr (x, r) ↦ absurd (ground arith)
      ]
      | inr (x, q) ↦ absurd (ground arith)
    ]

    pub prepare_update-IsPrepared :
        (next : Session) (events : List (Envelope Raw)) (commit : Envelope Raw)
        → prepare_update std src s d ≡ ok (next, events, commit)
        → IsPrepared next events commit
    unfolding prepare_update
    prepare_update-IsPrepared next events commit h =
        elim (Result-cases (current_session std s.id d)) [
          | inl (current, p) ↦ planned current next events commit p (rw p at h)
          | inr (x, p) ↦ absurd (ground arith)
        ]

    abbrev appended : List (Envelope Raw) → Envelope Raw → Result Error (Unit {0}) × Disk Raw
    appended events commit = append_all s.id (events ++ commit ∷ []) d

    pub update_session-ok :
        (next : Session) (d' : Disk Raw)
        → update_session std src s d ≡ (ok next, d')
        → (events : List (Envelope Raw)) × (commit : Envelope Raw) × (prepare_update std src s d
            ≡ ok (next, events, commit))
          × (append_all s.id (events ++ commit ∷ []) d ≡ (ok tt, d'))
    unfolding update_session
    update_session-ok next d' h = elim (Result-cases (prepare_update std src s d)) [
      | inl ((n, es, c), p) ↦ elim (Result-cases (appended es c).0) [
        | inl (u, q) ↦ let e : n ≡ next = ground arith in (es, c, rw (p, e), ground arith)
        | inr (x, q) ↦ absurd (ground arith)
      ]
      | inr (x, p) ↦ absurd (ground arith)
    ]

    pub update_session-err :
        (x : Error) (d' : Disk Raw)
        → update_session std src s d ≡ (err x, d')
        → (d' ≡ d)
          ⊎ ((next : Session) × (events : List (Envelope Raw)) × (commit : Envelope Raw)
              × (prepare_update std src s d ≡ ok (next, events, commit))
              × (append_all s.id (events ++ commit ∷ []) d ≡ (err x, d')))
    unfolding update_session
    update_session-err x d' h = elim (Result-cases (prepare_update std src s d)) [
      | inl ((n, es, c), p) ↦ elim (Result-cases (appended es c).0) [
        | inl (u, q) ↦ absurd (ground arith)
        | inr (y, q) ↦ inr (n, es, c, p, ground arith)
      ]
      | inr (y, p) ↦ inl (ground arith)
    ]
