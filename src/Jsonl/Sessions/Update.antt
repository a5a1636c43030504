-- ===== src/Jsonl/Sessions/Update.antt =====
-- `UpdateSession`: what is read after it, with and without faults, and the revisions.
use mathlib.Core.List.{append-nil, tail}
use rakit.Prelude.{
  ◌≡◌, refl, ap, sym, ◌∙◌, ◌⊎◌, false, List, [], ◌∷◌, ◌++◌, eq_refl, some, Result, ok, err, inl,
  inr, IsDistinct,
}
use rakit.Metadata.{Session}
use rakit.Jsonl.Journal.{Error, Envelope, Std, Source, Disk, lines_of, append_all}
use rakit.Jsonl.Replay.{replay_session}
use rakit.Jsonl.Replay.Fresh.{IsFresh}
use rakit.Jsonl.Changes.Equal.{ids}
use rakit.Jsonl.Changes.Applied.{AllReadable}
use rakit.Jsonl.Sessions.{get_session, transaction_of, prepare_update, update_session}
use rakit.Jsonl.Sessions.Files.{
  IsFreshIn, NoCut, as_lines, IsFresh-of_file, read_envelopes-append, Added,
}
use rakit.Jsonl.Sessions.Appends.{AppendAllEnd, append_all-AppendAllEnd}
use rakit.Jsonl.Sessions.Inversion.{
  IsPrepared, prepare_update-IsPrepared, update_session-ok, update_session-err, get_of_IsStored,
}
use rakit.Jsonl.Sessions.Prepared.{prepared-readable, prepared-uncommitted, prepared-committed}

-- A part of a list with a last element is the whole, or a part of what comes before that.
part_cases :
    {A : Type 0} (xs done rest : List A) (y : A)
    → xs ++ y ∷ [] ≡ done ++ rest
    → (rest ≡ []) ⊎ ((more : List A) × (xs ≡ done ++ more))
part_cases xs [] rest y h = inr (xs, refl)
part_cases [] (z ∷ done) rest y h = inl (no_rest done rest (ap tail h))
  where
    no_rest : {A : Type 0} (done rest : List A) → [] ≡ done ++ rest → rest ≡ []
    no_rest [] rest p = sym p
    no_rest (z ∷ done) rest p = absurd (cc)
part_cases (x ∷ xs) (z ∷ done) rest y h = elim (part_cases xs done rest y (ap tail h)) [
  | inl p ↦ inl p
  | inr (more, p) ↦ inr (more, cc)
]

AllReadable-append :
    {Raw : Type 0} (xs ys : List (Envelope Raw))
    → AllReadable xs
    → AllReadable ys
    → AllReadable (xs ++ ys)
AllReadable-append [] ys h k = k
AllReadable-append (x ∷ xs) ys h k = (h.0, AllReadable-append xs ys h.1 k)

AllReadable-left :
    {Raw : Type 0} (xs ys : List (Envelope Raw)) → AllReadable (xs ++ ys) → AllReadable xs
AllReadable-left [] ys h = tt
AllReadable-left (x ∷ xs) ys h = (h.0, AllReadable-left xs ys h.1)

module _ {Raw : Type 0} (std : Std Raw) (src : Source) (s : Session) (d : Disk Raw)
    (no_cut : NoCut d.faults) (fresh : IsFreshIn (transaction_of src) (lines_of s.id d))
    (distinct : IsDistinct (ids s.messages)) where
  module _ (next : Session) (events : List (Envelope Raw)) (commit : Envelope Raw)
      (prepared : IsPrepared std src s d next events commit) where
    records-IsFresh : IsFresh (transaction_of src) prepared.stored.records
    records-IsFresh =
        IsFresh-of_file (transaction_of src) (lines_of s.id d) prepared.stored.records
          prepared.stored.reads fresh

    end :
        AppendAllEnd s.id
          (events ++ commit ∷ [])
          d
          (append_all s.id (events ++ commit ∷ []) d).0
          (append_all s.id (events ++ commit ∷ []) d).1
    end = append_all-AppendAllEnd s.id (events ++ commit ∷ []) d no_cut

    -- The session that is read once a part of the records is written.
    get_after :
        (done : List (Envelope Raw)) (d' : Disk Raw) (x : Session)
        → Added s.id (as_lines done) d d'
        → AllReadable done
        → replay_session std s.id (prepared.stored.records ++ done) ≡ ok (x, false)
        → get_session std s.id d' ≡ ok (some x)
    get_after done d' x added readable replays = get_of_IsStored std s.id d' x (record {
      valid = prepared.stored.valid;
      records = prepared.stored.records ++ done;
      reads =
          rw (added s.id, eq_refl s.id)
            (read_envelopes-append (lines_of s.id d) prepared.stored.records done
              prepared.stored.reads readable);
      replays = replays;
    })

    all_readable : AllReadable (events ++ commit ∷ [])
    all_readable =
        let (es, c) = prepared-readable std src s d next events commit prepared records-IsFresh in
        AllReadable-append events (commit ∷ []) es (c, tt)

    get_written :
        (d' : Disk Raw)
        → Added s.id (as_lines (events ++ commit ∷ [])) d d'
        → get_session std s.id d' ≡ ok (some next)
    get_written d' added =
        get_after (events ++ commit ∷ []) d' next added all_readable
          (prepared-committed std src s d next events commit prepared records-IsFresh distinct)

    get_part :
        (done more : List (Envelope Raw)) (d' : Disk Raw)
        → Added s.id (as_lines done) d d'
        → events ≡ done ++ more
        → get_session std s.id d' ≡ get_session std s.id d
    get_part done more d' added parts =
        let (es, _) = prepared-readable std src s d next events commit prepared records-IsFresh in
        get_after done d' prepared.current added (AllReadable-left done more (rw (← parts) es)) (
          prepared-uncommitted std src s d next events commit prepared records-IsFresh done more
            parts)
        ∙ sym (get_of_IsStored std s.id d prepared.current prepared.stored)

    written_all :
        (d' : Disk Raw)
        → append_all s.id (events ++ commit ∷ []) d ≡ (ok tt, d')
        → get_session std s.id d' ≡ ok (some next)
    written_all d' h =
        let whole : end.rest ≡ [] =
          end.all_done (ap (λ (p : Result Error (Unit {0}) × Disk Raw). p.0) h) in
        let done : events ++ commit ∷ [] ≡ end.done = rw (whole, append-nil) at end.parts in
        let added = rw h at end.lines in get_written d' (rw done added)

    written_part :
        (x : Error) (d' : Disk Raw)
        → append_all s.id (events ++ commit ∷ []) d ≡ (err x, d')
        → (get_session std s.id d' ≡ get_session std s.id d)
          ⊎ (get_session std s.id d' ≡ ok (some next))
    written_part x d' h =
        let added = rw h at end.lines in
        elim (part_cases events end.done end.rest commit end.parts) [
          | inl whole ↦ inr (get_written d' (rw (rw (whole, append-nil) at end.parts) added))
          | inr (more, parts) ↦ inl (get_part end.done more d' added parts)
        ]

  -- After an update that reports success, reading the session gives exactly the snapshot that the
  -- update left with its caller, if the ids of the caller's messages are distinct, the transaction
  -- id is new to the transcript and no write is cut short.
  pub update_session-get :
      (next : Session) (d' : Disk Raw)
      → update_session std src s d ≡ (ok next, d')
      → get_session std s.id d' ≡ ok (some next)
  update_session-get next d' h =
      let (events, commit, p, q) = update_session-ok std src s d next d' h in
      written_all next events commit (prepare_update-IsPrepared std src s d next events commit p) d'
        q

  -- An update that reports an error has either changed nothing that a reader of the session can
  -- see, or has committed the whole of the next snapshot, if the ids of the caller's messages are
  -- distinct, the transaction id is new to the transcript and no write is cut short.
  pub update_session-atomic :
      (x : Error) (d' : Disk Raw)
      → update_session std src s d ≡ (err x, d')
      → (get_session std s.id d' ≡ get_session std s.id d)
        ⊎ ((next : Session) × (events : List (Envelope Raw)) × (commit : Envelope Raw)
            × (prepare_update std src s d ≡ ok (next, events, commit))
            × (get_session std s.id d' ≡ ok (some next)))
  update_session-atomic x d' h = elim (update_session-err std src s d x d' h) [
    | inl same ↦ inl (ap (get_session std s.id) same)
    | inr (next, events, commit, p, q) ↦
        elim (written_part next events commit
          (prepare_update-IsPrepared std src s d next events commit p) x d' q) [
            | inl same ↦ inl same
            | inr whole ↦ inr (next, events, commit, p, whole)
          ]
  ]
