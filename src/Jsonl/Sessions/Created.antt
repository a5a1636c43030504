-- ===== src/Jsonl/Sessions/Created.antt =====
-- `CreateSession`, and reading a session that another operation leaves alone.
use rakit.Prelude.{
  String, ◌≡◌, refl, ap, sym, true, false, ◌==◌, List, [], ◌∷◌, none, some, Option-cases, ok,
  Result-cases, inl, inr, Bool-cases, arith, eq_refl, find,
}
use rakit.Metadata.{Session}
use rakit.Jsonl.Journal.{
  Envelope, Std, Source, Disk, new_id, new_envelope, read_envelopes, lines_of, is_session_id,
  session_path, append_envelope,
}
use rakit.Jsonl.Replay.{
  replay_created, replay_step, replay_records, finish, replay_session, meta_from_session,
}
use rakit.Jsonl.Changes.Events.{IsEnvelope, new_envelope-IsEnvelope}
use rakit.Jsonl.Sessions.{
  replayed, get_session, created_session, create_at, create_loop, attempts_from, create_session,
}
use rakit.Jsonl.Sessions.Files.{
  NoCut, Added-written, append_envelope-AppendEnd, read_envelopes-append,
}
use rakit.Jsonl.Sessions.Inversion.{get_of_IsStored}
use rakit.Jsonl.Sessions.Prepared.{is_session_id-named}

module _ {Raw : Type 0} (std : Std Raw) where
  replay_session-created :
      (id : String) (s : Session) (e : Envelope Raw)
      → s.id ≡ id
      → s.messages ≡ []
      → (id == "") ≡ false
      → IsEnvelope std.meta id "session.created" (meta_from_session s) e
      → replay_session std id (e ∷ []) ≡ ok (s, false)
  unfolding replay_session replay_records replay_step replay_created finish
  replay_session-created id s e same empty named shape =
      rw (shape.session, shape.kind, shape.payload, same, eq_refl id, named, empty)
        (rw (named, eq_refl id))

  lines_of-absent : (id : String) (d : Disk Raw) → find id d.transcripts ≡ none → lines_of id d ≡ []
  unfolding lines_of
  lines_of-absent id d h = rw (h, lines_of)

  create_at-get :
      (src : Source) (id agent_id user_id : String) (d d' : Disk Raw) (s : Session)
      → NoCut d.faults
      → is_session_id std id ≡ true
      → find id d.transcripts ≡ none
      → create_at std src id agent_id user_id d ≡ (ok s, d')
      → get_session std s.id d' ≡ ok (some s)
  unfolding create_at
  create_at-get src id agent_id user_id d d' s no_cut valid absent h =
      let c = created_session src id agent_id user_id in
      elim (Result-cases
        (new_envelope std.meta src 0 "session.created" id "" (meta_from_session c))) [
          | inl (e, p) ↦ elim (Result-cases (append_envelope id e d).0) [
            | inl (u, q) ↦
                let (end, _) = append_envelope-AppendEnd id e d no_cut in
                let same : c ≡ s = ground arith in
                let disk : (append_envelope id e d).1 ≡ d' = ground arith in
                let added = rw disk at (Added-written id e d _ u (rw q at end)) in
                let shape =
                  new_envelope-IsEnvelope std.meta src 0 "session.created" id "" e.transaction_id
                    (meta_from_session c) e refl p in
                rw (← same) (
                  get_of_IsStored std id d' c (record {
                    valid = valid;
                    records = e ∷ [];
                    reads =
                        rw (added id, eq_refl id, lines_of-absent id d absent)
                          (read_envelopes-append [] [] (e ∷ []) (unfold read_envelopes in refl)
                            (shape.readable, tt));
                    replays =
                        replay_session-created id c e refl refl (is_session_id-named std id valid)
                          shape;
                  }))
            | inr (x, q) ↦ absurd (ground arith)
          ]
          | inr (x, p) ↦ absurd (ground arith)
        ]

  create_at-id :
      (src : Source) (id agent_id user_id : String) (d d' : Disk Raw) (s : Session)
      → create_at std src id agent_id user_id d ≡ (ok s, d')
      → s.id ≡ id
  unfolding create_at
  create_at-id src id agent_id user_id d d' s h =
      let c = created_session src id agent_id user_id in
      elim (Result-cases
        (new_envelope std.meta src 0 "session.created" id "" (meta_from_session c))) [
          | inl (e, p) ↦ elim (Result-cases (append_envelope id e d).0) [
            | inl (u, q) ↦ let same : c ≡ s = ground arith in ap (λ (x : Session). x.id) (sym same)
            | inr (x, q) ↦ absurd (ground arith)
          ]
          | inr (x, p) ↦ absurd (ground arith)
        ]

  create_loop-get :
      (attempts : List String) (src : Source) (agent_id user_id : String) (d d' : Disk Raw)
      (s : Session)
      → NoCut d.faults
      → create_loop std attempts src agent_id user_id d ≡ (ok s, d')
      → (find s.id d.transcripts ≡ none) × (get_session std s.id d' ≡ ok (some s))
  unfolding create_loop session_path
  create_loop-get [] src agent_id user_id d d' s no_cut h = absurd (ground arith)
  create_loop-get (random ∷ attempts) src agent_id user_id d d' s no_cut h =
      let id = new_id "ses-" random in
      elim (Bool-cases (is_session_id std id)) [
        | inl valid ↦ elim (Option-cases (find id d.transcripts)) [
          | inl absent ↦
              let made : create_at std src id agent_id user_id d ≡ (ok s, d') =
                rw (valid, absent, create_loop) at h in
              (
                rw (create_at-id src id agent_id user_id d d' s made) absent,
                create_at-get src id agent_id user_id d d' s no_cut valid absent made,
              )
          | inr (ls, taken) ↦
              create_loop-get attempts src agent_id user_id d d' s no_cut
                (rw (valid, taken, create_loop) at h)
        ]
        | inr invalid ↦ absurd (ground arith)
      ]

  -- A session that `CreateSession` returns had no transcript before, and is read back as it was
  -- returned, if no write is cut short.
  pub create_session-get :
      (src : Source) (agent_id user_id : String) (d d' : Disk Raw) (s : Session)
      → NoCut d.faults
      → create_session std src agent_id user_id d ≡ (ok s, d')
      → (find s.id d.transcripts ≡ none) × (get_session std s.id d' ≡ ok (some s))
  unfolding create_session
  create_session-get src agent_id user_id d d' s no_cut h =
      create_loop-get (attempts_from src 10 0) src agent_id user_id d d' s no_cut h

  pub get_session-lines :
      (id : String) (d d' : Disk Raw)
      → lines_of id d' ≡ lines_of id d
      → get_session std id d' ≡ get_session std id d
  unfolding get_session session_path
  get_session-lines id d d' h = elim (Bool-cases (is_session_id std id)) [
    | inl valid ↦ rw (valid, h)
    | inr invalid ↦ rw invalid
  ]

  pub get_session-absent :
      (id : String) (d : Disk Raw)
      → is_session_id std id ≡ true
      → find id d.transcripts ≡ none
      → get_session std id d ≡ ok none
  unfolding get_session session_path replayed read_envelopes
  get_session-absent id d valid absent = rw (valid, lines_of-absent id d absent)
