-- ===== src/Tests/Sessions.antt =====
-- A session that is created, updated by two writers, and deleted.
use rakit.Prelude.{
  String, ℕ, ◌≡◌, refl, ◌⊎◌, none, some, List, [], ◌∷◌, arith, Result, ok, err, find, insert,
  delete,
}
use rakit.Metadata.{Fields, Message, Session}
use rakit.Jsonl.Journal.{
  cut, Error, Disk, Fault, Envelope, fine, lost, late, session_conflict, io_failed, session_path,
  is_session_id, new_id, new_envelope, append_envelope, append_all, next_of, lines_of, add_line,
  read_envelopes, check_envelope,
}
use rakit.Jsonl.Replay.{
  upsert_message, defer, apply_message_event, apply_message_events, replay_created, commit_pending,
  replay_updated, replay_message, replay_deleted, replay_step, replay_records, finish,
  replay_session,
}
use rakit.Jsonl.Changes.{
  message_eq, is_incremental, upsert_event, upsert_events, replacement_event,
  session_message_changes,
}
use rakit.Jsonl.Sessions.{
  attempts_from, create_at, create_loop, create_session, get_session, replayed, clone_session,
  next_updated_at, next_session, transaction_of, update_records, current_session, plan_update,
  prepare_update, update_session, append_tombstone, remove_under, rename_under, remove_transcript,
  delete_session,
}
use rakit.Jsonl.Sessions.Created.{create_session-get}
use rakit.Jsonl.Sessions.Deleted.{DeleteEnd, delete_session-DeleteEnd}
use rakit.Jsonl.Sessions.Update.{update_session-get, update_session-atomic}
use rakit.Jsonl.Sessions.Revisions.{update_session-once}
use rakit.Jsonl.Sessions.Isolated.{update_session-other}
use rakit.Jsonl.Sessions.Swapped.{limits, observe, update_session-swaps}
use rakit.Metadata.Contract.{swap}
use rakit.Tests.Store.{Raw, plain_std, at_time, empty_disk, user_message}

-- What the store's operations call, to run them.
unfoldable pub store_code : Unit {0}
unfolding find insert delete session_path is_session_id new_id new_envelope append_envelope
    append_all next_of lines_of add_line read_envelopes check_envelope upsert_message defer
    apply_message_event apply_message_events replay_created commit_pending replay_updated
    replay_message replay_deleted replay_step replay_records finish replay_session message_eq
    is_incremental upsert_event upsert_events replacement_event session_message_changes
    attempts_from create_at create_loop create_session get_session replayed clone_session
    next_updated_at next_session transaction_of update_records current_session plan_update
    prepare_update update_session append_tombstone remove_under rename_under remove_transcript
    delete_session
store_code = tt

abbrev pub made : Result Error Session × Disk Raw
made = create_session plain_std (at_time 5 "0") "agent" "user" (empty_disk [])

abbrev pub session_with : List Message → ℕ → ℕ → Session
session_with messages revision updated_at = record {
  id = "ses-7";
  agent_id = "agent";
  user_id = "user";
  parent_session_id = "";
  messages = messages;
  state = Fields.end;
  open_interrupts = [];
  revision = revision;
  created_at = 5;
  updated_at = updated_at;
}

made_runs : made ≡ (ok (session_with [] 1 5), made.1)
unfolding store_code
made_runs = refl

create_session-get_example :
    (find "ses-7" (empty_disk []).transcripts ≡ none)
    × (get_session plain_std "ses-7" made.1 ≡ ok (some (session_with [] 1 5)))
create_session-get_example =
    create_session-get plain_std (at_time 5 "0") "agent" "user" (empty_disk []) made.1
      (session_with [] 1 5) tt made_runs

-- The disk after the creation, with the faults of the writes to come.
abbrev pub stored : List Fault → Disk Raw
stored faults = record made.1 { faults = faults }

abbrev greeting : List Message
greeting = user_message "m1" "hello" ∷ user_message "m2" "bye" ∷ []

abbrev updated : List Fault → Result Error Session × Disk Raw
updated faults =
    update_session plain_std (at_time 5 "1") (session_with greeting 1 5) (stored faults)

updated_runs : updated [] ≡ (ok (session_with greeting 2 6), (updated []).1)
unfolding store_code
updated_runs = refl

update_session-get_example :
    get_session plain_std "ses-7" (updated []).1 ≡ ok (some (session_with greeting 2 6))
unfolding store_code
update_session-get_example =
    update_session-get plain_std (at_time 5 "1") (session_with greeting 1 5) (stored []) tt
      (refl, tt) (refl, (refl, tt)) (session_with greeting 2 6) (updated []).1 updated_runs

stored_reads : get_session plain_std "ses-7" (stored []) ≡ ok (some (session_with [] 1 5))
unfolding store_code
stored_reads = refl

update_session-swaps_example :
    ((swap limits 5 (session_with greeting 1 5) (observe plain_std (stored []))).0
      ≡ some (session_with greeting 2 6))
    × ((k : String)
        → observe plain_std (updated []).1 k
          ≡ (swap limits 5 (session_with greeting 1 5) (observe plain_std (stored []))).1 k)
unfolding store_code
update_session-swaps_example =
    update_session-swaps plain_std (at_time 5 "1") (session_with greeting 1 5) (stored []) tt
      (refl, tt) (refl, (refl, tt)) (session_with greeting 2 6) (updated []).1 updated_runs
      (session_with [] 1 5) stored_reads (omega arith)

-- The sync after the last of the three writes fails: the update is reported, and visible.
failing_runs :
    updated (fine ∷ fine ∷ late ∷ []) ≡ (err io_failed, (updated (fine ∷ fine ∷ late ∷ [])).1)
unfolding store_code
failing_runs = refl

update_session-atomic_example :
    let d = stored (fine ∷ fine ∷ late ∷ []) in
    let d' = (updated (fine ∷ fine ∷ late ∷ [])).1 in
    (get_session plain_std "ses-7" d' ≡ get_session plain_std "ses-7" d)
    ⊎ ((next : Session) × (events : List (Envelope Raw)) × (commit : Envelope Raw) × (prepare_update
            plain_std
            (at_time 5 "1")
            (session_with greeting 1 5)
            d
          ≡ ok (next, events, commit))
        × (get_session plain_std "ses-7" d' ≡ ok (some next)))
unfolding store_code
update_session-atomic_example =
    update_session-atomic plain_std (at_time 5 "1") (session_with greeting 1 5)
      (stored (fine ∷ fine ∷ late ∷ [])) tt (refl, tt) (refl, (refl, tt)) io_failed
      (updated (fine ∷ fine ∷ late ∷ [])).1 failing_runs

update_session-once_example :
    update_session plain_std (at_time 9 "2") (session_with [] 1 5) (updated []).1
    ≡ (err (session_conflict "ses-7" 2 1), (updated []).1)
unfolding store_code
update_session-once_example =
    update_session-once plain_std (at_time 5 "1") (at_time 9 "2") (session_with greeting 1 5)
      (session_with [] 1 5) (session_with greeting 2 6) (stored []) (updated []).1 tt (refl, tt)
      (refl, (refl, tt)) updated_runs refl refl

delete_session-DeleteEnd_example :
    DeleteEnd plain_std "ses-7"
      (stored (fine ∷ lost ∷ []))
      (delete_session plain_std (at_time 9 "2") "ses-7" (stored (fine ∷ lost ∷ []))).0
      (delete_session plain_std (at_time 9 "2") "ses-7" (stored (fine ∷ lost ∷ []))).1
unfolding store_code
delete_session-DeleteEnd_example =
    delete_session-DeleteEnd plain_std (at_time 9 "2") "ses-7" (stored (fine ∷ lost ∷ [])) tt refl

-- The records of an update that changes the first message and adds a second.
abbrev changes : Result Error (List (Envelope Raw))
changes =
    session_message_changes plain_std (at_time 9 "2") "txn-2" "ses-7" (user_message "m1" "hi" ∷ [])
      greeting

abbrev changed : Result Error (List (Envelope Raw)) → List (Envelope Raw)
changed (ok es) = es
changed (err x) = []

-- The update of another session, whose first write is cut short.
update_session-other_example :
    get_session plain_std "ses-8" (updated (cut ∷ [])).1
    ≡ get_session plain_std "ses-8" (stored (cut ∷ []))
update_session-other_example =
    update_session-other plain_std (at_time 5 "1") (session_with greeting 1 5) "ses-8"
      (stored (cut ∷ [])) refl
