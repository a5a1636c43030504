-- ===== src/Jsonl/Sessions/Deleted.antt =====
-- `DeleteSession`: what is read after it.
use mathlib.Core.List.{append-nil}
use rakit.Prelude.{
  String, ◌≡◌, refl, ◌∙◌, ◌⊎◌, true, List, Option, none, some, Option-cases, Result, ok, err,
  Result-cases, inl, inr, arith, eq_refl, find, find-delete,
}
use rakit.Metadata.{Session}
use rakit.Jsonl.Journal.{
  Error, io_failed, Envelope, Fault, fine, lost, late, cut, Std, Source, Disk, new_envelope,
  lines_of, next_of, is_session_id, session_path,
}
use rakit.Jsonl.Changes.Events.{IsEnvelope, new_envelope-IsEnvelope}
use rakit.Jsonl.Sessions.{
  get_session, remove_under, rename_under, remove_transcript, append_tombstone, delete_present,
  delete_session,
}
use rakit.Jsonl.Sessions.Files.{
  NoCut, AppendEnd, written, missing, reported, append_envelope-AppendEnd,
}
use rakit.Jsonl.Sessions.Inversion.{IsStored, IsStored_of_get}
use rakit.Jsonl.Sessions.Created.{get_session-lines, get_session-absent}
use rakit.Jsonl.Sessions.Tombstone.{get_session-tombstone}

module _ {Raw : Type 0} (std : Std Raw) where
  -- How the removal of a file can end.
  data RemoveEnd (id : String) (d : Disk Raw) (r : Result Error (Unit {0})) (d' : Disk Raw)
      : Type 0 where
    gone : find id d'.transcripts ≡ none → RemoveEnd id d r d'
    kept : r ≡ err io_failed → lines_of id d' ≡ lines_of id d → RemoveEnd id d r d'

  RemoveEnd-faults :
      (fs : List Fault) (id : String) (d : Disk Raw) (r : Result Error (Unit {0})) (d' : Disk Raw)
      → RemoveEnd id (record d { faults = fs }) r d'
      → RemoveEnd id d r d'
  unfolding lines_of
  RemoveEnd-faults fs id d r d' (gone h) = gone h
  RemoveEnd-faults fs id d r d' (kept p h) = kept p h

  transcripts-remove_under :
      (g : Fault) (d : Disk Raw) → (remove_under g d).1.transcripts ≡ d.transcripts
  unfolding remove_under
  transcripts-remove_under fine d = refl
  transcripts-remove_under late d = refl
  transcripts-remove_under lost d = refl
  transcripts-remove_under cut d = refl

  rename_under-RemoveEnd :
      (f : Fault) (id : String) (d : Disk Raw)
      → RemoveEnd id d (rename_under f id d).0 (rename_under f id d).1
  unfolding rename_under
  rename_under-RemoveEnd fine id d = gone (rw (transcripts-remove_under, find-delete, eq_refl id))
  rename_under-RemoveEnd late id d = gone (rw (find-delete, eq_refl id))
  rename_under-RemoveEnd lost id d = kept refl refl
  rename_under-RemoveEnd cut id d = kept refl refl

  remove_transcript-RemoveEnd :
      (id : String) (d : Disk Raw)
      → RemoveEnd id d (remove_transcript id d).0 (remove_transcript id d).1
  unfolding remove_transcript
  remove_transcript-RemoveEnd id d =
      let fs = (next_of d.faults).1 in
      RemoveEnd-faults fs id d _ _
        (rename_under-RemoveEnd (next_of d.faults).0 id (record d { faults = fs }))

  -- How a deletion can end: the session cannot be read any more, or the deletion failed and what is
  -- read is the same.
  pub record DeleteEnd (id : String) (d : Disk Raw) (r : Result Error (Unit {0})) (d' : Disk Raw)
      : Type 0 where
    pub success : r ≡ ok tt → get_session std id d' ≡ ok none
    pub outcome : (get_session std id d' ≡ ok none) ⊎ (get_session std id d' ≡ get_session std id d)

  unreadable :
      (id : String) (d d' : Disk Raw) (r : Result Error (Unit {0}))
      → get_session std id d' ≡ ok none
      → DeleteEnd id d r d'
  unreadable id d d' r h = record { success = λ _. h; outcome = inl h }

  untouched :
      (id : String) (d d' : Disk Raw) (x : Error)
      → get_session std id d' ≡ get_session std id d
      → DeleteEnd id d (err x) d'
  untouched id d d' x h = record { success = λ q. absurd (ground arith); outcome = inr h }

  -- The file is removed of a session that cannot be read already.
  removed :
      (id : String) (d d₁ d' : Disk Raw) (r : Result Error (Unit {0}))
      → is_session_id std id ≡ true
      → get_session std id d₁ ≡ ok none
      → RemoveEnd id d₁ r d'
      → DeleteEnd id d r d'
  removed id d d₁ d' r valid none_left (gone h) =
      unreadable id d d' r (get_session-absent std id d' valid h)
  removed id d d₁ d' r valid none_left (kept p h) =
      unreadable id d d' r (get_session-lines std id d₁ d' h ∙ none_left)

  abbrev after_tombstone :
      String → Result Error (Unit {0}) × Disk Raw → Result Error (Unit {0}) × Disk Raw
  after_tombstone id (r, d) = elim r [ err e ↦ (err e, d) | ok _ ↦ remove_transcript id d ]

  after_append :
      (id : String) (d d₁ : Disk Raw) (s : Session) (e : Envelope Raw) (r : Result Error (Unit {0}))
      → IsStored std id d s
      → IsEnvelope std.id_object id "session.deleted" id e
      → AppendEnd id e d r d₁
      → DeleteEnd id d (after_tombstone id (r, d₁)).0 (after_tombstone id (r, d₁)).1
  after_append id d d₁ s e r stored shape (written p added) = rw p (
      removed id d d₁ _ _ stored.valid (get_session-tombstone std id d d₁ s e stored shape added)
        (remove_transcript-RemoveEnd id d₁))
  after_append id d d₁ s e r stored shape (missing p added) = rw p (
      untouched id d d₁ io_failed
        (get_session-lines std id d d₁ (rw (added id, eq_refl id, append-nil))))
  after_append id d d₁ s e r stored shape (reported p added) =
      rw p (unreadable id d d₁ _ (get_session-tombstone std id d d₁ s e stored shape added))

  delete_visible :
      (src : Source) (id : String) (d : Disk Raw) (s : Session)
      → NoCut d.faults
      → get_session std id d ≡ ok (some s)
      → DeleteEnd id d
          (after_tombstone id (append_tombstone std src id (some s) d)).0
          (after_tombstone id (append_tombstone std src id (some s) d)).1
  unfolding append_tombstone
  delete_visible src id d s no_cut found =
      elim (Result-cases (new_envelope std.id_object src 0 "session.deleted" id "" id)) [
        | inl (e, p) ↦
            let shape =
              new_envelope-IsEnvelope std.id_object src 0 "session.deleted" id "" e.transaction_id
                id e refl p in
            let (end, _) = append_envelope-AppendEnd id e d no_cut in
            rw (p, append_tombstone)
              (after_append id d _ s e _ (IsStored_of_get std id d s found) shape end)
        | inr (x, p) ↦ rw (p, append_tombstone) (untouched id d d x refl)
      ]

  delete_read :
      (src : Source) (id : String) (d : Disk Raw) (o : Option Session)
      → NoCut d.faults
      → is_session_id std id ≡ true
      → get_session std id d ≡ ok o
      → DeleteEnd id d
          (after_tombstone id (append_tombstone std src id o d)).0
          (after_tombstone id (append_tombstone std src id o d)).1
  delete_read src id d none no_cut valid p =
      unfold append_tombstone in removed id d d _ _ valid p (remove_transcript-RemoveEnd id d)
  delete_read src id d (some s) no_cut valid p = delete_visible src id d s no_cut p

  delete_present-DeleteEnd :
      (src : Source) (id : String) (d : Disk Raw)
      → NoCut d.faults
      → is_session_id std id ≡ true
      → DeleteEnd id d (delete_present std src id d).0 (delete_present std src id d).1
  delete_present-DeleteEnd src id d no_cut valid = elim (Result-cases (get_session std id d)) [
    | inl (o, p) ↦ rw (p, delete_present) (delete_read src id d o no_cut valid p)
    | inr (x, p) ↦ rw (p, delete_present) (untouched id d d x refl)
  ]

  -- Deletion of a session, whichever of its writes fail short of being cut, either leaves the
  -- session unreadable or leaves what is read as it was, and where it reports success the session
  -- is unreadable. The id must be one that the store accepts.
  pub delete_session-DeleteEnd :
      (src : Source) (id : String) (d : Disk Raw)
      → NoCut d.faults
      → is_session_id std id ≡ true
      → DeleteEnd id d (delete_session std src id d).0 (delete_session std src id d).1
  unfolding session_path delete_session
  delete_session-DeleteEnd src id d no_cut valid = elim (Option-cases (find id d.transcripts)) [
    | inl absent ↦
        rw (valid, delete_session, absent)
          (unreadable id d d _ (get_session-absent std id d valid absent))
    | inr (ls, present) ↦
        rw (valid, delete_session, present) (delete_present-DeleteEnd src id d no_cut valid)
  ]
