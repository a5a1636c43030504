-- ===== src/Sqlite/Sessions/Runs.antt =====
-- The updates of a session whose statements all succeed, as functions of the tables.
use rakit.Prelude.{
  ℕ, ◌+◌, String, ◌≡◌, refl, true, false, none, some, List, [], ◌∷◌, arith, length, ltb, ok, err,
}
use rakit.Metadata.{Message, Session}
use rakit.Sqlite.Database.{
  fault_free, Error, not_found, session_conflict, pos, SessionRow, MessageRow, Tables, Columns,
  ◌>>=◌, pure, lift, statement, transaction, close_transaction, next_of,
}
use rakit.Sqlite.Rows.{find_row, upsert_row, rows_where, update_where}
use rakit.Sqlite.Rows.Found.{update_where-unmatched}
use rakit.Sqlite.Sessions.Written.{WrittenAs}
use rakit.Sqlite.Sessions.{
  Committed, session_key, message_key, excluded, matches, set_columns, load_session_timestamps,
  classify_session_update_miss, update_session_row, delete_removed_messages, upsert_session_message,
  upsert_all, reconcile_session_messages, update_session_transaction, next_sqlite_updated_at,
  validate_session_update, encode_session_metadata, update_session, apply_committed_session,
}
use rakit.Sqlite.Sessions.Reconciled.{remains, upserts, reconciled}

abbrev pub with_messages : {Raw : Type 0} → List (MessageRow Raw) → Tables Raw → Tables Raw
with_messages rows t = record t { messages = rows }

module _ {Raw : Type 0} where
  -- The tables that an update commits.
  unfoldable pub updated : Session → Raw × Raw → ℕ → List (MessageRow Raw) → Tables Raw → Tables Raw
  updated s encoded updated_at new t = record t {
    sessions =
        update_where (matches s.id (pos s.revision))
          (set_columns s encoded (pos (s.revision + 1)) updated_at) t.sessions;
    messages = reconciled s.id s.messages new t.messages;
  }

module _ {Raw : Type 0} (columns : Columns Raw) where
  -- The loop over the messages writes their rows one after the other.
  upsert_all-run :
      (id : String) (ms : List Message) (new : List (MessageRow Raw)) (t : Tables Raw)
      → WrittenAs columns id ms new
      → upsert_all columns id ms (fault_free t)
        ≡ (ok tt, fault_free (with_messages (upserts new t.messages) t))
  unfolding upsert_all upsert_session_message upserts ◌>>=◌ pure statement next_of
  upsert_all-run id [] [] t w = refl
  upsert_all-run id [] (r ∷ new) t w = absurd w
  upsert_all-run id (m ∷ ms) [] t w = absurd w
  upsert_all-run id (m ∷ ms) (r ∷ new) t w = ground (
    arith,
    upsert_all-run id ms new (with_messages (upsert_row message_key excluded r t.messages) t) w.2,
  )

  reconcile-run :
      (id : String) (ms : List Message) (new : List (MessageRow Raw)) (t : Tables Raw)
      → WrittenAs columns id ms new
      → reconcile_session_messages columns id ms (fault_free t)
        ≡ (ok tt, fault_free (with_messages (reconciled id ms new t.messages) t))
  unfolding reconcile_session_messages delete_removed_messages reconciled ◌>>=◌ statement next_of
  reconcile-run id [] new t w =
      upsert_all-run id [] new (with_messages (rows_where (remains id []) t.messages) t) w
  reconcile-run id (m ∷ ms) new t w =
      upsert_all-run id (m ∷ ms) new (with_messages (rows_where (remains id (m ∷ ms)) t.messages) t)
        w

  module _ (now : ℕ) (s : Session) (encoded : Raw × Raw) (t : Tables Raw) where
    pub transaction_absent :
        find_row session_key s.id t.sessions ≡ none
        → update_session_transaction columns now s encoded (fault_free t)
          ≡ (err (not_found s.id), fault_free t)
    unfolding update_session_transaction load_session_timestamps ◌>>=◌ statement next_of lift
    transaction_absent e = rw e

    module _ (row : SessionRow Raw) (found : find_row session_key s.id t.sessions ≡ some row) where
      pub transaction_late :
          (x : Error)
          → next_sqlite_updated_at now s.id row.updated_at ≡ err x
          → update_session_transaction columns now s encoded (fault_free t) ≡ (err x, fault_free t)
      unfolding update_session_transaction load_session_timestamps ◌>>=◌ statement next_of lift pure
      transaction_late x e = ground arith

      module _ (u : ℕ) (next : next_sqlite_updated_at now s.id row.updated_at ≡ ok u) where
        pub transaction_hit :
            (new : List (MessageRow Raw))
            → WrittenAs columns s.id s.messages new
            → ltb 0 (length (rows_where (matches s.id (pos s.revision)) t.sessions)) ≡ true
            → update_session_transaction columns now s encoded (fault_free t) ≡ (
              ok (record {
                revision = s.revision + 1;
                created_at = row.created_at;
                updated_at = u;
              }),
              fault_free (updated s encoded u new t),
            )
        unfolding update_session_transaction load_session_timestamps update_session_row updated
            ◌>>=◌ statement next_of lift pure
        transaction_hit new w hit = ground (
          arith,
          reconcile-run s.id s.messages new
              (record t {
                sessions =
                    update_where (matches s.id (pos s.revision))
                      (set_columns s encoded (pos (s.revision + 1)) u) t.sessions;
              })
              w,
        )

        pub transaction_miss :
            ltb 0 (length (rows_where (matches s.id (pos s.revision)) t.sessions)) ≡ false
            → update_session_transaction columns now s encoded (fault_free t)
              ≡ (err (session_conflict s.id), fault_free t)
        unfolding update_session_transaction load_session_timestamps update_session_row
            classify_session_update_miss ◌>>=◌ statement next_of lift pure
        transaction_miss miss = ground (
          arith,
          update_where-unmatched (matches s.id (pos s.revision))
              (set_columns s encoded (pos (s.revision + 1)) u) t.sessions miss,
        )

    module _ (valid : validate_session_update s ≡ ok tt)
        (encodes : encode_session_metadata columns s ≡ ok encoded) where
      pub update_session-refused :
          (x : Error) (t' : Tables Raw)
          → update_session_transaction columns now s encoded (fault_free t) ≡ (err x, fault_free t')
          → update_session columns now s (fault_free t) ≡ (err x, fault_free t)
      unfolding update_session transaction close_transaction ◌>>=◌ statement next_of lift pure
      update_session-refused x t' e = ground arith

      pub update_session-done :
          (c : Committed) (t' : Tables Raw)
          → update_session_transaction columns now s encoded (fault_free t) ≡ (ok c, fault_free t')
          → update_session columns now s (fault_free t)
            ≡ (ok (apply_committed_session s c), fault_free t')
      unfolding update_session transaction close_transaction ◌>>=◌ statement next_of lift pure
      update_session-done c t' e = ground arith
