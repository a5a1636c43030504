-- ===== src/Sqlite/Sessions/Swapped.antt =====
-- UpdateSession is the compare-and-swap that the store interface promises.
use rakit.Prelude.{
  ℕ, ◌+◌, String, ◌≡◌, refl, ap, ◌∙◌, true, false, Option, none, some, List, leb, nat_eq, arith,
  Result, Result-cases, ok, err, Bool-cases, Option-cases, inl, inr,
}
use rakit.Metadata.{Session}
use rakit.Metadata.Contract.{Sessions, put, swap}
use rakit.Jsonl.Sessions.{max_int64}
use rakit.Sqlite.Database.{
  fault_free, Error, ℤ, pos, negsuc, SessionRow, MessageRow, Tables, Columns, Engine, Database,
  ◌>>=◌, lift, not_found, session_conflict, revision_overflow,
}
use rakit.Sqlite.Rows.{find_row}
use rakit.Sqlite.Sessions.{
  int_eq, session_key, session_of, validate_session_update, next_sqlite_updated_at, update_session,
  apply_committed_session,
}
use rakit.Sqlite.Sessions.Specified.{
  limits, swap-absent, swap-overflow, swap-stale, swap-late, swap-follows,
}
use rakit.Sqlite.Sessions.Updated.{Storable, observe-updated}
use rakit.Sqlite.Sessions.Runs.{
  updated, transaction_absent, transaction_late, transaction_hit, transaction_miss,
  update_session-refused, update_session-done,
}
use rakit.Sqlite.Sessions.Observed.{
  IsValid, Orders, value, matched, observe, observe_lem, read_messages,
}

module _ {Raw : Type 0} (columns : Columns Raw) (engine : Engine Raw) where
  -- The result and the tables of an operation are the answer and the store of the specification.
  abbrev pub Implements : Result Error Session × Database Raw → Option Session × Sessions → Type 0
  Implements r m = (value r.0 ≡ m.0) × ((k : String) → observe columns engine r.1.tables k ≡ m.1 k)

  module _ (now : ℕ) (s : Session) (t : Tables Raw) where
    abbrev Swaps : Type 0
    Swaps =
        Implements (update_session columns now s (fault_free t))
          (swap limits now s (observe columns engine t))

    refused :
        (x : Error)
        → update_session columns now s (fault_free t) ≡ (err x, fault_free t)
        → swap limits now s (observe columns engine t) ≡ (none, observe columns engine t)
        → Swaps
    refused x e f = rw (e, f) (refl, λ k. refl)

    overflow :
        leb max_int64 s.revision ≡ true
        → update_session columns now s (fault_free t) ≡ (err (revision_overflow s.id), fault_free t)
    unfolding update_session validate_session_update ◌>>=◌ lift
    overflow e = ground arith

    module _ {encoded : Raw × Raw} {new : List (MessageRow Raw)} (orders : Orders engine)
        (valid : IsValid t) (storable : Storable columns s encoded new t)
        (fits : validate_session_update s ≡ ok tt) where
      absent : find_row session_key s.id t.sessions ≡ none → Swaps
      absent e =
          refused (not_found s.id)
            (update_session-refused columns now s encoded t fits storable.encodes (not_found s.id) t
              (transaction_absent columns now s encoded t e))
            (swap-absent now s (observe columns engine t)
              (observe_lem columns engine t s.id ∙ rw e))

      module _ (row : SessionRow Raw)
          (found : find_row session_key s.id t.sessions ≡ some row) where
        -- What a read finds at the row's revision.
        abbrev stored : ℕ → Session
        stored r = session_of columns row r (read_messages columns engine s.id t)

        observed_stored :
            (r : ℕ) → row.revision ≡ pos r → observe columns engine t s.id ≡ some (stored r)
        observed_stored r e = observe_lem columns engine t s.id ∙ rw (found, e)

        -- The row has another revision, or the update time has no successor.
        late :
            (x : Error)
            → next_sqlite_updated_at now s.id row.updated_at ≡ err x
            → swap limits now s (observe columns engine t) ≡ (none, observe columns engine t)
            → Swaps
        late x e f =
            refused x
              (update_session-refused columns now s encoded t fits storable.encodes x t
                (transaction_late columns now s encoded t row found x e))
              f

        missed :
            int_eq row.revision (pos s.revision) ≡ false
            → swap limits now s (observe columns engine t) ≡ (none, observe columns engine t)
            → Swaps
        missed e f = elim (Result-cases (next_sqlite_updated_at now s.id row.updated_at)) [
          | inr (x, p) ↦ late x p f
          | inl (u, p) ↦
              refused (session_conflict s.id)
                (update_session-refused columns now s encoded t fits storable.encodes
                  (session_conflict s.id) t
                  (transaction_miss columns now s encoded t row found u p
                    (matched s.id (pos s.revision) row t.sessions valid.sessions found ∙ e)))
                f
        ]

        hit :
            row.revision ≡ pos s.revision
            → (u : ℕ) → next_sqlite_updated_at now s.id row.updated_at ≡ ok u
            → Swaps
        unfolding apply_committed_session
        hit e u p =
            rw
              (
                update_session-done columns now s encoded t fits storable.encodes
                    (record {
                      revision = s.revision + 1;
                      created_at = row.created_at;
                      updated_at = u;
                    })
                    (updated s encoded u new t)
                    (transaction_hit columns now s encoded t row found u p new storable.written (
                      matched s.id (pos s.revision) row t.sessions valid.sessions found
                      ∙ ground arith)),
                swapped,
              )
              (refl, observe-updated columns engine orders valid storable row found e u)
          where
            swapped : swap limits now s (observe columns engine t) ≡ (
              some (record s {
                revision = s.revision + 1;
                created_at = row.created_at;
                updated_at = u;
              }),
              put
                  (record s {
                    revision = s.revision + 1;
                    created_at = row.created_at;
                    updated_at = u;
                  })
                  (observe columns engine t),
            )
            swapped =
                swap-follows now s (observe columns engine t) (stored s.revision)
                  (observed_stored s.revision e) s.id u p fits refl

        present : Swaps
        present = go row.revision refl
          where
            go : (r : ℤ) → row.revision ≡ r → Swaps
            go (negsuc n) e = missed (rw e) (
                swap-absent now s (observe columns engine t)
                  (observe_lem columns engine t s.id ∙ rw (found, e)))
            go (pos r) e = elim (Bool-cases (nat_eq r s.revision)) [
              | inr stale ↦ missed (rw e stale) (
                  swap-stale now s (observe columns engine t) (stored r) (observed_stored r e)
                    stale)
              | inl same ↦ elim (Result-cases (next_sqlite_updated_at now s.id row.updated_at)) [
                | inl (u, p) ↦ hit (e ∙ ap pos (ground arith)) u p
                | inr (x, p) ↦ late x p (
                    swap-late now s (observe columns engine t) (stored r) (observed_stored r e) s.id
                      x p)
              ]
            ]

  -- UpdateSession of the SQLite store, with no failing statement, answers and stores what the
  -- specification's compare-and-swap does, on success and on each refusal, for every session that
  -- a reader finds. The primary keys are unique, the engine orders rows as asked, and the snapshot
  -- can be stored: its JSON is encoded, its messages have distinct ids and rising times, and no
  -- other session has a message of these ids.
  pub update_session-Swaps :
      (now : ℕ) (s : Session) (t : Tables Raw) (encoded : Raw × Raw) (new : List (MessageRow Raw))
      → Orders engine
      → IsValid t
      → Storable columns s encoded new t
      → Implements
          (update_session columns now s (fault_free t))
          (swap limits now s (observe columns engine t))
  unfolding validate_session_update
  update_session-Swaps now s t encoded new orders valid storable =
      elim (Bool-cases (leb max_int64 s.revision)) [
        | inl over ↦
            refused now s t (revision_overflow s.id) (overflow now s t over)
              (swap-overflow now s (observe columns engine t) over)
        | inr fits ↦ elim (Option-cases (find_row session_key s.id t.sessions)) [
          | inl none_found ↦ absent now s t orders valid storable (rw fits) none_found
          | inr (row, found) ↦ present now s t orders valid storable (rw fits) row found
        ]
      ]
