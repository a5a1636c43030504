-- ===== src/Sqlite/Sessions/Atomic.antt =====
-- Updates whose statements may fail.
use rakit.Prelude.{ℕ, String, ◌≡◌, sym, ◌⊎◌, inl, inr, Result, ok, err, Option, some, List, [], ◌∷◌}
use rakit.Metadata.{Message, Session}
use rakit.Metadata.Contract.{Sessions, swap}
use rakit.Sqlite.Database.{
  ℤ, not_found, session_conflict, marshal_failed, fail, Error, statement_failed, MessageRow, Engine,
  Columns, Database,
}
use rakit.Sqlite.Database.Steady.{
  Steady, Steady-lift, Steady-pure, Steady-statement, Steady-bind, Steady-option, Steady-if,
}
use rakit.Sqlite.Database.Atomic.{
  IsAtomic, IsAtomic-transaction, IsAtomic-lift-bind, IsAtomic-bind-pure,
}
use rakit.Sqlite.Sessions.{
  load_session_timestamps, classify_session_update_miss, update_session_row,
  delete_removed_messages, upsert_session_message, upsert_all, reconcile_session_messages,
  update_session_transaction, update_session,
}
use rakit.Sqlite.Sessions.Observed.{IsValid, Orders, observe}
use rakit.Sqlite.Sessions.Specified.{limits}
use rakit.Sqlite.Sessions.Updated.{Storable}
use rakit.Sqlite.Sessions.Swapped.{update_session-Swaps}

ruleset steady_rules =
    (Steady-lift, Steady-pure, Steady-statement, Steady-bind, Steady-option, Steady-if)

module _ {Raw : Type 0} where
  Steady-load_session_timestamps : (id : String) → Steady {Raw = Raw} (load_session_timestamps id)
  unfolding load_session_timestamps
  Steady-load_session_timestamps id = Steady-bind _ _ (Steady-statement _) (λ found.
      Steady-option found _ (fail (not_found id)) (search steady_rules)
        (λ row. Steady-pure (row.created_at, row.updated_at)))

  Steady-classify_session_update_miss :
      (id : String) → Steady {Raw = Raw} (classify_session_update_miss id)
  unfolding classify_session_update_miss
  Steady-classify_session_update_miss id = Steady-bind _ _ (Steady-statement _) (λ found.
      Steady-option found _ (fail (not_found id)) (search steady_rules)
        (λ row. Steady-lift (err (session_conflict id))))

  Steady-update_session_row :
      (s : Session) (encoded : Raw × Raw) (expected next : ℤ) (u : ℕ)
      → Steady (update_session_row s encoded expected next u)
  unfolding update_session_row
  Steady-update_session_row s encoded expected next u =
      search (steady_rules, Steady-classify_session_update_miss)

  Steady-delete_removed_messages :
      (id : String) (ms : List Message) → Steady {Raw = Raw} (delete_removed_messages id ms)
  unfolding delete_removed_messages
  Steady-delete_removed_messages id [] = search steady_rules
  Steady-delete_removed_messages id (m ∷ ms) = search steady_rules

module _ {Raw : Type 0} (columns : Columns Raw) where
  Steady-upsert_session_message :
      (id : String) (m : Message) → Steady (upsert_session_message columns id m)
  unfolding upsert_session_message
  Steady-upsert_session_message id m =
      Steady-option (columns.tool_calls.encode m.tool_calls) _ (fail marshal_failed)
        (search steady_rules) (λ raw. Steady-statement _)

  Steady-upsert_all : (id : String) (ms : List Message) → Steady (upsert_all columns id ms)
  unfolding upsert_all
  Steady-upsert_all id [] = search steady_rules
  Steady-upsert_all id (m ∷ ms) =
      Steady-bind (upsert_session_message columns id m) (λ _. upsert_all columns id ms)
        (Steady-upsert_session_message id m) (λ _. Steady-upsert_all id ms)

  Steady-update_session_transaction :
      (now : ℕ) (s : Session) (encoded : Raw × Raw)
      → Steady (update_session_transaction columns now s encoded)
  unfolding update_session_transaction reconcile_session_messages
  Steady-update_session_transaction now s encoded =
      search
        (
          steady_rules, Steady-load_session_timestamps, Steady-update_session_row,
          Steady-delete_removed_messages, Steady-upsert_all,
        )
        depth 9

  pub update_session-IsAtomic : (now : ℕ) (s : Session) → IsAtomic (update_session columns now s)
  unfolding update_session
  update_session-IsAtomic now s = search (
    IsAtomic-lift-bind, IsAtomic-bind-pure, IsAtomic-transaction, Steady-update_session_transaction,
  )

module _ {Raw : Type 0} (columns : Columns Raw) (engine : Engine Raw) where
  -- What an update of `d` leaves against the specification's answer `m`.
  abbrev pub SwapsOrFails :
      Database Raw → Result Error Session × Database Raw → Option Session × Sessions → Type 0
  SwapsOrFails d r m =
      ((n : Session) × (m.0 ≡ some n)
        × ((k : String) → observe columns engine r.1.tables k ≡ m.1 k)
        × ((r.0 ≡ ok n) ⊎ (r.0 ≡ err statement_failed)))
      ⊎ ((x : Error) × (r.0 ≡ err x) × (r.1.tables ≡ d.tables))

  -- Whichever statements fail or report an error late, the update of the SQLite store either
  -- leaves what the specification's compare-and-swap stores, and returns its snapshot or a
  -- statement's error, or it returns an error and leaves the tables as they were. The conditions
  -- are those of the update without failures.
  pub update_session-SwapsOrFails :
      (now : ℕ) (s : Session) (d : Database Raw) (encoded : Raw × Raw) (new : List (MessageRow Raw))
      → Orders engine
      → IsValid d.tables
      → Storable columns s encoded new d.tables
      → SwapsOrFails d
          (update_session columns now s d)
          (swap limits now s (observe columns engine d.tables))
  update_session-SwapsOrFails now s d encoded new orders valid storable =
      elim ((update_session-IsAtomic columns now s).at d) [
        | inr (x, e, same) ↦ inr (x, e, same)
        | inl (n, run, reported) ↦
            let swaps = rw run at (
              update_session-Swaps columns engine now s d.tables encoded new orders valid
                storable) in
            inl (n, sym swaps.0, swaps.1, reported)
      ]
