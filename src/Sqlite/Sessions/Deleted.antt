-- ===== src/Sqlite/Sessions/Deleted.antt =====
-- What is read behind a DeleteSession.
use rakit.Prelude.{
  String, ◌≡◌, refl, Bool, true, false, not, ◌&&◌, none, List, [], ◌∷◌, ◌==◌, eq_iff, if◌then◌else◌,
  Result, ok, err, Bool-cases, ◌⊎◌, inl, inr, arith,
}
use rakit.Sqlite.Database.{
  Error, statement_failed, SessionRow, MessageRow, Tables, Columns, Engine, Outcome, Database,
  next_of, statement, apply_under,
}
use rakit.Sqlite.Rows.{find_row, rows_where}
use rakit.Sqlite.Sessions.{session_key, is_some, of_session, delete_session}
use rakit.Sqlite.Sessions.Observed.{observe, observe_lem}

module _ {Raw : Type 0} where
  find_row-deleted :
      (id k : String) (rows : List (SessionRow Raw))
      → find_row session_key k (rows_where (λ r. not (r.id == id)) rows)
        ≡ (if id == k then none else find_row session_key k rows)
  unfolding find_row rows_where
  find_row-deleted id k [] = ground arith
  find_row-deleted id k (r ∷ rows) =
      ground (arith, find_row-deleted id k rows, eq_iff r.id id, eq_iff r.id k, eq_iff id k)

  of_session-deleted :
      (id k : String) (rows : List (MessageRow Raw))
      → (id == k) ≡ false
      → of_session k (rows_where (λ r. not (r.session_id == id)) rows) ≡ of_session k rows
  unfolding rows_where
  of_session-deleted id k [] n = refl
  of_session-deleted id k (r ∷ rows) n = ground (
    arith,
    of_session-deleted id k rows n,
    eq_iff r.session_id id,
    eq_iff r.session_id k,
    eq_iff id k,
  )

module _ {Raw : Type 0} (columns : Columns Raw) (engine : Engine Raw) where
  abbrev deleted : String → Tables Raw → Tables Raw
  deleted id t = record t {
    sessions = rows_where (λ r. not (r.id == id)) t.sessions;
    messages =
        if engine.foreign_keys && is_some (find_row session_key id t.sessions)
        then rows_where (λ r. not (r.session_id == id)) t.messages
        else t.messages;
  }

  of_session-kept :
      (id k : String) (t : Tables Raw) (b : Bool)
      → (id == k) ≡ false
      → of_session k
          (if b then rows_where (λ r. not (r.session_id == id)) t.messages else t.messages)
        ≡ of_session k t.messages
  of_session-kept id k t true n = of_session-deleted id k t.messages n
  of_session-kept id k t false n = refl

  -- The session is read no more, and every other session as before.
  abbrev pub Removes : String → Tables Raw → Tables Raw → Type 0
  Removes id t t' =
      (k : String)
      → observe columns engine t' k ≡ (if id == k then none else observe columns engine t k)

  deleted-Removes : (id : String) (t : Tables Raw) → Removes id t (deleted id t)
  deleted-Removes id t k = elim (Bool-cases (id == k)) [
    | inl same ↦
        rw (observe_lem columns engine (deleted id t) k, find_row-deleted id k t.sessions, same)
          refl
    | inr other ↦
        rw
          (
            observe_lem columns engine (deleted id t) k,
            observe_lem columns engine t k,
            find_row-deleted id k t.sessions,
            of_session-kept id k t
                (engine.foreign_keys && is_some (find_row session_key id t.sessions)) other,
            other,
          )
          refl
  ]

  -- How a deletion in `d` ends: it is done, whatever it reports, or it fails with no effect.
  abbrev pub DeleteEnd : String → Database Raw → Result Error (Unit {0}) × Database Raw → Type 0
  DeleteEnd id d (r, d') =
      (Removes id d.tables d'.tables × ((r ≡ ok tt) ⊎ (r ≡ err statement_failed)))
      ⊎ ((r ≡ err statement_failed) × (d'.tables ≡ d.tables))

  -- Behind a DeleteSession of the SQLite store the session is read no more and every other session
  -- is read as before, whether success or an error is reported; or an error is reported and the
  -- tables are as they were.
  pub delete_session-Removes :
      (id : String) (d : Database Raw) → DeleteEnd id d (delete_session engine id d)
  unfolding delete_session statement
  delete_session-Removes id d = go (next_of d.outcomes).0
    where
      go :
          (o : Outcome)
          → DeleteEnd id d (
            (apply_under o (ok tt, deleted id d.tables) d.tables).0,
            record {
              tables = (apply_under o (ok tt, deleted id d.tables) d.tables).1;
              outcomes = (next_of d.outcomes).1;
            },
          )
      go Outcome.done = inl (deleted-Removes id d.tables, inl refl)
      go Outcome.failed = inr (refl, refl)
      go Outcome.late = inl (deleted-Removes id d.tables, inr refl)
