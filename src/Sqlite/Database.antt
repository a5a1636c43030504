-- ===== src/Sqlite/Database.antt =====
-- The statements and transactions of storage/metadata/sqlite/store.go. A statement is the function of
-- the tables that its SQL states.
mod Schema
pub mod Steady
pub mod Atomic
pub use Schema.*
use rakit.Prelude.{◌≡◌, refl, List, [], ◌∷◌, Result, ok, err}

-- How a statement ends: it is done, it fails with no effect, or it takes effect and an error is
-- reported, as when the context ends.
pub data Outcome : Type 0 where
  done failed late : Outcome

-- The tables and how the next statements end; without more, they are done.
pub record Database (Raw : Type 0) : Type 0 where
  pub tables : Tables Raw
  pub outcomes : List Outcome

-- A database whose statements all succeed.
abbrev pub fault_free : {Raw : Type 0} → Tables Raw → Database Raw
fault_free t = record { tables = t; outcomes = [] }

unfoldable pub next_of : List Outcome → Outcome × List Outcome
next_of [] = (Outcome.done, [])
next_of (o ∷ os) = (o, os)

-- Code that runs statements: the result that it returns and the database that it leaves.
abbrev pub Db : Type 0 → Type 0 → Type 0
Db Raw A = Database Raw → Result Error A × Database Raw

module _ {Raw : Type 0} where
  abbrev pub with_result :
      {A B : Type 0}
      → Result Error A × Database Raw
      → (A → Db Raw B)
      → Result Error B × Database Raw
  with_result (ok a, d) f = f a d
  with_result (err x, d) f = (err x, d)

  infixl 5 ◌>>=◌ ◌>>◌
  unfoldable pub ◌>>=◌ : {A B : Type 0} → Db Raw A → (A → Db Raw B) → Db Raw B
  ◌>>=◌ m f d = with_result (m d) f

  abbrev pub ◌>>◌ : {A B : Type 0} → Db Raw A → Db Raw B → Db Raw B
  m >> k = m >>= λ _. k

  unfoldable pub pure : {A : Type 0} → A → Db Raw A
  pure a d = (ok a, d)

  -- A check or a conversion that touches no table.
  unfoldable pub lift : {A : Type 0} → Result Error A → Db Raw A
  lift r d = (r, d)

  abbrev pub fail : {A : Type 0} → Error → Db Raw A
  fail x = lift (err x)

  abbrev pub apply_under :
      {A : Type 0}
      → Outcome
      → Result Error A × Tables Raw
      → Tables Raw
      → Result Error A × Tables Raw
  apply_under Outcome.done (r, t') t = (r, t')
  apply_under Outcome.failed (r, t') t = (err statement_failed, t)
  apply_under Outcome.late (r, t') t = (err statement_failed, t')

  -- `ExecContext` or `QueryContext` of one statement.
  unfoldable pub statement : {A : Type 0} → (Tables Raw → Result Error A × Tables Raw) → Db Raw A
  statement f d =
      let (o, os) = next_of d.outcomes in
      let (r, t) = apply_under o (f d.tables) d.tables in (r, record { tables = t; outcomes = os })

  abbrev pub select : {A : Type 0} → (Tables Raw → A) → Db Raw A
  select f = statement (λ t. (ok (f t), t))

  abbrev pub exec : (Tables Raw → Tables Raw) → Db Raw (Unit {0})
  exec f = statement (λ t. (ok tt, f t))

  abbrev pub commit_under :
      {A : Type 0} → Outcome → A → Tables Raw → Tables Raw → Result Error A × Tables Raw
  commit_under Outcome.done a before t = (ok a, t)
  commit_under Outcome.failed a before t = (err statement_failed, before)
  commit_under Outcome.late a before t = (err statement_failed, t)

  -- `tx.Commit` where the body of the transaction returned a value, and else `tx.Rollback`.
  unfoldable pub close_transaction :
      {A : Type 0} → Tables Raw → Result Error A × Database Raw → Result Error A × Database Raw
  close_transaction before (err x, d) = (err x, record d { tables = before })
  close_transaction before (ok a, d) =
      let (o, os) = next_of d.outcomes in
      let (r, t) = commit_under o a before d.tables in (r, record { tables = t; outcomes = os })

  -- `BeginTx`, a body, and the commit or the deferred rollback.
  unfoldable pub transaction : {A : Type 0} → Db Raw A → Db Raw A
  transaction m = select (λ t. t) >>= λ before d. close_transaction before (m d)

  -- A transaction by the outcome of its `BeginTx`.
  abbrev pub begun : {A : Type 0} → Outcome → Db Raw A → Db Raw A
  begun Outcome.done m d = close_transaction d.tables (m d)
  begun Outcome.failed m d = (err statement_failed, d)
  begun Outcome.late m d = (err statement_failed, d)

  abbrev pub outcomes_left : Database Raw → Database Raw
  outcomes_left d = record d { outcomes = (next_of d.outcomes).1 }

  pub transaction_lem :
      {A : Type 0} (m : Db Raw A) (d : Database Raw)
      → transaction m d ≡ begun (next_of d.outcomes).0 m (outcomes_left d)
  unfolding transaction ◌>>=◌ statement
  transaction_lem m d = go (next_of d.outcomes).0
    where
      go :
          (o : Outcome)
          → with_result
              (
                (apply_under o (ok d.tables, d.tables) d.tables).0,
                record {
                  tables = (apply_under o (ok d.tables, d.tables) d.tables).1;
                  outcomes = (next_of d.outcomes).1;
                },
              )
              (λ before d'. close_transaction before (m d'))
            ≡ begun o m (outcomes_left d)
      go Outcome.done = refl
      go Outcome.failed = refl
      go Outcome.late = refl
