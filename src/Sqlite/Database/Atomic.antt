-- ===== src/Sqlite/Database/Atomic.antt =====
-- A transaction either commits the whole of its body or changes nothing.
use mathlib.Core.Path.{subst}
use rakit.Prelude.{◌≡◌, refl, sym, ◌⊎◌, inl, inr, Result, ok, err, arith}
use rakit.Sqlite.Database.{
  fault_free, Error, statement_failed, Outcome, Tables, Database, Db, ◌>>=◌, with_result, pure,
  lift, statement, commit_under, next_of, transaction, close_transaction, begun, outcomes_left,
  transaction_lem,
}
use rakit.Sqlite.Database.Steady.{Steady}

-- How code ends on a database: it has done what it does when no statement fails, though the last
-- one may report an error, or it reports an error and the tables are as they were.
abbrev pub Ends :
    {Raw A : Type 0} → Db Raw A → Database Raw → Result Error A × Database Raw → Type 0
Ends {A = A} m d r =
    ((a : A) × (m (fault_free d.tables) ≡ (ok a, fault_free r.1.tables))
      × ((r.0 ≡ ok a) ⊎ (r.0 ≡ err statement_failed)))
    ⊎ ((x : Error) × (r.0 ≡ err x) × (r.1.tables ≡ d.tables))

pub record IsAtomic {Raw A : Type 0} (m : Db Raw A) : Type 0 where
  pub at : (d : Database Raw) → Ends m d (m d)

module _ {Raw : Type 0} where
  committed :
      {A : Type 0} (m : Db Raw A) (t t' : Tables Raw) (a : A)
      → m (fault_free t) ≡ (ok a, fault_free t')
      → transaction m (fault_free t) ≡ (ok a, fault_free t')
  unfolding transaction close_transaction ◌>>=◌ statement next_of
  committed m t t' a e = ground arith

  module _ {A : Type 0} (m : Db Raw A) (steady : Steady m) (d : Database Raw) where
    commit_under-Ends :
        (a : A) (d' : Database Raw)
        → m (fault_free d.tables) ≡ (ok a, fault_free d'.tables)
        → Ends (transaction m) d (close_transaction d.tables (ok a, d'))
    unfolding close_transaction
    commit_under-Ends a d' e = go (next_of d'.outcomes).0
      where
        go :
            (o : Outcome)
            → Ends (transaction m) d (
              (commit_under o a d.tables d'.tables).0,
              record {
                tables = (commit_under o a d.tables d'.tables).1;
                outcomes = (next_of d'.outcomes).1;
              },
            )
        go Outcome.done = inl (a, committed m d.tables d'.tables a e, inl refl)
        go Outcome.failed = inr (statement_failed, refl, refl)
        go Outcome.late = inl (a, committed m d.tables d'.tables a e, inr refl)

    close_transaction-Ends :
        (r : Result Error A × Database Raw)
        → m (outcomes_left d) ≡ r
        → Ends (transaction m) d (close_transaction d.tables r)
    close_transaction-Ends (ok a, d') e =
        commit_under-Ends a d' (steady.at (outcomes_left d) d' a e)
    close_transaction-Ends (err x, d') e =
        inr (x, unfold close_transaction in refl, unfold close_transaction in refl)

    begun-Ends : (o : Outcome) → Ends (transaction m) d (begun o m (outcomes_left d))
    begun-Ends Outcome.done = close_transaction-Ends (m (outcomes_left d)) refl
    begun-Ends Outcome.failed = inr (statement_failed, refl, refl)
    begun-Ends Outcome.late = inr (statement_failed, refl, refl)

  pub IsAtomic-transaction : {A : Type 0} (m : Db Raw A) → Steady m → IsAtomic (transaction m)
  IsAtomic-transaction m steady = record {
    at = λ d.
        subst (Ends (transaction m) d) (sym (transaction_lem m d))
          (begun-Ends m steady d (next_of d.outcomes).0);
  }

  pub IsAtomic-lift-bind :
      {A B : Type 0} (r : Result Error A) (f : A → Db Raw B)
      → ((a : A) → IsAtomic (f a))
      → IsAtomic (lift r >>= f)
  unfolding ◌>>=◌ lift
  IsAtomic-lift-bind (ok a) f k = record { at = (k a).at }
  IsAtomic-lift-bind (err x) f k = record { at = λ d. inr (x, refl, refl) }

  pub IsAtomic-bind-pure :
      {A B : Type 0} (m : Db Raw A) (g : A → B) → IsAtomic m → IsAtomic (m >>= λ a. pure (g a))
  unfolding ◌>>=◌ pure
  IsAtomic-bind-pure {A} m g k = record { at = λ d. go d (m d) (k.at d) }
    where
      go :
          (d : Database Raw) (r : Result Error A × Database Raw)
          → Ends m d r
          → Ends (m >>= λ a. pure (g a)) d (with_result r (λ a. pure (g a)))
      go d (ok a, d') (inl (b, e, inl p)) = inl (g b, rw e, inl (ground arith))
      go d (ok a, d') (inl (b, e, inr p)) = cc
      go d (ok a, d') (inr (x, p, q)) = cc
      go d (err y, d') (inl (b, e, inl p)) = cc
      go d (err y, d') (inl (b, e, inr p)) = inl (g b, rw e, inr (ground arith))
      go d (err y, d') (inr (x, p, q)) = inr (x, ground arith, q)
