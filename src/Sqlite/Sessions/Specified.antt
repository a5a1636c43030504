-- ===== src/Sqlite/Sessions/Specified.antt =====
-- What the specification answers where the checks of UpdateSession pass and where they fail.
use rakit.Prelude.{
  ℕ, ◌+◌, String, ◌≡◌, ◌∙◌, true, false, none, some, leb, nat_eq, if◌then◌else◌, arith, ok, err,
  Option-cases, inl, inr,
}
use rakit.Metadata.{Session}
use rakit.Metadata.Contract.{Sessions, Limits, later, successor, can_follow, put, swap}
use rakit.Jsonl.Sessions.{max_int64}
use rakit.Sqlite.Database.{Error}
use rakit.Sqlite.Sessions.{validate_session_update, next_sqlite_updated_at}

-- The bounds of the columns, which are signed 64-bit integers.
abbrev pub limits : Limits
limits = record { last_revision = max_int64; last_time = max_int64 }

module _ (now : ℕ) (s : Session) (m : Sessions) where
  pub swap-absent : m s.id ≡ none → swap limits now s m ≡ (none, m)
  unfolding swap
  swap-absent e = rw (e, swap)

  swap-present :
      (c : Session)
      → m s.id ≡ some c
      → swap limits now s m ≡ (
          if can_follow limits now s c
          then (some (successor now s c), put (successor now s c) m)
          else (none, m))
  unfolding swap
  swap-present c e = rw (e, swap)

  pub swap-overflow : leb max_int64 s.revision ≡ true → swap limits now s m ≡ (none, m)
  unfolding swap
  swap-overflow e = elim (Option-cases (m s.id)) [
    | inl absent ↦ swap-absent absent
    | inr (c, p) ↦ swap-present c p ∙ ground arith
  ]

  module _ (c : Session) (stored : m s.id ≡ some c) where
    swap-refused : can_follow limits now s c ≡ false → swap limits now s m ≡ (none, m)
    swap-refused e = swap-present c stored ∙ rw e

    pub swap-stale : nat_eq c.revision s.revision ≡ false → swap limits now s m ≡ (none, m)
    swap-stale e = swap-refused (ground arith)

    pub swap-late :
        (id : String) (x : Error)
        → next_sqlite_updated_at now id c.updated_at ≡ err x
        → swap limits now s m ≡ (none, m)
    unfolding next_sqlite_updated_at
    swap-late id x e = swap-refused (ground arith)

    pub swap-follows :
        (id : String) (u : ℕ)
        → next_sqlite_updated_at now id c.updated_at ≡ ok u
        → validate_session_update s ≡ ok tt
        → c.revision ≡ s.revision
        → swap limits now s m ≡ (
          some (record s { revision = s.revision + 1; created_at = c.created_at; updated_at = u }),
          put (record s { revision = s.revision + 1; created_at = c.created_at; updated_at = u }) m,
        )
    unfolding next_sqlite_updated_at validate_session_update
    swap-follows id u e fits same =
        let follows : can_follow limits now s c ≡ true = ground arith in
        let time : later now c.updated_at ≡ u = ground arith in
        swap-present c stored ∙ rw (follows, time)
