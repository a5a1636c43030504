-- ===== src/Sqlite/Sessions/Updated.antt =====
-- What GetSession reads after the tables of an update are committed.
use rakit.Prelude.{
  ℕ, ◌+◌, String, ◌≡◌, refl, sym, ap, ◌∙◌, false, Option, none, some, List, map, ◌==◌, eq_iff,
  if◌then◌else◌, IsDistinct, arith, ok,
}
use rakit.Metadata.{Session}
use rakit.Metadata.Contract.{put}
use rakit.Sqlite.Database.{pos, SessionRow, MessageRow, Tables, Columns, Engine}
use rakit.Sqlite.Rows.{find_row}
use rakit.Sqlite.Rows.Found.{find_row-key, find_row-update_where}
use rakit.Sqlite.Rows.Distinct.{rows_where-IsDistinct}
use rakit.Sqlite.Rows.Sorted.{IsStrictlyAscending, All, ascending_unique}
use rakit.Sqlite.Sessions.{
  session_key, message_key, message_of, of_session, matches, set_columns, encode_session_metadata,
}
use rakit.Sqlite.Sessions.Written.{
  WrittenAs, WrittenAs-RowsOf, WrittenAs-messages, WrittenAs-IsStrictlyAscending,
}
use rakit.Sqlite.Sessions.Reconciled.{
  ids_of, reconciled, reconciled-find, reconciled-other, reconciled-IsDistinct, IsOwn, RowsOf,
}
use rakit.Sqlite.Sessions.Foreign.{written-foreign, written-session}
use rakit.Sqlite.Sessions.Runs.{updated}
use rakit.Sqlite.Sessions.Observed.{
  IsValid, Orders, observe, observe_lem, read-encoded, read_messages,
}

module _ {Raw : Type 0} (columns : Columns Raw) where
  -- A snapshot that can be stored, as these rows: its JSON can be encoded, its messages have
  -- distinct ids and rising times, and none of them has the id of a message of another session.
  pub record Storable (s : Session) (encoded : Raw × Raw) (new : List (MessageRow Raw))
      (t : Tables Raw) : Type 0 where
    pub encodes : encode_session_metadata columns s ≡ ok encoded
    pub written : WrittenAs columns s.id s.messages new
    pub distinct : IsDistinct (ids_of s.messages)
    pub rising : IsStrictlyAscending (λ m. m.created_at) s.messages
    pub own : All (IsOwn s.id s.messages) t.messages

module _ {Raw : Type 0} (columns : Columns Raw) (engine : Engine Raw) where
  module _ (orders : Orders engine) {s : Session} {encoded : Raw × Raw}
      {new : List (MessageRow Raw)} {t : Tables Raw} (valid : IsValid t)
      (storable : Storable columns s encoded new t) where
    read_new : (u : ℕ) → read_messages columns engine s.id (updated s encoded u new t) ≡ s.messages
    unfolding updated
    read_new u =
        ap (map (message_of columns)) (
          ascending_unique message_key (λ r. r.created_at)
            (engine.by_created_at (of_session s.id (reconciled s.id s.messages new t.messages))) new
            (orders.ascending (of_session s.id (reconciled s.id s.messages new t.messages)))
            (WrittenAs-IsStrictlyAscending columns s.id s.messages new storable.written
              storable.rising)
            (orders.unique (of_session s.id (reconciled s.id s.messages new t.messages))
              distinct_rows)
            (rw (WrittenAs-RowsOf columns s.id s.messages new storable.written).1 storable.distinct)
            (λ k.
              orders.same k (of_session s.id (reconciled s.id s.messages new t.messages))
                distinct_rows
              ∙ reconciled-find s.id s.messages new t.messages
                  (WrittenAs-RowsOf columns s.id s.messages new storable.written) storable.distinct
                  valid.messages k))
        ∙ WrittenAs-messages columns s.id s.messages new storable.written
      where
        distinct_rows :
            IsDistinct
              (map message_key (of_session s.id (reconciled s.id s.messages new t.messages)))
        distinct_rows =
            rows_where-IsDistinct message_key (λ r. r.session_id == s.id)
              (reconciled s.id s.messages new t.messages)
              (reconciled-IsDistinct s.id s.messages new t.messages valid.messages)

    -- The messages of the other sessions.
    read_old :
        (u : ℕ) (j : String)
        → (s.id == j) ≡ false
        → read_messages columns engine j (updated s encoded u new t)
          ≡ read_messages columns engine j t
    unfolding updated
    read_old u j n =
        ap (λ rows. map (message_of columns) (engine.by_created_at rows))
          (reconciled-other j s.id s.messages new t.messages n
            (written-session j s.id new n rows_of.0)
            (written-foreign j s.id s.messages t.messages new n rows_of storable.own))
      where
        rows_of : RowsOf s.id s.messages new
        rows_of = WrittenAs-RowsOf columns s.id s.messages new storable.written

    find_updated :
        (u : ℕ) (k : String)
        → find_row session_key k (updated s encoded u new t).sessions
          ≡ elim (find_row session_key k t.sessions) [
            | none ↦ none
            | some r ↦ some (
                if matches s.id (pos s.revision) r
                then set_columns s encoded (pos (s.revision + 1)) u r
                else r)
          ]
    unfolding updated
    find_updated u k =
        find_row-update_where session_key (matches s.id (pos s.revision))
          (set_columns s encoded (pos (s.revision + 1)) u) (λ r. refl) k t.sessions

    find_old :
        (u : ℕ) (j : String)
        → (s.id == j) ≡ false
        → find_row session_key j (updated s encoded u new t).sessions
          ≡ find_row session_key j t.sessions
    find_old u j n = find_updated u j ∙ go (find_row session_key j t.sessions) refl
      where
        go :
            (o : Option (SessionRow Raw))
            → find_row session_key j t.sessions ≡ o
            → elim o [
              | none ↦ none
              | some r ↦ some (
                  if matches s.id (pos s.revision) r
                  then set_columns s encoded (pos (s.revision + 1)) u r
                  else r)
            ]
              ≡ o
        go none e = refl
        go (some r) e =
            ground
              (arith, find_row-key session_key j t.sessions r e, eq_iff r.id s.id, eq_iff s.id j)

    module _ (row : SessionRow Raw) (found : find_row session_key s.id t.sessions ≡ some row)
        (current : row.revision ≡ pos s.revision) (u : ℕ) where
      observe_new :
          observe columns engine (updated s encoded u new t) s.id
          ≡ some
              (record s { revision = s.revision + 1; created_at = row.created_at; updated_at = u })
      observe_new =
          observe_lem columns engine (updated s encoded u new t) s.id
          ∙ rw (find_updated u s.id, read_new u, found)
              (ground (
                arith,
                read-encoded columns s encoded storable.encodes,
                eq_iff row.id s.id,
                find_row-key session_key s.id t.sessions row found,
              ))

      observe_old :
          (j : String)
          → (s.id == j) ≡ false
          → observe columns engine (updated s encoded u new t) j ≡ observe columns engine t j
      observe_old j n =
          observe_lem columns engine (updated s encoded u new t) j
          ∙ rw (find_old u j n, read_old u j n) (sym (observe_lem columns engine t j))

      pub observe-updated :
          (k : String)
          → observe columns engine (updated s encoded u new t) k
            ≡ put
                (record s {
                  revision = s.revision + 1;
                  created_at = row.created_at;
                  updated_at = u;
                })
                (observe columns engine t)
                k
      observe-updated k = ground (arith, observe_new, observe_old k, eq_iff s.id k)
