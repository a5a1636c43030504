-- ===== src/Sqlite/Sessions/Foreign.antt =====
-- The messages of other sessions, where a snapshot uses none of their ids.
use rakit.Prelude.{String, ◌≡◌, true, false, List, [], ◌∷◌, map, ◌==◌, eq_iff, eq_refl, elem, arith}
use rakit.Metadata.{Message}
use rakit.Sqlite.Database.{MessageRow}
use rakit.Sqlite.Rows.{rows_where}
use rakit.Sqlite.Rows.Sorted.{All}
use rakit.Sqlite.Sessions.{message_key, of_session}
use rakit.Sqlite.Sessions.Reconciled.{ids_of, IsOwn, RowsOf}

module _ {Raw : Type 0} where
  foreign_id :
      (j id x : String) (ms : List Message) (rows : List (MessageRow Raw))
      → (id == j) ≡ false
      → All (IsOwn id ms) rows
      → elem x (ids_of ms) ≡ true
      → elem x (map message_key (of_session j rows)) ≡ false
  unfolding rows_where
  foreign_id j id x ms [] n o e = ground arith
  foreign_id j id x ms (r ∷ rows) n o e = ground (
    arith,
    foreign_id j id x ms rows n o.1 e,
    o.0,
    eq_iff r.session_id j,
    eq_iff r.id x,
    eq_iff id j,
  )

  -- The ids of rows that another list names.
  rows_named :
      (l : List String) (rows : List (MessageRow Raw))
      → ((x : String) → elem x (map message_key rows) ≡ true → elem x l ≡ true)
      → All (λ r. elem r.id l ≡ true) rows
  rows_named l [] h = tt
  rows_named l (r ∷ rows) h =
      (h r.id (ground (arith, eq_refl r.id)), rows_named l rows (λ x e. h x (ground arith)))

  All-foreign :
      (j id : String) (ms : List Message) (rows new : List (MessageRow Raw))
      → (id == j) ≡ false
      → All (IsOwn id ms) rows
      → All (λ r. elem r.id (ids_of ms) ≡ true) new
      → All (λ r. elem r.id (map message_key (of_session j rows)) ≡ false) new
  All-foreign j id ms rows [] n o e = tt
  All-foreign j id ms rows (r ∷ new) n o e =
      (foreign_id j id r.id ms rows n o e.0, All-foreign j id ms rows new n o e.1)

  -- The rows that are written have ids that no message of the other session has.
  pub written-foreign :
      (j id : String) (ms : List Message) (rows new : List (MessageRow Raw))
      → (id == j) ≡ false
      → RowsOf id ms new
      → All (IsOwn id ms) rows
      → All (λ r. elem r.id (map message_key (of_session j rows)) ≡ false) new
  written-foreign j id ms rows new n w o =
      All-foreign j id ms rows new n o (rows_named (ids_of ms) new (λ x e. rw (← w.1) e))

  pub written-session :
      (j id : String) (new : List (MessageRow Raw))
      → (id == j) ≡ false
      → All (λ r. r.session_id ≡ id) new
      → All (λ r. (r.session_id == j) ≡ false) new
  written-session j id [] n w = tt
  written-session j id (r ∷ new) n w = (rw w.0 n, written-session j id new n w.1)
