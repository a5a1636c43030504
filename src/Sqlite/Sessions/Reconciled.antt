-- ===== src/Sqlite/Sessions/Reconciled.antt =====
-- The messages that an update leaves: those of its snapshot for the session, and all of the others.
use rakit.Prelude.{
  String, ◌≡◌, refl, ap, ◌∙◌, Bool, true, false, not, ◌&&◌, Option, none, some, or_else, List, [],
  ◌∷◌, map, ◌==◌, eq_iff, if◌then◌else◌, elem, IsDistinct, arith,
}
use rakit.Metadata.{Message}
use rakit.Sqlite.Database.{MessageRow}
use rakit.Sqlite.Rows.{find_row, upsert_row, rows_where}
use rakit.Sqlite.Rows.Found.{
  kept_by, merged, find_row-key, find_row-absent, absent-find_row, find_row-rows_where,
  find_row-upsert_row,
}
use rakit.Sqlite.Rows.Distinct.{rows_where-IsDistinct, upsert_row-IsDistinct}
use rakit.Sqlite.Rows.Sorted.{All, All-find_row}
use rakit.Sqlite.Sessions.{message_key, of_session, excluded}

abbrev pub ids_of : List Message → List String
ids_of ms = map (λ (m : Message). m.id) ms

module _ {Raw : Type 0} where
  -- What the DELETE of an update keeps.
  abbrev pub remains : String → List Message → MessageRow Raw → Bool
  remains id [] r = not (r.session_id == id)
  remains id (m ∷ ms) r = not (r.session_id == id && not (elem r.id (ids_of (m ∷ ms))))

  unfoldable pub upserts : List (MessageRow Raw) → List (MessageRow Raw) → List (MessageRow Raw)
  upserts [] rows = rows
  upserts (r ∷ rs) rows = upserts rs (upsert_row message_key excluded r rows)

  unfoldable pub reconciled :
      String → List Message → List (MessageRow Raw) → List (MessageRow Raw) → List (MessageRow Raw)
  reconciled id ms new rows = upserts new (rows_where (remains id ms) rows)

  pub excluded-key :
      (s r : MessageRow Raw)
      → message_key s ≡ message_key r
      → message_key (excluded s r) ≡ message_key r
  excluded-key s r h = h

  merged-excluded :
      (r : MessageRow Raw) (rows : List (MessageRow Raw))
      → merged excluded r (find_row message_key r.id rows) ≡ r
  merged-excluded r rows = go (find_row message_key r.id rows) refl
    where
      go :
          (o : Option (MessageRow Raw))
          → find_row message_key r.id rows ≡ o
          → merged excluded r o ≡ r
      go none e = refl
      go (some s) e = ground (arith, find_row-key message_key r.id rows s e)

  find-upsert :
      (k : String) (r : MessageRow Raw) (rows : List (MessageRow Raw))
      → find_row message_key k (upsert_row message_key excluded r rows)
        ≡ (if r.id == k then some r else find_row message_key k rows)
  find-upsert k r rows = ground (
    arith,
    find_row-upsert_row message_key excluded excluded-key k r rows,
    merged-excluded r rows,
  )

  pub find-upserts :
      (k : String) (new rows : List (MessageRow Raw))
      → IsDistinct (map message_key new)
      → find_row message_key k (upserts new rows)
        ≡ or_else (find_row message_key k new) (find_row message_key k rows)
  unfolding upserts find_row
  find-upserts k [] rows d = refl
  find-upserts k (r ∷ new) rows d = ground (
    arith,
    find-upserts k new (upsert_row message_key excluded r rows) d.1,
    find-upsert k r rows,
    eq_iff r.id k,
    find_row-absent message_key r.id new d.0,
  )

  pub upserts-IsDistinct :
      (new rows : List (MessageRow Raw))
      → IsDistinct (map message_key rows)
      → IsDistinct (map message_key (upserts new rows))
  unfolding upserts
  upserts-IsDistinct [] rows d = d
  upserts-IsDistinct (r ∷ new) rows d =
      upserts-IsDistinct new (upsert_row message_key excluded r rows)
        (upsert_row-IsDistinct message_key excluded excluded-key r rows d)

  pub reconciled-IsDistinct :
      (id : String) (ms : List Message) (new rows : List (MessageRow Raw))
      → IsDistinct (map message_key rows)
      → IsDistinct (map message_key (reconciled id ms new rows))
  unfolding reconciled
  reconciled-IsDistinct id ms new rows d =
      upserts-IsDistinct new (rows_where (remains id ms) rows)
        (rows_where-IsDistinct message_key (remains id ms) rows d)

  -- A row that an update of another session would take over or delete.
  abbrev pub IsOwn : String → List Message → MessageRow Raw → Type 0
  IsOwn id ms r = elem r.id (ids_of ms) ≡ true → r.session_id ≡ id

  -- What one session's rows are, where the rows that are written belong to another.
  upsert-other :
      (j : String) (r : MessageRow Raw) (rows : List (MessageRow Raw))
      → (r.session_id == j) ≡ false
      → elem r.id (map message_key (rows_where (λ s. s.session_id == j) rows)) ≡ false
      → rows_where (λ s. s.session_id == j) (upsert_row message_key excluded r rows)
        ≡ rows_where (λ s. s.session_id == j) rows
  unfolding rows_where upsert_row
  upsert-other j r [] n a = ground arith
  upsert-other j r (s ∷ rows) n a = ground (arith, upsert-other j r rows n, eq_iff s.id r.id)

  remains-other :
      (j id : String) (ms : List Message) (rows : List (MessageRow Raw))
      → (id == j) ≡ false
      → rows_where (λ s. s.session_id == j) (rows_where (remains id ms) rows)
        ≡ rows_where (λ s. s.session_id == j) rows
  unfolding rows_where
  remains-other j id ms [] n = refl
  remains-other j id [] (s ∷ rows) n = ground (
    arith,
    remains-other j id [] rows n,
    eq_iff s.session_id j,
    eq_iff s.session_id id,
    eq_iff id j,
  )
  remains-other j id (m ∷ ms) (s ∷ rows) n = ground (
    arith,
    remains-other j id (m ∷ ms) rows n,
    eq_iff s.session_id j,
    eq_iff s.session_id id,
    eq_iff id j,
  )

  -- The rows are those of one session and have the ids of the messages.
  abbrev pub RowsOf : String → List Message → List (MessageRow Raw) → Type 0
  RowsOf id ms new = All (λ r. r.session_id ≡ id) new × (map message_key new ≡ ids_of ms)

  reconciled-found :
      (id : String) (ms : List Message) (new rows : List (MessageRow Raw)) (k : String)
      → IsDistinct (map message_key new)
      → IsDistinct (map message_key rows)
      → find_row message_key k (reconciled id ms new rows)
        ≡ or_else
            (find_row message_key k new)
            (kept_by (remains id ms) (find_row message_key k rows))
  unfolding reconciled
  reconciled-found id ms new rows k dn dr =
      find-upserts k new (rows_where (remains id ms) rows) dn
      ∙ ap (or_else (find_row message_key k new))
          (find_row-rows_where message_key (remains id ms) k rows dr)

  -- A row that is not one of the messages is deleted or belongs to another session.
  remains-gone :
      (id : String) (ms : List Message) (o : Option (MessageRow Raw))
      → ((r : MessageRow Raw) → o ≡ some r → elem r.id (ids_of ms) ≡ false)
      → kept_by (λ r. r.session_id == id) (kept_by (remains id ms) o) ≡ none
  remains-gone id ms none h = refl
  remains-gone id [] (some r) h = ground arith
  remains-gone id (m ∷ ms) (some r) h = ground (arith, h r refl)

  own-found :
      (id : String) (o : Option (MessageRow Raw))
      → ((r : MessageRow Raw) → o ≡ some r → r.session_id ≡ id)
      → (p : Option (MessageRow Raw)) → (o ≡ none → kept_by (λ r. r.session_id == id) p ≡ none)
      → kept_by (λ r. r.session_id == id) (or_else o p) ≡ o
  own-found id none h p g = g refl
  own-found id (some r) h p g = ground (arith, h r refl, eq_iff r.session_id id)

  absent-ids :
      (id : String) (ms : List Message) (new : List (MessageRow Raw)) (k : String)
      → RowsOf id ms new
      → find_row message_key k new ≡ none
      → elem k (ids_of ms) ≡ false
  absent-ids id ms new k o e = rw o.1 at (absent-find_row message_key k new e)

  pub reconciled-find :
      (id : String) (ms : List Message) (new rows : List (MessageRow Raw))
      → RowsOf id ms new
      → IsDistinct (ids_of ms)
      → IsDistinct (map message_key rows)
      → (k : String)
      → find_row message_key k (of_session id (reconciled id ms new rows))
        ≡ find_row message_key k new
  reconciled-find id ms new rows o dm dr k =
      find_row-rows_where message_key (λ r. r.session_id == id) k (reconciled id ms new rows)
        (reconciled-IsDistinct id ms new rows dr)
      ∙ ap (kept_by (λ r. r.session_id == id)) (reconciled-found id ms new rows k (rw o.1 dm) dr)
      ∙ own-found id (find_row message_key k new)
          (λ r e. All-find_row message_key (λ s. s.session_id ≡ id) k new r o.0 e)
          (kept_by (remains id ms) (find_row message_key k rows))
          (λ none_new.
            remains-gone id ms (find_row message_key k rows)
              (λ r e. rw (find_row-key message_key k rows r e) (absent-ids id ms new k o none_new)))

  upserts-other :
      (j : String) (new rows : List (MessageRow Raw))
      → All (λ r. (r.session_id == j) ≡ false) new
      → All (λ r. elem r.id (map message_key (of_session j rows)) ≡ false) new
      → of_session j (upserts new rows) ≡ of_session j rows
  unfolding upserts
  upserts-other j [] rows n a = refl
  upserts-other j (r ∷ new) rows n a =
      let e = upsert-other j r rows n.0 a.0 in
      upserts-other j new (upsert_row message_key excluded r rows) n.1 (rw e a.1) ∙ e

  -- The rows of another session stay, where no message of the snapshot has the id of one of them.
  pub reconciled-other :
      (j id : String) (ms : List Message) (new rows : List (MessageRow Raw))
      → (id == j) ≡ false
      → All (λ r. (r.session_id == j) ≡ false) new
      → All (λ r. elem r.id (map message_key (of_session j rows)) ≡ false) new
      → of_session j (reconciled id ms new rows) ≡ of_session j rows
  unfolding reconciled
  reconciled-other j id ms new rows n o a =
      let e = remains-other j id ms rows n in
      upserts-other j new (rows_where (remains id ms) rows) o (rw e a) ∙ e
