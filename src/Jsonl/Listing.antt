-- ===== src/Jsonl/Listing.antt =====
-- `ListSessions` and `ListSessionsByUser` of storage/metadata/jsonl/sessions.go.
pub mod Members
pub mod Listed
pub mod Ordered
use Prim.Native.Nat.{Ordering}
use Prim.Native.String.{compare}
use rakit.Prelude.{
  ℕ, String, ◌^^◌, Bool, true, false, ◌&&◌, ◌||◌, not, Option, none, some, List, [], ◌∷◌, map, ◌==◌,
  ltb, nat_eq, if◌then◌else◌, Result, ok, err, ◌>>=◌,
}
use rakit.Metadata.{Fields, Session}
use rakit.Jsonl.Journal.{Error, Std, Disk}
use rakit.Jsonl.Sessions.{get_session}

-- The order of the names `<id>.jsonl` in `os.ReadDir`.
unfoldable pub insert_file : String → List String → List String
insert_file k [] = k ∷ []
insert_file k (j ∷ l) = elim (compare (k ^^ ".jsonl") (j ^^ ".jsonl")) [
  | Ordering.gt ↦ j ∷ insert_file k l
  | _ ↦ k ∷ j ∷ l
]

unfoldable pub sort_files : List String → List String
sort_files [] = []
sort_files (k ∷ l) = insert_file k (sort_files l)

-- `summarySession(summaryFromSession(sess))`
abbrev pub summary_session : Session → Session
summary_session s = record s { messages = []; state = Fields.end; open_interrupts = [] }

-- The comparison of `sortSessions`: the latest update first, then by id.
abbrev pub comes_first : Session → Session → Bool
comes_first s t =
    if not (nat_eq s.updated_at t.updated_at)
    then ltb t.updated_at s.updated_at
    else elim (compare s.id t.id) [ Ordering.lt ↦ true | _ ↦ false ]

unfoldable pub insert_session : Session → List Session → List Session
insert_session s [] = s ∷ []
insert_session s (t ∷ l) = if comes_first t s then t ∷ insert_session s l else s ∷ t ∷ l

-- `sortSessions`
unfoldable pub sort_sessions : List Session → List Session
sort_sessions [] = []
sort_sessions (s ∷ l) = insert_session s (sort_sessions l)

-- The loop that collects the summaries of the sessions that match.
unfoldable pub summaries : (Session → Bool) → List Session → List Session
summaries matches [] = []
summaries matches (s ∷ l) =
    let rest = summaries matches l in if matches s then summary_session s ∷ rest else rest

module _ {Raw : Type 0} (std : Std Raw) where
  -- The loop of `scanSessionsLocked` over the names of the transcripts.
  unfoldable pub scan_sessions : List String → Disk Raw → Result Error (List Session)
  scan_sessions [] d = ok []
  scan_sessions (id ∷ ids) d = do
    found ← get_session std id d
    rest ← scan_sessions ids d
    ok (elim found [ none ↦ rest | some s ↦ s ∷ rest ])

  -- `listSessions`; `rebuilt` is the outcome of the rewriting of the index, after which the listing
  -- is returned as well.
  unfoldable pub list_matching :
      (Session → Bool) → Result Error (Unit {0}) → Disk Raw → List Session × Result Error (Unit {0})
  list_matching matches rebuilt d =
      elim (scan_sessions (sort_files (map (λ p. p.0) d.transcripts)) d) [
        | err x ↦ ([], err x)
        | ok all ↦ (sort_sessions (summaries matches all), rebuilt)
      ]

  unfoldable pub list_sessions :
      String → Result Error (Unit {0}) → Disk Raw → List Session × Result Error (Unit {0})
  list_sessions agent_id = list_matching (λ s. s.agent_id == agent_id)

  unfoldable pub list_sessions_by_user :
      String → String → Result Error (Unit {0}) → Disk Raw → List Session × Result Error (Unit {0})
  list_sessions_by_user agent_id user_id =
      list_matching (λ s. s.agent_id == agent_id && s.user_id == user_id)
