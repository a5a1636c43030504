-- ===== src/Tests/Listings.antt =====
-- The listing of a store with one session.
use mathlib.Core.List.{Memᴰ}
use rakit.Prelude.{◌↔◌, String, ◌≡◌, refl, Bool, true, some, [], ok, ◌==◌}
use rakit.Metadata.{Session}
use rakit.Jsonl.Sessions.{get_session}
use rakit.Jsonl.Listing.{
  summary_session, insert_file, sort_files, insert_session, sort_sessions, summaries, scan_sessions,
  list_matching,
}
use rakit.Jsonl.Listing.Listed.{list_matching-shows}
use rakit.Jsonl.Listing.Ordered.{IsNewestFirst, list_matching-IsNewestFirst}
use rakit.Tests.Store.{plain_std}
use rakit.Tests.Sessions.{store_code, stored, session_with}

abbrev of_agent : Session → Bool
of_agent s = s.agent_id == "agent"

listing_succeeds : (list_matching plain_std of_agent (ok tt) (stored [])).1 ≡ ok tt
unfolding store_code insert_file sort_files insert_session sort_sessions summaries scan_sessions
    list_matching
listing_succeeds = refl

list_matching-shows_example :
    Memᴰ (session_with [] 1 5) (list_matching plain_std of_agent (ok tt) (stored [])).0 ↔ (
      (id : String) × (s : Session) × (get_session plain_std id (stored []) ≡ ok (some s))
      × (of_agent s ≡ true)
      × (session_with [] 1 5 ≡ summary_session s))
list_matching-shows_example =
    list_matching-shows plain_std of_agent (ok tt) (session_with [] 1 5) (stored [])
      listing_succeeds

list_matching-IsNewestFirst_example :
    IsNewestFirst (list_matching plain_std of_agent (ok tt) (stored [])).0
list_matching-IsNewestFirst_example =
    list_matching-IsNewestFirst plain_std of_agent (ok tt) (stored [])
