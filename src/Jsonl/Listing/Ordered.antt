-- ===== src/Jsonl/Listing/Ordered.antt =====
-- The order of a listing.
use Prim.Native.Nat.{◌≤◌}
use rakit.Prelude.{
  ℕ, ◌≡◌, Bool, true, false, List, [], ◌∷◌, map, if◌then◌else◌, Result, Result-cases, Bool-cases,
  inl, inr, arith,
}
use rakit.Metadata.{Session}
use rakit.Jsonl.Journal.{Error, Std, Disk}
use rakit.Jsonl.Listing.{
  sort_files, comes_first, insert_session, sort_sessions, summaries, scan_sessions, list_matching,
}

-- No session of the list is newer than the time.
abbrev IsOlder : ℕ → List Session → Type 0
IsOlder t [] = Unit
IsOlder t (s ∷ l) = s.updated_at ≤ t

-- No session is newer than the one before it.
abbrev pub IsNewestFirst : List Session → Type 0
IsNewestFirst [] = Unit
IsNewestFirst (s ∷ l) = IsOlder s.updated_at l × IsNewestFirst l

comes_first-older : (s t : Session) → comes_first t s ≡ true → s.updated_at ≤ t.updated_at
comes_first-older s t h = ground arith

comes_first-newer : (s t : Session) → comes_first t s ≡ false → t.updated_at ≤ s.updated_at
comes_first-newer s t h = ground arith

IsOlder-insert_session :
    (s : Session) (t : ℕ) (l : List Session)
    → s.updated_at ≤ t
    → IsOlder t l
    → IsOlder t (insert_session s l)
unfolding insert_session
IsOlder-insert_session s t [] p q = p
IsOlder-insert_session s t (u ∷ l) p q = first (comes_first u s)
  where
    first : (b : Bool) → IsOlder t (if b then u ∷ insert_session s l else s ∷ u ∷ l)
    first true = q
    first false = p

IsNewestFirst-insert_session :
    (s : Session) (l : List Session) → IsNewestFirst l → IsNewestFirst (insert_session s l)
unfolding insert_session
IsNewestFirst-insert_session s [] h = (tt, tt)
IsNewestFirst-insert_session s (t ∷ l) h = elim (Bool-cases (comes_first t s)) [
  | inl later ↦
      rw (later, IsNewestFirst)
        (
          IsOlder-insert_session s t.updated_at l (comes_first-older s t later) h.0,
          IsNewestFirst-insert_session s l h.1,
        )
  | inr here ↦ rw (here, IsNewestFirst) (comes_first-newer s t here, h)
]

IsNewestFirst-sort_sessions : (l : List Session) → IsNewestFirst (sort_sessions l)
unfolding sort_sessions
IsNewestFirst-sort_sessions [] = tt
IsNewestFirst-sort_sessions (s ∷ l) =
    IsNewestFirst-insert_session s (sort_sessions l) (IsNewestFirst-sort_sessions l)

-- A listing shows no session before one that was updated later.
pub list_matching-IsNewestFirst :
    {Raw : Type 0} (std : Std Raw) (matches : Session → Bool) (rebuilt : Result Error (Unit {0}))
    (d : Disk Raw)
    → IsNewestFirst (list_matching std matches rebuilt d).0
unfolding list_matching
list_matching-IsNewestFirst std matches rebuilt d =
    elim (Result-cases (scan_sessions std (sort_files (map (λ p. p.0) d.transcripts)) d)) [
      | inl (all, q) ↦ rw (q, list_matching) (IsNewestFirst-sort_sessions (summaries matches all))
      | inr (x, q) ↦ rw (q, list_matching) tt
    ]
