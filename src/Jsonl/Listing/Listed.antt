-- ===== src/Jsonl/Listing/Listed.antt =====
-- The sessions that a listing shows.
use mathlib.Core.List.{Memᴰ}
use rakit.Prelude.{
  ◌↔◌, ◌∙◌, String, ◌≡◌, refl, ap, sym, ◌⊎◌, Bool, true, Option, none, some, List, [], ◌∷◌, map,
  ◌==◌, eq_iff, Result, ok, Result-cases, Option-cases, Bool-cases, inl, inr, find, elem, arith,
}
use rakit.Metadata.{Session}
use rakit.Jsonl.Journal.{Error, Std, Disk}
use rakit.Jsonl.Sessions.{get_session}
use rakit.Jsonl.Sessions.Inversion.{IsStored_of_get}
use rakit.Jsonl.Sessions.Created.{get_session-absent}
use rakit.Jsonl.Listing.{sort_files, summary_session, summaries, scan_sessions, list_matching}
use rakit.Jsonl.Listing.Members.{
  Memᴰ-sort_sessions, sort_sessions-Memᴰ, Memᴰ-summaries, summaries-Memᴰ, elem-sort_files,
  elem-names,
}

module _ {Raw : Type 0} (std : Std Raw) where
  -- A session that is read has a transcript.
  get_session-present :
      (id : String) (s : Session) (d : Disk Raw)
      → get_session std id d ≡ ok (some s)
      → elem id (map (λ p. p.0) d.transcripts) ≡ true
  get_session-present id s d h = elim (Option-cases (find id d.transcripts)) [
    | inl absent ↦
        let none_read = get_session-absent std id d (IsStored_of_get std id d s h).valid absent in
        absurd (ground (arith, none_read))
    | inr (ls, present) ↦ elem-names id d.transcripts ls present
  ]

  abbrev with_found : Option Session → List Session → List Session
  with_found found rest = elim found [ none ↦ rest | some s ↦ s ∷ rest ]

  Memᴰ-with_found :
      (s : Session) (found : Option Session) (rest : List Session)
      → Memᴰ s rest
      → Memᴰ s (with_found found rest)
  Memᴰ-with_found s none rest m = m
  Memᴰ-with_found s (some t) rest m = Memᴰ.tail m

  with_found-Memᴰ :
      (s : Session) (found : Option Session) (rest : List Session)
      → Memᴰ s (with_found found rest)
      → (found ≡ some s) ⊎ Memᴰ s rest
  with_found-Memᴰ s none rest m = inr m
  with_found-Memᴰ s (some t) rest (Memᴰ.head e) = inl (ap (λ x. some x) (sym e))
  with_found-Memᴰ s (some t) rest (Memᴰ.tail m) = inr m

  Memᴰ-scan_sessions :
      (id : String) (s : Session) (ids : List String) (all : List Session) (d : Disk Raw)
      → scan_sessions std ids d ≡ ok all
      → elem id ids ≡ true
      → get_session std id d ≡ ok (some s)
      → Memᴰ s all
  unfolding scan_sessions
  Memᴰ-scan_sessions id s [] all d h e g = absurd (ground arith)
  Memᴰ-scan_sessions id s (j ∷ ids) all d h e g = elim (Result-cases (get_session std j d)) [
    | inl (found, p) ↦ elim (Result-cases (scan_sessions std ids d)) [
      | inl (rest, q) ↦
          let whole : with_found found rest ≡ all = ground arith in
          elim (Bool-cases (j == id)) [
            | inl same ↦
                let here : found ≡ some s = ground (arith, eq_iff j id) in
                rw (← whole, here) (Memᴰ.head refl)
            | inr other ↦ rw (← whole) (
                Memᴰ-with_found s found rest
                  (Memᴰ-scan_sessions id s ids rest d q (ground arith) g))
          ]
      | inr (x, q) ↦ absurd (ground arith)
    ]
    | inr (x, p) ↦ absurd (ground arith)
  ]

  scan_sessions-Memᴰ :
      (s : Session) (ids : List String) (all : List Session) (d : Disk Raw)
      → scan_sessions std ids d ≡ ok all
      → Memᴰ s all
      → (id : String) × (get_session std id d ≡ ok (some s))
  unfolding scan_sessions
  scan_sessions-Memᴰ s [] all d h m = let e : all ≡ [] = ground arith in elim (rw e at m) [ ]
  scan_sessions-Memᴰ s (j ∷ ids) all d h m = elim (Result-cases (get_session std j d)) [
    | inl (found, p) ↦ elim (Result-cases (scan_sessions std ids d)) [
      | inl (rest, q) ↦
          let whole : with_found found rest ≡ all = ground arith in
          elim (with_found-Memᴰ s found rest (rw (← whole) at m)) [
            | inl here ↦ (j, p ∙ ap (λ x. ok x) here)
            | inr there ↦ scan_sessions-Memᴰ s ids rest d q there
          ]
      | inr (x, q) ↦ absurd (ground arith)
    ]
    | inr (x, p) ↦ absurd (ground arith)
  ]

  list_matching-Memᴰ :
      (matches : Session → Bool) (rebuilt : Result Error (Unit {0})) (id : String) (s : Session)
      (d : Disk Raw)
      → (list_matching std matches rebuilt d).1 ≡ ok tt
      → get_session std id d ≡ ok (some s)
      → matches s ≡ true
      → Memᴰ (summary_session s) (list_matching std matches rebuilt d).0
  unfolding list_matching
  list_matching-Memᴰ matches rebuilt id s d h g p =
      let names = sort_files (map (λ p. p.0) d.transcripts) in
      elim (Result-cases (scan_sessions std names d)) [
        | inl (all, q) ↦
            rw (q, list_matching)
              (Memᴰ-sort_sessions _ _ (
                Memᴰ-summaries matches s all p (
                  Memᴰ-scan_sessions id s names all d q
                    (elem-sort_files id (map (λ p. p.0) d.transcripts)
                      ∙ get_session-present id s d g)
                    g)))
        | inr (x, q) ↦ absurd (ground (arith, rw (q, list_matching) at h))
      ]

  list_matching-read :
      (matches : Session → Bool) (rebuilt : Result Error (Unit {0})) (x : Session) (d : Disk Raw)
      → Memᴰ x (list_matching std matches rebuilt d).0
      → (id : String) × (s : Session) × (get_session std id d ≡ ok (some s))
        × (matches s ≡ true)
        × (x ≡ summary_session s)
  unfolding list_matching
  list_matching-read matches rebuilt x d m =
      let names = sort_files (map (λ p. p.0) d.transcripts) in
      elim (Result-cases (scan_sessions std names d)) [
        | inl (all, q) ↦
            let (s, m', p, e) =
              summaries-Memᴰ matches x all
                (sort_sessions-Memᴰ x (summaries matches all) (rw (q, list_matching) at m)) in
            let (id, g) = scan_sessions-Memᴰ s names all d q m' in (id, s, g, p, e)
        | inr (y, q) ↦ elim (rw (q, list_matching) at m) [ ]
      ]

  -- A listing that succeeds shows the summaries of the sessions that can be read and match, each
  -- of them and nothing else.
  pub list_matching-shows :
      (matches : Session → Bool) (rebuilt : Result Error (Unit {0})) (x : Session) (d : Disk Raw)
      → (list_matching std matches rebuilt d).1 ≡ ok tt
      → Memᴰ x (list_matching std matches rebuilt d).0 ↔ (
          (id : String) × (s : Session) × (get_session std id d ≡ ok (some s))
          × (matches s ≡ true)
          × (x ≡ summary_session s))
  list_matching-shows matches rebuilt x d h = (
    list_matching-read matches rebuilt x d,
    λ (id, s, g, p, e). rw e (list_matching-Memᴰ matches rebuilt id s d h g p),
  )
