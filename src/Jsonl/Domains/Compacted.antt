-- ===== src/Jsonl/Domains/Compacted.antt =====
-- The compaction of a log.
use rakit.Prelude.{
  String, ◌≡◌, refl, true, false, none, some, List, [], ◌∷◌, map, leb, length, ok, Result-cases,
  Bool-cases, inl, inr, Assoc, find, elem, arith,
}
use rakit.Jsonl.Journal.{
  Envelope, Line, complete, torn, Fault, fine, lost, late, cut, next_of, read_envelopes,
}
use rakit.Jsonl.Changes.Applied.{AllReadable}
use rakit.Jsonl.Sessions.Files.{read_cons, read_envelopes-append, as_lines}
use rakit.Jsonl.Domains.{
  Layout, Log, sort_strings, records_of, live_records, read_latest, few_superseded,
  mutable_compaction_bytes, rewrite_envelopes, replace_lines, compact_records, maybe_compact_domain,
}
use rakit.Jsonl.Domains.Reads.{
  Same, AllPuts, elem-sort_strings, live_records-Kept, live_records-AllPuts,
  live_records-records_of, AllReadable-records_of,
}

elem-keys :
    {V : Type 0} (j : String) (m : Assoc V)
    → elem j (map (λ p. p.0) m) ≡ elim (find j m) [ none ↦ false | some v ↦ true ]
unfolding find
elem-keys j [] = refl
elem-keys j ((k, v) ∷ m) = ground (arith, elem-keys j m)

module _ {Raw : Type 0} (layout : Layout Raw) where
  -- A reader finds in the file what it finds in the map.
  abbrev pub Holds : Assoc Raw → List (Line Raw) → Type 0
  Holds live ls = (live' : Assoc Raw) × (read_latest layout ls ≡ ok live') × Same live' live

  AllReadable-read :
      (ls : List (Line Raw)) (es : List (Envelope Raw)) → read_envelopes ls ≡ ok es → AllReadable es
  unfolding read_envelopes
  AllReadable-read [] es h = let p : es ≡ [] = ground arith in rw p tt
  AllReadable-read (torn ∷ ls) es h = absurd (ground arith)
  AllReadable-read (complete e ∷ ls) es h =
      let (rest, c, q, p) = read_cons e ls es h in rw p (c, AllReadable-read ls rest q)

  -- The file that a compaction writes.
  Holds-compacted :
      (ls : List (Line Raw)) (es : List (Envelope Raw)) (m : Assoc Raw)
      (live : Assoc (Envelope Raw))
      → read_envelopes ls ≡ ok es
      → live_records layout (λ e. e.payload) es [] ≡ ok m
      → live_records layout (λ e. e) es [] ≡ ok live
      → Holds m (as_lines (records_of (sort_strings (map (λ p. p.0) live)) live))
  unfolding read_latest find
  Holds-compacted ls es m live r p q =
      let ks = sort_strings (map (λ p. p.0) live) in
      let puts : AllPuts layout live =
        live_records-AllPuts layout es [] live (AllReadable-read ls es r)
          (λ k e f. absurd (ground arith)) q in
      let (m', h, o) = live_records-records_of layout ks live [] puts in
      (
        m',
        rw
            (read_envelopes-append [] [] (records_of ks live) (unfold read_envelopes in refl)
              (AllReadable-records_of layout ks live puts))
            h,
        λ k. ground (
          arith,
          o k,
          elem-sort_strings k (map (λ p. p.0) live),
          elem-keys k live,
          live_records-Kept layout es [] m [] live (λ k. refl) p q k,
        ),
      )

  Holds-replace_lines :
      (m : Assoc Raw) (f : Fault) (es : List (Envelope Raw)) (ls : List (Line Raw))
      → Holds m (as_lines es)
      → Holds m ls
      → Holds m (replace_lines f es ls).1
  Holds-replace_lines m fine es ls new old = new
  Holds-replace_lines m late es ls new old = new
  Holds-replace_lines m lost es ls new old = old
  Holds-replace_lines m cut es ls new old = old

  compact_records-Holds :
      (m : Assoc Raw) (l : Log Raw) (es : List (Envelope Raw)) (live : Assoc (Envelope Raw))
      → read_envelopes l.lines ≡ ok es
      → live_records layout (λ e. e.payload) es [] ≡ ok m
      → live_records layout (λ e. e) es [] ≡ ok live
      → Holds m l.lines
      → Holds m (compact_records layout es live l).1.lines
  unfolding compact_records rewrite_envelopes
  compact_records-Holds m l es live r p q old =
      elim (Bool-cases (few_superseded (length es) (length live))) [
        | inl few ↦ rw few old
        | inr many ↦ rw many (
            Holds-replace_lines m (next_of l.faults).0 _ l.lines
              (Holds-compacted l.lines es m live r p q) old)
      ]

  -- Whatever becomes of its write, a compaction of a log that can be read leaves what a reader of
  -- the log finds as it was.
  pub maybe_compact_domain-Holds :
      (m : Assoc Raw) (l : Log Raw)
      → read_latest layout l.lines ≡ ok m
      → Holds m (maybe_compact_domain layout l).1.lines
  unfolding maybe_compact_domain
  maybe_compact_domain-Holds m l h =
      elim (Bool-cases (leb (layout.size l.lines) mutable_compaction_bytes)) [
        | inl small ↦ rw (small, maybe_compact_domain) old
        | inr large ↦ elim (Result-cases (read_envelopes l.lines)) [
          | inl (es, r) ↦ elim (Result-cases (live_records layout (λ e. e) es [])) [
            | inl (live, q) ↦
                rw (large, r, q, maybe_compact_domain)
                  (compact_records-Holds m l es live r (unfold read_latest in rw r at h) q old)
            | inr (x, q) ↦ rw (large, r, q, maybe_compact_domain) old
          ]
          | inr (x, r) ↦ rw (large, r, maybe_compact_domain) old
        ]
      ]
    where
      old : Holds m l.lines
      old = (m, h, λ k. refl)
