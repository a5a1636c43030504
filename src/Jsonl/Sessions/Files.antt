-- ===== src/Jsonl/Sessions/Files.antt =====
-- What the files hold after appends, and what is read from them.
use mathlib.Core.List.{append-nil, append_assoc}
use rakit.Prelude.{
  String, ◌≡◌, refl, false, List, [], ◌∷◌, ◌++◌, map, ◌==◌, eq_refl, eq_iff, if◌then◌else◌, Result,
  ok, err, Result-cases, inl, inr, arith, find-insert,
}
use rakit.Jsonl.Journal.{
  Error, malformed_record, io_failed, Envelope, Line, complete, torn, Fault, fine, lost, late, cut,
  Disk, check_envelope, read_envelopes, lines_of, next_of, write_under, add_line, append_envelope,
}
use rakit.Jsonl.Changes.Applied.{AllReadable}
use rakit.Jsonl.Replay.Fresh.{IsFresh}

-- No write to come is cut short.
abbrev pub NoCut : List Fault → Type 0
NoCut [] = Unit
NoCut (cut ∷ fs) = ⊥
NoCut (_ ∷ fs) = NoCut fs

pub NoCut-next_of :
    (fs : List Fault) → NoCut fs → NoCut ((next_of fs).0 ∷ []) × NoCut (next_of fs).1
unfolding next_of
NoCut-next_of [] h = (tt, tt)
NoCut-next_of (cut ∷ fs) h = absurd h
NoCut-next_of (fine ∷ fs) h = (tt, h)
NoCut-next_of (lost ∷ fs) h = (tt, h)
NoCut-next_of (late ∷ fs) h = (tt, h)

module _ {Raw : Type 0} where
  abbrev pub as_lines : List (Envelope Raw) → List (Line Raw)
  as_lines = map complete

  -- No whole record of the file carries the transaction id.
  abbrev pub IsFreshIn : String → List (Line Raw) → Type 0
  IsFreshIn t [] = Unit
  IsFreshIn t (torn ∷ ls) = IsFreshIn t ls
  IsFreshIn t (complete e ∷ ls) = ((e.transaction_id == t) ≡ false) × IsFreshIn t ls

  check_envelope-eq : (e e' : Envelope Raw) → check_envelope e ≡ ok e' → e ≡ e'
  unfolding check_envelope
  check_envelope-eq e e' h = ground arith

  pub read_cons :
      (e : Envelope Raw) (ls : List (Line Raw)) (rs : List (Envelope Raw))
      → read_envelopes (complete e ∷ ls) ≡ ok rs
      → (rest : List (Envelope Raw)) × (check_envelope e ≡ ok e)
        × (read_envelopes ls ≡ ok rest)
        × (rs ≡ e ∷ rest)
  unfolding read_envelopes
  read_cons e ls rs h = elim (Result-cases (check_envelope e)) [
    | inl (e', p) ↦
        let q = check_envelope-eq e e' p in
        elim (Result-cases (read_envelopes ls)) [
          | inl (rest, r) ↦ (rest, rw (← q) at p, r, ground arith)
          | inr (x, r) ↦ absurd (ground arith)
        ]
    | inr (x, p) ↦ absurd (ground arith)
  ]

  pub IsFresh-of_file :
      (t : String) (ls : List (Line Raw)) (rs : List (Envelope Raw))
      → read_envelopes ls ≡ ok rs
      → IsFreshIn t ls
      → IsFresh t rs
  unfolding read_envelopes
  IsFresh-of_file t [] rs h f = let p : rs ≡ [] = ground arith in rw p tt
  IsFresh-of_file t (torn ∷ ls) rs h f = absurd (ground arith)
  IsFresh-of_file t (complete e ∷ ls) rs h f =
      let (rest, _, q, p) = read_cons e ls rs h in rw p (f.0, IsFresh-of_file t ls rest q f.1)

  read_written : (es : List (Envelope Raw)) → AllReadable es → read_envelopes (as_lines es) ≡ ok es
  unfolding read_envelopes
  read_written [] a = refl
  read_written (e ∷ es) a = rw (a.0, read_written es a.1)

  pub read_envelopes-append :
      (ls : List (Line Raw)) (rs es : List (Envelope Raw))
      → read_envelopes ls ≡ ok rs
      → AllReadable es
      → read_envelopes (ls ++ as_lines es) ≡ ok (rs ++ es)
  unfolding read_envelopes
  read_envelopes-append [] rs es h a = let p : rs ≡ [] = ground arith in rw p (read_written es a)
  read_envelopes-append (torn ∷ ls) rs es h a = absurd (ground arith)
  read_envelopes-append (complete e ∷ ls) rs es h a =
      let (rest, r, q, p) = read_cons e ls rs h in rw (p, r, read_envelopes-append ls rest es q a)

  -- A file with a record that was cut short cannot be read.
  pub read_envelopes-torn :
      (ls rest : List (Line Raw)) (rs : List (Envelope Raw))
      → read_envelopes ls ≡ ok rs
      → read_envelopes (ls ++ torn ∷ rest) ≡ err malformed_record
  unfolding read_envelopes
  read_envelopes-torn [] rest rs h = refl
  read_envelopes-torn (torn ∷ ls) rest rs h = absurd (ground arith)
  read_envelopes-torn (complete e ∷ ls) rest rs h =
      let (rs', r, q, p) = read_cons e ls rs h in rw (r, read_envelopes-torn ls rest rs' q)

  pub lines_of-add_line :
      (id j : String) (l : Line Raw) (d : Disk Raw)
      → lines_of j (add_line id l d) ≡ (if id == j then lines_of id d ++ l ∷ [] else lines_of j d)
  unfolding lines_of add_line
  lines_of-add_line id j l d =
      ground (arith, find-insert id j (lines_of id d ++ l ∷ []) d.transcripts)

  -- The transcript of the session has these lines more, and every other is as it was.
  abbrev pub Added : String → List (Line Raw) → Disk Raw → Disk Raw → Type 0
  Added id ls d d' =
      (j : String) → lines_of j d' ≡ (if id == j then lines_of id d ++ ls else lines_of j d)

  pub Added-nil :
      (id : String) (d d' : Disk Raw)
      → ((j : String) → lines_of j d' ≡ lines_of j d)
      → Added id [] d d'
  Added-nil id d d' h j = ground (arith, h j, eq_iff id j, append-nil (lines_of id d))

  pub Added-trans :
      (id : String) (xs ys : List (Line Raw)) (d e f : Disk Raw)
      → Added id xs d e
      → Added id ys e f
      → Added id (xs ++ ys) d f
  Added-trans id xs ys d e f h k j =
      ground (arith, h j, k j, h id, eq_refl id, append_assoc (lines_of id d) xs ys)

  -- How one append can end.
  pub data AppendEnd (id : String) (e : Envelope Raw) (d : Disk Raw) (r : Result Error (Unit {0}))
      (d' : Disk Raw) : Type 0 where
    written : r ≡ ok tt → Added id (complete e ∷ []) d d' → AppendEnd id e d r d'
    missing : r ≡ err io_failed → Added id [] d d' → AppendEnd id e d r d'
    reported : r ≡ err io_failed → Added id (complete e ∷ []) d d' → AppendEnd id e d r d'

  write_under-AppendEnd :
      (f : Fault) (id : String) (e : Envelope Raw) (d : Disk Raw)
      → NoCut (f ∷ [])
      → AppendEnd id e d (write_under f id e d).0 (write_under f id e d).1
  write_under-AppendEnd fine id e d h = written refl (λ j. lines_of-add_line id j (complete e) d)
  write_under-AppendEnd lost id e d h = missing refl (Added-nil id d d (λ j. refl))
  write_under-AppendEnd late id e d h = reported refl (λ j. lines_of-add_line id j (complete e) d)
  write_under-AppendEnd cut id e d h = absurd h

  faults-write_under :
      (f : Fault) (id : String) (e : Envelope Raw) (d : Disk Raw)
      → (write_under f id e d).1.faults ≡ d.faults
  unfolding add_line
  faults-write_under fine id e d = refl
  faults-write_under lost id e d = refl
  faults-write_under late id e d = refl
  faults-write_under cut id e d = refl

  AppendEnd-faults :
      (fs : List Fault) (id : String) (e : Envelope Raw) (d : Disk Raw)
      (r : Result Error (Unit {0})) (d' : Disk Raw)
      → AppendEnd id e (record d { faults = fs }) r d'
      → AppendEnd id e d r d'
  unfolding lines_of
  AppendEnd-faults fs id e d r d' (written p h) = written p h
  AppendEnd-faults fs id e d r d' (missing p h) = missing p h
  AppendEnd-faults fs id e d r d' (reported p h) = reported p h

  pub append_envelope-AppendEnd :
      (id : String) (e : Envelope Raw) (d : Disk Raw)
      → NoCut d.faults
      → AppendEnd id e d (append_envelope id e d).0 (append_envelope id e d).1
        × NoCut (append_envelope id e d).1.faults
  unfolding append_envelope
  append_envelope-AppendEnd id e d h =
      let (f, fs) = next_of d.faults in
      let (now, later) = NoCut-next_of d.faults h in
      (
        AppendEnd-faults fs id e d _ _
            (write_under-AppendEnd f id e (record d { faults = fs }) now),
        rw (faults-write_under f id e (record d { faults = fs })) later,
      )

  pub Added-written :
      (id : String) (e : Envelope Raw) (d d₁ : Disk Raw) (u : Unit {0})
      → AppendEnd id e d (ok u) d₁
      → Added id (complete e ∷ []) d d₁
  Added-written id e d d₁ u (written p h) = h
  Added-written id e d d₁ u (missing p h) = absurd (ground arith)
  Added-written id e d d₁ u (reported p h) = absurd (ground arith)
