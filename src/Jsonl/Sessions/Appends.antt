-- ===== src/Jsonl/Sessions/Appends.antt =====
-- What a list of appends leaves of a transcript.
use rakit.Prelude.{
  String, ◌≡◌, refl, ap, List, [], ◌∷◌, ◌++◌, Result, ok, err, Result-cases, inl, inr, arith,
}
use rakit.Jsonl.Journal.{Error, Envelope, complete, Disk, append_envelope, append_all}
use rakit.Jsonl.Sessions.Files.{
  NoCut, as_lines, Added, Added-nil, Added-trans, AppendEnd, written, missing, reported,
  append_envelope-AppendEnd, Added-written,
}

module _ {Raw : Type 0} where
  -- How the appends of a list can end: a part of it is written, all of it on success.
  pub record AppendAllEnd (id : String) (es : List (Envelope Raw)) (d : Disk Raw)
      (r : Result Error (Unit {0})) (d' : Disk Raw) : Type 0 where
    pub done : List (Envelope Raw)
    pub rest : List (Envelope Raw)
    pub parts : es ≡ done ++ rest
    pub lines : Added id (as_lines done) d d'
    pub all_done : r ≡ ok tt → rest ≡ []

  -- The first append was made, and those of the list follow.
  append_after :
      (id : String) (e : Envelope Raw) (es : List (Envelope Raw)) (d d₁ d' : Disk Raw)
      (r : Result Error (Unit {0}))
      → Added id (complete e ∷ []) d d₁
      → AppendAllEnd id es d₁ r d'
      → AppendAllEnd id (e ∷ es) d r d'
  append_after id e es d d₁ d' r h a = record {
    done = e ∷ a.done;
    rest = a.rest;
    parts = ap (λ (l : List (Envelope Raw)). e ∷ l) a.parts;
    lines = Added-trans id (complete e ∷ []) (as_lines a.done) d d₁ d' h a.lines;
    all_done = a.all_done;
  }

  failed_at :
      (id : String) (e : Envelope Raw) (es : List (Envelope Raw)) (d d₁ : Disk Raw) (x : Error)
      → AppendEnd id e d (err x) d₁
      → AppendAllEnd id (e ∷ es) d (err x) d₁
  failed_at id e es d d₁ x (written p h) = absurd (ground arith)
  failed_at id e es d d₁ x (missing p h) = record {
    done = [];
    rest = e ∷ es;
    parts = refl;
    lines = h;
    all_done = λ q. absurd (ground arith);
  }
  failed_at id e es d d₁ x (reported p h) = record {
    done = e ∷ [];
    rest = es;
    parts = refl;
    lines = h;
    all_done = λ q. absurd (ground arith);
  }

  pub append_all-AppendAllEnd :
      (id : String) (es : List (Envelope Raw)) (d : Disk Raw)
      → NoCut d.faults
      → AppendAllEnd id es d (append_all id es d).0 (append_all id es d).1
  unfolding append_all
  append_all-AppendAllEnd id [] d h = record {
    done = [];
    rest = [];
    parts = refl;
    lines = Added-nil id d d (λ j. refl);
    all_done = λ q. refl;
  }
  append_all-AppendAllEnd id (e ∷ es) d h =
      let (end, clear) = append_envelope-AppendEnd id e d h in
      let rest = append_all-AppendAllEnd id es (append_envelope id e d).1 clear in
      elim (Result-cases (append_envelope id e d).0) [
        | inl (u, p) ↦
            rw (p, append_all)
              (append_after id e es d (append_envelope id e d).1 _ _
                (Added-written id e d _ u (rw p at end)) rest)
        | inr (x, p) ↦ rw (p, append_all) (failed_at id e es d _ x (rw p at end))
      ]
