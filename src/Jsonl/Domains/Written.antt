-- ===== src/Jsonl/Domains/Written.antt =====
-- Puts and deletes in a log, as its readers see them.
use rakit.Prelude.{
  ℕ, ◌∙◌, ◌⊎◌, String, ◌≡◌, refl, false, some, List, [], ◌∷◌, ◌++◌, eq_iff, Result, ok, err,
  Result-cases, Option-cases, inl, inr, Assoc, find, insert, delete, find-delete, arith,
}
use rakit.Jsonl.Journal.{
  Error, Envelope, Line, complete, Fault, fine, lost, late, cut, next_of, check_envelope,
  read_envelopes, Codec, Source, new_envelope,
}
use rakit.Jsonl.Changes.Events.{new_envelope-IsEnvelope}
use rakit.Jsonl.Sessions.Files.{read_envelopes-append, NoCut, NoCut-next_of}
use rakit.Jsonl.Domains.{
  Layout, Log, live_step, live_records, read_latest, append_record, write_line, append_and_compact,
  compact_after, append_domain, delete_domain_record, delete_domain,
}
use rakit.Jsonl.Domains.Reads.{Same, live_records-append}
use rakit.Jsonl.Domains.Compacted.{Holds, maybe_compact_domain-Holds}

new_envelope-fields :
    {Raw A : Type 0} (c : Codec Raw A) (src : Source) (i : ℕ) (type id key : String) (a : A)
    (e : Envelope Raw)
    → new_envelope c src i type id key a ≡ ok e
    → (e.type ≡ type) × (e.key ≡ key) × (c.encode a ≡ some e.payload)
unfolding new_envelope
new_envelope-fields c src i type id key a e h = elim (Option-cases (c.encode a)) [
  | inl p ↦ absurd (ground arith)
  | inr (raw, p) ↦ (ground arith, ground arith, ground arith)
]

module _ {Raw : Type 0} (layout : Layout Raw) where
  Holds-append :
      (m m' : Assoc Raw) (e : Envelope Raw) (ls : List (Line Raw))
      → read_latest layout ls ≡ ok m
      → check_envelope e ≡ ok e
      → live_step layout (λ f. f.payload) e m ≡ ok m'
      → read_latest layout (ls ++ (complete e ∷ [])) ≡ ok m'
  unfolding read_latest live_records
  Holds-append m m' e ls h c p = elim (Result-cases (read_envelopes ls)) [
    | inl (es, r) ↦
        rw
          (
            read_envelopes-append ls es (e ∷ []) r (c, tt),
            live_records-append layout (λ f. f.payload) es (e ∷ []) [] m (rw r at h),
            p,
          )
          refl
    | inr (x, r) ↦ absurd (ground arith)
  ]

  -- The log holds the new map where the write reports success, and else one of the two.
  abbrev pub WriteEnd : Assoc Raw → Assoc Raw → Result Error (Unit {0}) × Log Raw → Type 0
  WriteEnd m m' (ok u, l) = Holds layout m' l.lines
  WriteEnd m m' (err x, l) = Holds layout m l.lines ⊎ Holds layout m' l.lines

  Holds-Same :
      (m m' : Assoc Raw) (ls : List (Line Raw)) → Same m m' → Holds layout m ls → Holds layout m' ls
  Holds-Same m m' ls same (live, p, q) = (live, p, λ k. q k ∙ same k)

  WriteEnd-Holds :
      (m m' : Assoc Raw) (r : Result Error (Unit {0}) × Log Raw)
      → Holds layout m' r.1.lines
      → WriteEnd m m' r
  WriteEnd-Holds m m' (ok u, l) h = h
  WriteEnd-Holds m m' (err x, l) h = inr h

  append_and_compact-WriteEnd :
      (m m' : Assoc Raw) (e : Envelope Raw) (l : Log Raw)
      → read_latest layout l.lines ≡ ok m
      → NoCut l.faults
      → check_envelope e ≡ ok e
      → live_step layout (λ f. f.payload) e m ≡ ok m'
      → WriteEnd m m' (append_and_compact layout (ok e) l)
  unfolding append_record
  append_and_compact-WriteEnd m m' e l h nocut c p =
      go (next_of l.faults).0 (next_of l.faults).1 (NoCut-next_of l.faults nocut).0
    where
      old : Holds layout m l.lines
      old = (m, h, λ k. refl)

      written : read_latest layout (l.lines ++ (complete e ∷ [])) ≡ ok m'
      written = Holds-append m m' e l.lines h c p

      go :
          (f : Fault) (fs : List Fault)
          → NoCut (f ∷ [])
          → WriteEnd m m' (
              compact_after layout (
                (write_line f e l.lines).0,
                record { lines = (write_line f e l.lines).1; faults = fs },
              ))
      go fine fs n = WriteEnd-Holds m m' _ (maybe_compact_domain-Holds layout m' _ written)
      go lost fs n = inl old
      go late fs n = inr (m', written, λ k. refl)
      go cut fs n = absurd n

  -- The outcome of a put: on success a reader finds the value under its key and every other key as
  -- before; on an error it finds that, or all as before.
  abbrev pub PutEnd :
      {A : Type 0}
      → Codec Raw A
      → String
      → A
      → Assoc Raw
      → Result Error (Unit {0}) × Log Raw
      → Type 0
  PutEnd c key value m (ok u, l) =
      (raw : Raw) × (c.decode raw ≡ some value) × Holds layout (insert key raw m) l.lines
  PutEnd c key value m (err x, l) =
      Holds layout m l.lines
      ⊎ ((raw : Raw) × (c.decode raw ≡ some value) × Holds layout (insert key raw m) l.lines)

  module _ {A : Type 0} (c : Codec Raw A)
      (filled : (a : A) (raw : Raw) → c.encode a ≡ some raw → layout.is_empty raw ≡ false) where
    WriteEnd-PutEnd :
        (key : String) (value : A) (m : Assoc Raw) (raw : Raw)
        (r : Result Error (Unit {0}) × Log Raw)
        → c.decode raw ≡ some value
        → WriteEnd m (insert key raw m) r
        → PutEnd c key value m r
    WriteEnd-PutEnd key value m raw (ok u, l) d h = (raw, d, h)
    WriteEnd-PutEnd key value m raw (err x, l) d (inl h) = inl h
    WriteEnd-PutEnd key value m raw (err x, l) d (inr h) = inr (raw, d, h)

    -- A put into a log that can be read, of which no write is cut short, where no encoded value is empty: on success
    -- a reader finds the value under its key and every other key as before; on an error it finds
    -- either that or all as before, though the log may have been compacted.
    pub append_domain-PutEnd :
        (src : Source) (key : String) (value : A) (m : Assoc Raw) (l : Log Raw)
        → read_latest layout l.lines ≡ ok m
        → NoCut l.faults
        → PutEnd c key value m (append_domain layout c src key value l)
    unfolding append_domain live_step
    append_domain-PutEnd src key value m l h nocut =
        made (new_envelope c src 0 "put" "" key value) refl
      where
        made :
            (r : Result Error (Envelope Raw))
            → new_envelope c src 0 "put" "" key value ≡ r
            → PutEnd c key value m (append_and_compact layout r l)
        made (err x) q = inl (m, h, λ k. refl)
        made (ok e) q =
            let (kind, keyed, encoded) = new_envelope-fields c src 0 "put" "" key value e q in
            WriteEnd-PutEnd key value m e.payload _ (c.decode-encode value e.payload encoded) (
              append_and_compact-WriteEnd m (insert key e.payload m) e l h nocut
                (new_envelope-IsEnvelope c src 0 "put" "" key e.transaction_id value e refl
                  q).readable
                (rw (kind, keyed, filled value e.payload encoded) refl))

  -- A delete in a log that can be read, of which no write is cut short: on success the key is gone
  -- and every other key is as before; on an error a reader finds either that or all as before.
  pub delete_domain-WriteEnd :
      (c : Codec Raw String) (src : Source) (key : String) (m : Assoc Raw) (l : Log Raw)
      → read_latest layout l.lines ≡ ok m
      → NoCut l.faults
      → WriteEnd m (delete key m) (delete_domain layout c src key l)
  unfolding delete_domain delete_domain_record live_step
  delete_domain-WriteEnd c src key m l h nocut = elim (Option-cases (find key m)) [
    | inl absent ↦
        rw (h, absent, delete_domain)
          (m, h, λ k. ground (arith, find-delete key k m, eq_iff key k, absent))
    | inr (raw, present) ↦
        rw (h, present, delete_domain) (made (new_envelope c src 0 "delete" "" key key) refl)
  ]
    where
      made :
          (r : Result Error (Envelope Raw))
          → new_envelope c src 0 "delete" "" key key ≡ r
          → WriteEnd m (delete key m) (append_and_compact layout r l)
      made (err x) q = inl (m, h, λ k. refl)
      made (ok e) q =
          let (kind, keyed, encoded) = new_envelope-fields c src 0 "delete" "" key key e q in
          append_and_compact-WriteEnd m (delete key m) e l h nocut
            (new_envelope-IsEnvelope c src 0 "delete" "" key e.transaction_id key e refl q).readable
            (rw (kind, keyed) refl)
