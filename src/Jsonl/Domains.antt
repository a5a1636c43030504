-- ===== src/Jsonl/Domains.antt =====
-- The logs of put and delete records of storage/metadata/jsonl/domains.go, and their compaction.
pub mod Reads
pub mod Compacted
pub mod Written
pub mod Operations
pub mod Lookup
pub mod Saved
pub mod Servers
pub mod Memory
use Prim.Native.String.{compare}
use Prim.Native.Nat.{Ordering}
use rakit.Prelude.{
  ℕ, ◌+◌, ◌*◌, ◌-◌, String, Bool, true, false, ◌≡◌, Option, none, some, List, [], ◌∷◌, ◌++◌, map,
  ◌==◌, leb, ltb, length, if◌then◌else◌, Result, ok, err, ◌>>=◌, Assoc, find, insert, delete,
}
use rakit.Jsonl.Journal.{
  Error, io_failed, no_payload, unknown_event, Envelope, Line, complete, torn, Fault, fine, lost,
  late, cut, Codec, Source, new_envelope, read_envelopes, next_of,
}

-- `mutableCompactionBytes`
abbrev pub mutable_compaction_bytes : ℕ
mutable_compaction_bytes = 16777216

-- One file `_store/<name>.jsonl`, which has no lines before its first record, and the faults of the
-- writes to come.
pub record Log (Raw : Type 0) : Type 0 where
  pub lines : List (Line Raw)
  pub faults : List Fault

-- What the logs take from the encoding: whether a payload has no bytes, and the size of a file.
pub record Layout (Raw : Type 0) : Type 0 where
  pub is_empty : Raw → Bool
  pub size : List (Line Raw) → ℕ

unfoldable pub insert_sorted : String → List String → List String
insert_sorted k [] = k ∷ []
insert_sorted k (j ∷ l) = elim (compare k j) [ Ordering.gt ↦ j ∷ insert_sorted k l | _ ↦ k ∷ j ∷ l ]

-- `sort.Strings`
unfoldable pub sort_strings : List String → List String
sort_strings [] = []
sort_strings (k ∷ l) = insert_sorted k (sort_strings l)

-- `superseded*2 < len(records)`: whether too few records are superseded.
abbrev pub few_superseded : ℕ → ℕ → Bool
few_superseded records live = ltb ((records - live) * 2) records

module _ {Raw : Type 0} where
  abbrev pub write_line :
      Fault → Envelope Raw → List (Line Raw) → Result Error (Unit {0}) × List (Line Raw)
  write_line fine e ls = (ok tt, ls ++ (complete e ∷ []))
  write_line lost e ls = (err io_failed, ls)
  write_line late e ls = (err io_failed, ls ++ (complete e ∷ []))
  write_line cut e ls = (err io_failed, ls ++ (torn ∷ []))

  -- `appendEnvelope` on a log.
  unfoldable pub append_record : Envelope Raw → Log Raw → Result Error (Unit {0}) × Log Raw
  append_record e l =
      let (f, fs) = next_of l.faults in
      let (r, ls) = write_line f e l.lines in (r, record { lines = ls; faults = fs })

  -- `rewriteEnvelopes`: the file is replaced as a whole or not at all.
  abbrev pub replace_lines :
      Fault → List (Envelope Raw) → List (Line Raw) → Result Error (Unit {0}) × List (Line Raw)
  replace_lines fine es ls = (ok tt, map complete es)
  replace_lines late es ls = (err io_failed, map complete es)
  replace_lines lost es ls = (err io_failed, ls)
  replace_lines cut es ls = (err io_failed, ls)

  unfoldable pub rewrite_envelopes :
      List (Envelope Raw) → Log Raw → Result Error (Unit {0}) × Log Raw
  rewrite_envelopes es l =
      let (f, fs) = next_of l.faults in
      let (r, ls) = replace_lines f es l.lines in (r, record { lines = ls; faults = fs })

  -- The loop that collects the live records of the sorted keys; each key is one of the map's.
  unfoldable pub records_of : List String → Assoc (Envelope Raw) → List (Envelope Raw)
  records_of [] live = []
  records_of (k ∷ ks) live =
      let rest = records_of ks live in elim (find k live) [ none ↦ rest | some e ↦ e ∷ rest ]

module _ {Raw : Type 0} (layout : Layout Raw) where
  -- One round of the loop of `readLatest` and of that of `maybeCompactDomainLocked`, which keep the
  -- payload and the record.
  unfoldable pub live_step :
      {V : Type 0} → (Envelope Raw → V) → Envelope Raw → Assoc V → Result Error (Assoc V)
  live_step keep e live =
      if e.type == "put"
      then (if layout.is_empty e.payload then err no_payload else ok (insert e.key (keep e) live))
      else if e.type == "delete"
      then ok (delete e.key live)
      else err (unknown_event e.type)

  unfoldable pub live_records :
      {V : Type 0} → (Envelope Raw → V) → List (Envelope Raw) → Assoc V → Result Error (Assoc V)
  live_records keep [] live = ok live
  live_records keep (e ∷ es) live = do live' ← live_step keep e live; live_records keep es live'

  -- `readLatest`
  unfoldable pub read_latest : List (Line Raw) → Result Error (Assoc Raw)
  read_latest ls = do records ← read_envelopes ls; live_records (λ e. e.payload) records []

  -- The part of `maybeCompactDomainLocked` that follows its reading.
  unfoldable pub compact_records :
      List (Envelope Raw) → Assoc (Envelope Raw) → Log Raw → Result Error (Unit {0}) × Log Raw
  compact_records records live l =
      if few_superseded (length records) (length live)
      then (ok tt, l)
      else rewrite_envelopes (records_of (sort_strings (map (λ p. p.0) live)) live) l

  -- `maybeCompactDomainLocked`
  unfoldable pub maybe_compact_domain : Log Raw → Result Error (Unit {0}) × Log Raw
  maybe_compact_domain l =
      if leb (layout.size l.lines) mutable_compaction_bytes
      then (ok tt, l)
      else elim (read_envelopes l.lines) [
        | err x ↦ (err x, l)
        | ok records ↦ elim (live_records (λ e. e) records []) [
          | err x ↦ (err x, l)
          | ok live ↦ compact_records records live l
        ]
      ]

  -- `if err := appendEnvelope(path, e); err != nil { return err }`, and the compaction behind it.
  abbrev pub compact_after : Result Error (Unit {0}) × Log Raw → Result Error (Unit {0}) × Log Raw
  compact_after (ok u, l) = maybe_compact_domain l
  compact_after (err x, l) = (err x, l)

  abbrev pub append_and_compact :
      Result Error (Envelope Raw) → Log Raw → Result Error (Unit {0}) × Log Raw
  append_and_compact (ok e) l = compact_after (append_record e l)
  append_and_compact (err x) l = (err x, l)

  -- `appendDomainLocked`
  unfoldable pub append_domain :
      {A : Type 0} → Codec Raw A → Source → String → A → Log Raw → Result Error (Unit {0}) × Log Raw
  append_domain c src key value l = append_and_compact (new_envelope c src 0 "put" "" key value) l

  -- `deleteDomainLocked`
  unfoldable pub delete_domain_record :
      Codec Raw String → Source → String → Log Raw → Result Error (Unit {0}) × Log Raw
  delete_domain_record c src key l = append_and_compact (new_envelope c src 0 "delete" "" key key) l

  -- `deleteDomain`
  unfoldable pub delete_domain :
      Codec Raw String → Source → String → Log Raw → Result Error (Unit {0}) × Log Raw
  delete_domain c src key l = elim (read_latest l.lines) [
    | err x ↦ (err x, l)
    | ok live ↦ elim (find key live) [
      | none ↦ (ok tt, l)
      | some raw ↦ delete_domain_record c src key l
    ]
  ]
