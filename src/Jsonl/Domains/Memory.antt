-- ===== src/Jsonl/Domains/Memory.antt =====
-- The operations on scoped memory together.
use text.Mathlib.Text.{starts_with}
use rakit.Prelude.{
  String, ◌≡◌, ◌∙◌, true, false, ◌&&◌, none, some, List, [], ◌∷◌, ◌==◌, eq_iff, if◌then◌else◌, ok,
  Assoc, find, elem, arith,
}
use rakit.Metadata.Definitions.{MemoryScope, scoped_key}
use rakit.Jsonl.Journal.{Source}
use rakit.Jsonl.Sessions.Files.{NoCut}
use rakit.Jsonl.Domains.{Log, sort_strings, read_latest}
use rakit.Jsonl.Domains.Reads.{elem-sort_strings}
use rakit.Jsonl.Domains.Operations.{
  DomainStd, Bytes, keys_with, set_memory, get_memory, delete_memory, list_memory,
}
use rakit.Jsonl.Domains.Lookup.{append_domain-get_from, delete_domain-get_from}

module _ {Raw : Type 0} (std : DomainStd Raw) where
  -- A value that `SetMemory` stores is what `GetMemory` reads under every scope, id and key that
  -- have the same composite key, and every other value is read as before, where the log can be
  -- read, `SetMemory` reports success, no encoded value is empty and no write is cut short.
  pub set_memory-get_memory :
      (filled : (a : Bytes) (raw : Raw)
        → std.memory.encode a ≡ some raw
        → std.layout.is_empty raw ≡ false)
      (src : Source) (scope scope' : MemoryScope) (id id' key key' : String) (value : Bytes)
      (m : Assoc Raw) (l : Log Raw)
      → read_latest std.layout l.lines ≡ ok m
      → NoCut l.faults
      → (set_memory std src scope id key value l).0 ≡ ok tt
      → get_memory std scope' id' key' (set_memory std src scope id key value l).1 ≡ (
          if scoped_key scope id key == scoped_key scope' id' key'
          then ok (some value)
          else get_memory std scope' id' key' l)
  unfolding set_memory get_memory
  set_memory-get_memory filled src scope scope' id id' key key' value m l h nocut done =
      append_domain-get_from std std.memory (λ v. v) filled src (scoped_key scope id key)
        (scoped_key scope' id' key') value m l h nocut done

  -- A key that `DeleteMemory` deletes is not read any more, and every other value is read as before,
  -- where the log can be read, `DeleteMemory` reports success and no write is cut short.
  pub delete_memory-get_memory :
      (src : Source) (scope scope' : MemoryScope) (id id' key key' : String) (m : Assoc Raw)
      (l : Log Raw)
      → read_latest std.layout l.lines ≡ ok m
      → NoCut l.faults
      → (delete_memory std src scope id key l).0 ≡ ok tt
      → get_memory std scope' id' key' (delete_memory std src scope id key l).1 ≡ (
          if scoped_key scope id key == scoped_key scope' id' key'
          then ok none
          else get_memory std scope' id' key' l)
  unfolding delete_memory get_memory
  delete_memory-get_memory src scope scope' id id' key key' m l h nocut done =
      delete_domain-get_from std std.memory (λ v. v) src (scoped_key scope id key)
        (scoped_key scope' id' key') m l h nocut done

  elem-keys_with :
      (k prefix : String) (m : Assoc Raw)
      → elem k (keys_with prefix m)
        ≡ (starts_with k prefix && elim (find k m) [ none ↦ false | some raw ↦ true ])
  unfolding keys_with find
  elem-keys_with k prefix [] = ground arith
  elem-keys_with k prefix ((j, raw) ∷ m) = ground (arith, eq_iff j k, elem-keys_with k prefix m)

  -- From a log that can be read, ListMemory lists exactly the composite keys that begin with the
  -- composite prefix and have a value in the log.
  pub elem-list_memory :
      (scope : MemoryScope) (id prefix k : String) (keys : List String) (m : Assoc Raw)
      (l : Log Raw)
      → read_latest std.layout l.lines ≡ ok m
      → list_memory std scope id prefix l ≡ ok keys
      → elem k keys ≡ (
          starts_with k (scoped_key scope id prefix)
          && elim (find k m) [ none ↦ false | some raw ↦ true ])
  unfolding list_memory
  elem-list_memory scope id prefix k keys m l h p =
      let q : sort_strings (keys_with (scoped_key scope id prefix) m) ≡ keys =
        ground (arith, rw h at p) in
      rw (← q) (elem-sort_strings k _ ∙ elem-keys_with k (scoped_key scope id prefix) m)
