-- ===== src/Jsonl/Domains/Lookup.antt =====
-- What a reader of a log gets after a put or a delete.
use rakit.Prelude.{
  String, ◌≡◌, refl, ◌∙◌, sym, Bool-cases, false, none, some, ◌==◌, if◌then◌else◌, Result, ok, err,
  inl, inr, Assoc, find, insert, delete, find-insert, find-delete, arith,
}
use rakit.Jsonl.Journal.{Error, Codec, Source}
use rakit.Jsonl.Sessions.Files.{NoCut}
use rakit.Jsonl.Domains.{Log, read_latest, append_domain, delete_domain}
use rakit.Jsonl.Domains.Compacted.{Holds}
use rakit.Jsonl.Domains.Written.{PutEnd, WriteEnd, append_domain-PutEnd, delete_domain-WriteEnd}
use rakit.Jsonl.Domains.Operations.{DomainStd, decode_found, get_from}

module _ {Raw : Type 0} (std : DomainStd Raw) where
  pub get_from-Holds :
      {A : Type 0} (c : Codec Raw A) (read : A → A) (j : String) (m : Assoc Raw) (l : Log Raw)
      → Holds std.layout m l.lines
      → get_from std c read j l ≡ decode_found c read j (find j m)
  unfolding get_from
  get_from-Holds c read j m l (live, p, q) = rw (p, q j) refl

  module _ {A : Type 0} (c : Codec Raw A) (read : A → A) where
    PutEnd-get_from :
        (key j : String) (value : A) (m : Assoc Raw) (l : Log Raw)
        → PutEnd std.layout c key value m (ok tt, l)
        → get_from std c read j l
          ≡ (if key == j then ok (some (read value)) else decode_found c read j (find j m))
    PutEnd-get_from key j value m l (raw, d, h) = elim (Bool-cases (key == j)) [
      | inl same ↦
          get_from-Holds c read j (insert key raw m) l h
          ∙ rw (find-insert key j raw m, same, d) refl
      | inr other ↦
          get_from-Holds c read j (insert key raw m) l h ∙ rw (find-insert key j raw m, other) refl
    ]

    pub append_domain-get_from :
        (filled : (a : A) (raw : Raw) → c.encode a ≡ some raw → std.layout.is_empty raw ≡ false)
        (src : Source) (key j : String) (value : A) (m : Assoc Raw) (l : Log Raw)
        → read_latest std.layout l.lines ≡ ok m
        → NoCut l.faults
        → (append_domain std.layout c src key value l).0 ≡ ok tt
        → get_from std c read j (append_domain std.layout c src key value l).1
          ≡ (if key == j then ok (some (read value)) else get_from std c read j l)
    append_domain-get_from filled src key j value m l h nocut done =
        reported (append_domain std.layout c src key value l)
          (append_domain-PutEnd std.layout c filled src key value m l h nocut) done
      where
        reported :
            (r : Result Error (Unit {0}) × Log Raw)
            → PutEnd std.layout c key value m r
            → r.0 ≡ ok tt
            → get_from std c read j r.1
              ≡ (if key == j then ok (some (read value)) else get_from std c read j l)
        reported (ok u, l') e p =
            PutEnd-get_from key j value m l' e
            ∙ rw (get_from-Holds c read j m l (m, h, λ k. refl)) refl
        reported (err x, l') e p = absurd (ground arith)

    pub delete_domain-get_from :
        (src : Source) (key j : String) (m : Assoc Raw) (l : Log Raw)
        → read_latest std.layout l.lines ≡ ok m
        → NoCut l.faults
        → (delete_domain std.layout std.key_object src key l).0 ≡ ok tt
        → get_from std c read j (delete_domain std.layout std.key_object src key l).1
          ≡ (if key == j then ok none else get_from std c read j l)
    delete_domain-get_from src key j m l h nocut done =
        reported (delete_domain std.layout std.key_object src key l)
          (delete_domain-WriteEnd std.layout std.key_object src key m l h nocut) done
      where
        reported :
            (r : Result Error (Unit {0}) × Log Raw)
            → WriteEnd std.layout m (delete key m) r
            → r.0 ≡ ok tt
            → get_from std c read j r.1 ≡ (if key == j then ok none else get_from std c read j l)
        reported (err x, l') e p = absurd (ground arith)
        reported (ok u, l') e p = elim (Bool-cases (key == j)) [
          | inl same ↦
              get_from-Holds c read j (delete key m) l' e ∙ rw (find-delete key j m, same) refl
          | inr other ↦
              get_from-Holds c read j (delete key m) l' e
              ∙ rw (find-delete key j m, other)
                  (sym (get_from-Holds c read j m l (m, h, λ k. refl)))
        ]
