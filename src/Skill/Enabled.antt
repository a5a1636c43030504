-- ===== src/Skill/Enabled.antt =====
-- `Enable` and `Disable` with `GetSkill`.
use rakit.Prelude.{
  String, ◌≡◌, Bool, true, false, some, ◌==◌, if◌then◌else◌, Result, ok, err, Result-cases, inl,
  inr, arith,
}
use rakit.Metadata.Definitions.{SkillDef}
use rakit.Jsonl.Journal.{Error, Codec, Source}
use rakit.Jsonl.Sessions.Files.{NoCut}
use rakit.Jsonl.Domains.{Log, read_latest, append_domain}
use rakit.Jsonl.Domains.Operations.{DomainStd, get_from, save_skill, get_skill}
use rakit.Jsonl.Domains.Lookup.{append_domain-get_from}
use rakit.Skill.{of_store, set_enabled, enable, disable}

-- `Enable` for `true`, and `Disable` for `false`.
abbrev pub switch :
    {Raw : Type 0}
    → DomainStd Raw
    → Bool
    → Source
    → String
    → Log Raw
    → Result rakit.Skill.Error (Unit {0}) × Log Raw
switch std true = enable std
switch std false = disable std

module _ {Raw : Type 0} (std : DomainStd Raw)
    (filled : (a : SkillDef) (raw : Raw)
      → std.skill.encode a ≡ some raw
      → std.layout.is_empty raw ≡ false) where
  unread :
      (c : Codec Raw SkillDef) (name : String) (d : SkillDef) (l : Log Raw) (x : Error)
      → read_latest std.layout l.lines ≡ err x
      → get_from std c (λ s. s) name l ≡ ok (some d)
      → ⊥
  unfolding get_from
  unread c name d l x h was = ground arith

  set_enabled-get_skill :
      (b : Bool) (src : Source) (name j : String) (d : SkillDef) (l : Log Raw)
      → NoCut l.faults
      → get_skill std name l ≡ ok (some d)
      → d.name ≡ name
      → (set_enabled std b src name l).0 ≡ ok tt
      → get_skill std j (set_enabled std b src name l).1
        ≡ (if name == j then ok (some (record d { enabled = b })) else get_skill std j l)
  unfolding get_skill save_skill
  set_enabled-get_skill b src name j d l nocut was named done =
      elim (Result-cases (read_latest std.layout l.lines)) [
        | inl (m, h) ↦
            let stored =
              append_domain std.layout std.skill src d.name (record d { enabled = b }) l in
            let done' : of_store stored.0 ≡ ok tt = rw (was, set_enabled) at done in
            let saved : stored.0 ≡ ok tt = ground arith in
            rw (was, set_enabled)
              (rw (← named) (
                append_domain-get_from std std.skill (λ s. s) filled src d.name j
                  (record d { enabled = b }) m l h nocut saved))
        | inr (x, h) ↦ absurd (unread std.skill name d l x h was)
      ]

  -- After an Enable or a Disable that reports success a reader gets the definition that was stored
  -- under the name, enabled or not enabled and otherwise as it was, and every other definition as
  -- it was. The stored definition has the name that it is stored under, no encoded definition is
  -- empty and no write is cut short.
  pub switch-get_skill :
      (b : Bool) (src : Source) (name j : String) (d : SkillDef) (l : Log Raw)
      → NoCut l.faults
      → get_skill std name l ≡ ok (some d)
      → d.name ≡ name
      → (switch std b src name l).0 ≡ ok tt
      → get_skill std j (switch std b src name l).1
        ≡ (if name == j then ok (some (record d { enabled = b })) else get_skill std j l)
  unfolding enable disable
  switch-get_skill true src name j d l = set_enabled-get_skill true src name j d l
  switch-get_skill false src name j d l = set_enabled-get_skill false src name j d l
