-- ===== src/Skill.antt =====
-- skill/registry.go over the filesystem store: the registry of skills.
pub mod Enabled
use rakit.Prelude.{String, Bool, true, false, none, some, List, Result, ok, err}
use rakit.Metadata.Definitions.{SkillDef, SkillEntry}
use rakit.Jsonl.Journal.{Source}
use rakit.Jsonl.Journal as Journal
use rakit.Jsonl.Domains.{Log}
use rakit.Jsonl.Domains.Operations.{DomainStd, save_skill, get_skill, list_skills, delete_skill}

pub data Error : Type 0 where
  store_failed : Journal.Error → Error
  not_found : String → Error

abbrev pub of_store : {A : Type 0} → Result Journal.Error A → Result Error A
of_store (ok a) = ok a
of_store (err x) = err (store_failed x)

module _ {Raw : Type 0} (std : DomainStd Raw) where
  -- `List`, whose entries have the fields of the store's.
  unfoldable pub list : Log Raw → Result Error (List SkillEntry)
  list l = of_store (list_skills std l)

  -- `Unregister`
  unfoldable pub unregister_skill : Source → String → Log Raw → Result Error (Unit {0}) × Log Raw
  unregister_skill src name l = let (r, l') = delete_skill std src name l in (of_store r, l')

  -- What `Enable` and `Disable` have in common.
  abbrev pub set_enabled : Bool → Source → String → Log Raw → Result Error (Unit {0}) × Log Raw
  set_enabled b src name l = elim (get_skill std name l) [
    | err x ↦ (err (store_failed x), l)
    | ok none ↦ (err (not_found name), l)
    | ok (some d) ↦
        let (r, l') = save_skill std src (record d { enabled = b }) l in (of_store r, l')
  ]

  unfoldable pub enable : Source → String → Log Raw → Result Error (Unit {0}) × Log Raw
  enable src name l = set_enabled true src name l

  unfoldable pub disable : Source → String → Log Raw → Result Error (Unit {0}) × Log Raw
  disable src name l = set_enabled false src name l
