-- ===== src/Tests/Domains.antt =====
-- The theorems on the logs of definitions and of memory, at logs that are compacted.
use rakit.Prelude.{◌≡◌, refl, true, false, some, [], ◌∷◌, ok, find, insert, delete, Assoc}
use rakit.Metadata.Definitions.{user, scoped_key}
use rakit.Jsonl.Journal.{Source, new_id, new_envelope, check_envelope, read_envelopes, next_of}
use rakit.Jsonl.Domains.{
  insert_sorted, sort_strings, records_of, append_record, rewrite_envelopes, live_step,
  live_records, read_latest, compact_records, maybe_compact_domain, append_domain,
  delete_domain_record, delete_domain,
}
use rakit.Jsonl.Domains.Operations.{
  tool_maps, keys_with, get_from, save_tool, get_tool, set_memory, get_memory, delete_memory,
  list_memory, save_mcp_server, get_mcp_server,
}
use rakit.Jsonl.Domains.Compacted.{Holds, maybe_compact_domain-Holds}
use rakit.Jsonl.Domains.Written.{PutEnd, WriteEnd, append_domain-PutEnd, delete_domain-WriteEnd}
use rakit.Jsonl.Domains.Saved.{save_tool-get_tool, save_tool-identity}
use rakit.Jsonl.Domains.Memory.{set_memory-get_memory}
use rakit.Tests.Store.{at_time}
use rakit.Metadata.{Fields}
use rakit.Metadata.Definitions.{SkillDef}
use rakit.Jsonl.Domains.{Log}
use rakit.Jsonl.Domains.Operations.{get_skill, save_skill}
use rakit.Skill.{enable}
use rakit.Skill.Enabled.{switch-get_skill}
use rakit.Tests.Logs.{put_of, skill_payload}
use rakit.Tests.Logs.{
  Payload, tool_payload, memory_payload, domains, large_files, search, tools_log, memory_log,
}

-- The `unfolding` line opens the code of the logs.
log_code : Unit {0}
unfolding new_id new_envelope check_envelope read_envelopes next_of insert_sorted sort_strings
    records_of append_record rewrite_envelopes live_step live_records read_latest compact_records
    maybe_compact_domain append_domain delete_domain_record delete_domain find insert delete
    scoped_key keys_with get_from save_tool get_tool set_memory get_memory delete_memory list_memory
    save_mcp_server get_mcp_server
log_code = tt

abbrev src : Source
src = at_time 9 ""

filled :
    {A : Type 0} (wrap : A → Payload) (a : A) (raw : Payload)
    → some (wrap a) ≡ some raw
    → large_files.is_empty raw ≡ false
filled wrap a raw p = refl

append_domain-PutEnd_example :
    PutEnd large_files domains.tool "new" search
      (("search", tool_payload search) ∷ [])
      (append_domain large_files domains.tool src "new" search tools_log)
unfolding log_code
append_domain-PutEnd_example =
    append_domain-PutEnd large_files domains.tool (filled tool_payload) src "new" search
      (("search", tool_payload search) ∷ []) tools_log refl tt

delete_domain-WriteEnd_example :
    WriteEnd large_files
      (("search", tool_payload search) ∷ [])
      (delete "search" (("search", tool_payload search) ∷ []))
      (delete_domain large_files domains.key_object src "search" tools_log)
unfolding log_code
delete_domain-WriteEnd_example =
    delete_domain-WriteEnd large_files domains.key_object src "search"
      (("search", tool_payload search) ∷ []) tools_log refl tt

maybe_compact_domain-Holds_example :
    Holds large_files
      (("search", tool_payload search) ∷ [])
      (maybe_compact_domain large_files tools_log).1.lines
unfolding log_code
maybe_compact_domain-Holds_example =
    maybe_compact_domain-Holds large_files (("search", tool_payload search) ∷ []) tools_log refl

save_tool-get_tool_example :
    get_tool domains "search" (save_tool domains src (record search { name = "other" }) tools_log).2
    ≡ get_tool domains "search" tools_log
unfolding log_code
save_tool-get_tool_example =
    save_tool-get_tool domains (filled tool_payload) src (record search { name = "other" }) "search"
      tools_log tt refl

save_tool-identity_example :
    get_tool domains "search"
      (save_tool domains src (record search { id = ""; created_at = 0 }) tools_log).2
    ≡ ok (some (tool_maps search))
unfolding log_code
save_tool-identity_example =
    save_tool-identity domains (filled tool_payload) src (record search { id = ""; created_at = 0 })
      (tool_maps search) tools_log tt refl refl

abbrev memories : Assoc Payload
memories =
    ("user:u::theme", memory_payload (1 ∷ [])) ∷ ("user:v::theme", memory_payload (2 ∷ [])) ∷ []

set_memory-get_memory_example :
    get_memory domains user "v" "theme"
      (set_memory domains src user "u" "theme" (3 ∷ []) memory_log).1
    ≡ get_memory domains user "v" "theme" memory_log
unfolding log_code
set_memory-get_memory_example =
    set_memory-get_memory domains (filled memory_payload) src user user "u" "v" "theme" "theme"
      (3 ∷ []) memories memory_log refl tt refl

abbrev notes : SkillDef
notes = record {
  name = "notes";
  description = "";
  version = "1";
  instructions = "";
  tools = [];
  config = Fields.end;
  resources = [];
  enabled = false;
}

abbrev skills_log : Log Payload
skills_log = record { lines = put_of "notes" (skill_payload notes) ∷ []; faults = [] }

switch-get_skill_example :
    get_skill domains "notes" (enable domains src "notes" skills_log).1
    ≡ ok (some (record notes { enabled = true }))
unfolding log_code get_skill save_skill enable
switch-get_skill_example =
    switch-get_skill domains (filled skill_payload) true src "notes" "notes" notes skills_log tt
      refl refl refl
