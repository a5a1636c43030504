-- ===== src/Jsonl/Domains/Operations.antt =====
-- The operations of storage/metadata/jsonl/domains.go on the logs of tools, skills, memory and MCP
-- servers.
use text.Mathlib.Text.{starts_with}
use rakit.Prelude.{
  ℕ, String, Option, none, some, List, [], ◌∷◌, ◌==◌, nat_eq, if◌then◌else◌, Result, ok, err, ◌>>=◌,
  Assoc, find,
}
use rakit.Metadata.Definitions.{
  ToolDef, SkillEntry, SkillDef, McpServerDef, MemoryScope, global, scoped_key, or_empty,
}
use rakit.Jsonl.Journal.{Error, decode_failed, Codec, Source, new_id}
use rakit.Jsonl.Domains.{Layout, Log, sort_strings, read_latest, append_domain, delete_domain}

abbrev pub Bytes : Type 0
Bytes = List ℕ

-- What the operations take from `encoding/json`.
pub record DomainStd (Raw : Type 0) : Type 0 where
  pub layout : Layout Raw
  pub tool : Codec Raw ToolDef
  pub skill : Codec Raw SkillDef
  pub memory : Codec Raw Bytes
  pub server : Codec Raw McpServerDef
  pub key_object : Codec Raw String

-- `td.ID`, `td.CreatedAt` and the maps of a definition that is read.
abbrev pub tool_identity : String → ℕ → ToolDef → ToolDef
tool_identity id created_at td = record td { id = id; created_at = created_at }

abbrev pub tool_maps : ToolDef → ToolDef
tool_maps td = record td {
  headers = or_empty td.headers;
  input_mapping = or_empty td.input_mapping;
}

abbrev pub server_identity : String → ℕ → McpServerDef → McpServerDef
server_identity id created_at s = record s { id = id; created_at = created_at }

-- `if server.Transport == "" { server.Transport = "http" }`
abbrev pub server_transport : McpServerDef → McpServerDef
server_transport s = record s { transport = if s.transport == "" then "http" else s.transport }

abbrev pub server_read : McpServerDef → McpServerDef
server_read s = server_transport (record s { headers = or_empty s.headers })

abbrev pub skill_entry : SkillDef → SkillEntry
skill_entry d = record {
  name = d.name;
  description = d.description;
  version = d.version;
  enabled = d.enabled;
}

module _ {Raw : Type 0} where
  abbrev pub decode_found :
      {A : Type 0} → Codec Raw A → (A → A) → String → Option Raw → Result Error (Option A)
  decode_found c read key none = ok none
  decode_found c read key (some raw) = elim (c.decode raw) [
    | none ↦ err (decode_failed key)
    | some a ↦ ok (some (read a))
  ]

  -- The loop of a listing over the live payloads, which it decodes and filters.
  unfoldable pub decode_all :
      {A B : Type 0} → Codec Raw A → (A → Option B) → Assoc Raw → Result Error (List B)
  decode_all c keep [] = ok []
  decode_all c keep ((key, raw) ∷ live) =
      let rest = decode_all c keep live in
      elim (c.decode raw) [
        | none ↦ err (decode_failed key)
        | some a ↦ do bs ← rest; ok (elim (keep a) [ none ↦ bs | some b ↦ b ∷ bs ])
      ]

  -- The loop of `ListMemory` over the keys.
  unfoldable pub keys_with : String → Assoc Raw → List String
  keys_with prefix [] = []
  keys_with prefix ((key, raw) ∷ live) =
      let rest = keys_with prefix live in if starts_with key prefix then key ∷ rest else rest

module _ {Raw : Type 0} (std : DomainStd Raw) where
  -- The shape that `GetTool`, `GetSkill`, `GetMemory` and `GetMCPServer` share.
  unfoldable pub get_from :
      {A : Type 0} → Codec Raw A → (A → A) → String → Log Raw → Result Error (Option A)
  get_from c read key l = do
    live ← read_latest std.layout l.lines
    decode_found c read key (find key live)

  -- `SaveTool` on the definition that it stores: the caller's, with the id and the time of creation
  -- of the one stored before, or with new ones where they are not set.
  abbrev pub stored_tool : Source → ToolDef → Option Raw → Result Error ToolDef
  stored_tool src td none = ok (
      tool_identity (if td.id == "" then new_id "tool-" (src.attempt 0) else td.id)
        (if nat_eq td.created_at 0 then src.now else td.created_at) td)
  stored_tool src td (some raw) = elim (std.tool.decode raw) [
    | none ↦ err (decode_failed td.name)
    | some old ↦ ok (tool_identity old.id old.created_at td)
  ]

  -- `SaveTool`: the outcome, the caller's definition and the log.
  unfoldable pub save_tool :
      Source → ToolDef → Log Raw → Result Error (Unit {0}) × ToolDef × Log Raw
  save_tool src td l =
      elim (do live ← read_latest std.layout l.lines; stored_tool src td (find td.name live)) [
        | err x ↦ (err x, td, l)
        | ok td' ↦ let (r, l') = append_domain std.layout std.tool src td.name td' l in (r, td', l')
      ]

  unfoldable pub get_tool : String → Log Raw → Result Error (Option ToolDef)
  get_tool name l = get_from std.tool tool_maps name l

  unfoldable pub list_tools : String → Log Raw → Result Error (List ToolDef)
  list_tools agent_id l = do
    live ← read_latest std.layout l.lines
    decode_all std.tool (λ td. if td.agent_id == agent_id then some (tool_maps td) else none) live

  unfoldable pub delete_tool : Source → String → Log Raw → Result Error (Unit {0}) × Log Raw
  delete_tool src name l = delete_domain std.layout std.key_object src name l

  unfoldable pub save_skill : Source → SkillDef → Log Raw → Result Error (Unit {0}) × Log Raw
  save_skill src d l = append_domain std.layout std.skill src d.name d l

  unfoldable pub get_skill : String → Log Raw → Result Error (Option SkillDef)
  get_skill name l = get_from std.skill (λ d. d) name l

  unfoldable pub list_skills : Log Raw → Result Error (List SkillEntry)
  list_skills l = do
    live ← read_latest std.layout l.lines
    decode_all std.skill (λ d. some (skill_entry d)) live

  unfoldable pub delete_skill : Source → String → Log Raw → Result Error (Unit {0}) × Log Raw
  delete_skill src name l = delete_domain std.layout std.key_object src name l

  unfoldable pub set_memory :
      Source → MemoryScope → String → String → Bytes → Log Raw → Result Error (Unit {0}) × Log Raw
  set_memory src scope scope_id key value l =
      append_domain std.layout std.memory src (scoped_key scope scope_id key) value l

  unfoldable pub get_memory : MemoryScope → String → String → Log Raw → Result Error (Option Bytes)
  get_memory scope scope_id key l = get_from std.memory (λ v. v) (scoped_key scope scope_id key) l

  unfoldable pub delete_memory :
      Source → MemoryScope → String → String → Log Raw → Result Error (Unit {0}) × Log Raw
  delete_memory src scope scope_id key l =
      delete_domain std.layout std.key_object src (scoped_key scope scope_id key) l

  unfoldable pub list_memory : MemoryScope → String → String → Log Raw → Result Error (List String)
  list_memory scope scope_id prefix l = do
    live ← read_latest std.layout l.lines
    ok (sort_strings (keys_with (scoped_key scope scope_id prefix) live))

  -- `Set`, `Get`, `Delete` and `List` of the store, on the keys of global scope.
  abbrev pub set_global : Source → String → Bytes → Log Raw → Result Error (Unit {0}) × Log Raw
  set_global src key value l = set_memory src global "" key value l

  abbrev pub get_global : String → Log Raw → Result Error (Option Bytes)
  get_global key l = get_memory global "" key l

  abbrev pub delete_global : Source → String → Log Raw → Result Error (Unit {0}) × Log Raw
  delete_global src key l = delete_memory src global "" key l

  abbrev pub list_global : String → Log Raw → Result Error (List String)
  list_global prefix l = list_memory global "" prefix l

  abbrev pub stored_server : Source → McpServerDef → Option Raw → Result Error McpServerDef
  stored_server src s none = ok (
      server_transport (
        server_identity (if s.id == "" then new_id "mcp-" (src.attempt 0) else s.id)
          (if nat_eq s.created_at 0 then src.now else s.created_at) s))
  stored_server src s (some raw) = elim (std.server.decode raw) [
    | none ↦ err (decode_failed s.name)
    | some old ↦ ok (server_transport (server_identity old.id old.created_at s))
  ]

  -- `SaveMCPServer`
  unfoldable pub save_mcp_server :
      Source → McpServerDef → Log Raw → Result Error (Unit {0}) × McpServerDef × Log Raw
  save_mcp_server src s l =
      elim (do live ← read_latest std.layout l.lines; stored_server src s (find s.name live)) [
        | err x ↦ (err x, s, l)
        | ok s' ↦ let (r, l') = append_domain std.layout std.server src s.name s' l in (r, s', l')
      ]

  unfoldable pub get_mcp_server : String → Log Raw → Result Error (Option McpServerDef)
  get_mcp_server name l = get_from std.server server_read name l

  unfoldable pub list_mcp_servers : String → Log Raw → Result Error (List McpServerDef)
  list_mcp_servers agent_id l = do
    live ← read_latest std.layout l.lines
    decode_all std.server (λ s. if s.agent_id == agent_id then some (server_read s) else none) live

  unfoldable pub delete_mcp_server : Source → String → Log Raw → Result Error (Unit {0}) × Log Raw
  delete_mcp_server src name l = delete_domain std.layout std.key_object src name l
