-- ===== src/Metadata/Definitions.antt =====
-- The definitions of tools, skills and MCP servers that storage/metadata/metadata.go declares, and
-- the keys of scoped memory.
use rakit.Prelude.{ℕ, String, ◌^^◌, Bool, Option, none, some, List, [], Assoc}
use rakit.Metadata.{Value, Fields}

-- A map of texts, which Go lets be nil.
abbrev pub Texts : Type 0
Texts = Option (Assoc String)

-- `if m == nil { m = map[string]string{} }`
abbrev pub or_empty : Texts → Texts
or_empty none = some []
or_empty (some m) = some m

pub record ToolDef : Type 0 where
  pub id : String
  pub agent_id : String
  pub name : String
  pub description : String
  pub parameters : Value
  pub handler : String
  pub endpoint : String
  pub headers : Texts
  pub input_mapping : Texts
  pub response_field : String
  pub script_path : String
  pub created_at : ℕ

pub record SkillEntry : Type 0 where
  pub name : String
  pub description : String
  pub version : String
  pub enabled : Bool

pub record SkillDef : Type 0 where
  pub name : String
  pub description : String
  pub version : String
  pub instructions : String
  pub tools : List Value
  pub config : Fields
  pub resources : List Value
  pub enabled : Bool

pub record McpServerDef : Type 0 where
  pub id : String
  pub agent_id : String
  pub name : String
  pub url : String
  pub transport : String
  pub headers : Texts
  pub enabled : Bool
  pub created_at : ℕ

pub data MemoryScope : Type 0 where
  global agent user : MemoryScope

-- `string(scope)`
abbrev pub scope_text : MemoryScope → String
scope_text global = "global"
scope_text agent = "agent"
scope_text user = "user"

-- `ScopedKey`
unfoldable pub scoped_key : MemoryScope → String → String → String
scoped_key scope scope_id key = scope_text scope ^^ ":" ^^ scope_id ^^ "::" ^^ key
