-- ===== src/Sqlite/Database/Schema.antt =====
-- The tables of storage/metadata/sqlite/store.go, the codecs of their JSON columns, and what the
-- engine decides.
use rakit.Prelude.{ℕ, String, ◌≡◌, Bool, false, List, some}
use rakit.Metadata.{Value, Fields, Interrupt, ToolCallRecord}
use rakit.Metadata.Definitions.{Texts}
use rakit.Jsonl.Journal.{Codec}

pub data Error : Type 0 where
  statement_failed constraint_failed marshal_failed : Error
  not_found session_conflict revision_overflow updated_at_overflow invalid_revision : String → Error

-- An INTEGER column; `negsuc n` is -(n + 1).
pub data ℤ : Type 0 where
  pos : ℕ → ℤ
  negsuc : ℕ → ℤ

-- A row of `sessions`. A text that holds JSON is a `Raw`.
pub record SessionRow (Raw : Type 0) : Type 0 where
  pub id : String
  pub agent_id : String
  pub user_id : String
  pub parent_session_id : String
  pub state : Raw
  pub open_interrupts : Raw
  pub revision : ℤ
  pub created_at : ℕ
  pub updated_at : ℕ

-- A row of `session_messages`
pub record MessageRow (Raw : Type 0) : Type 0 where
  pub id : String
  pub session_id : String
  pub role : String
  pub content : String
  pub tool_calls : Raw
  pub created_at : ℕ

-- A row of `tools`
pub record ToolRow (Raw : Type 0) : Type 0 where
  pub id : String
  pub agent_id : String
  pub name : String
  pub description : String
  pub parameters : Raw
  pub handler : String
  pub endpoint : String
  pub headers : Raw
  pub input_mapping : Raw
  pub response_field : String
  pub script_path : String
  pub created_at : ℕ

-- A row of `skills`
pub record SkillRow (Raw : Type 0) : Type 0 where
  pub name : String
  pub description : String
  pub version : String
  pub instructions : String
  pub tools : Raw
  pub config : Raw
  pub resources : Raw
  pub enabled : ℕ

-- A row of `memory`
pub record MemoryRow : Type 0 where
  pub key : String
  pub value : List ℕ

-- A row of `mcp_servers`
pub record ServerRow (Raw : Type 0) : Type 0 where
  pub id : String
  pub agent_id : String
  pub name : String
  pub url : String
  pub transport : String
  pub headers : Raw
  pub enabled : ℕ
  pub created_at : ℕ

pub record Tables (Raw : Type 0) : Type 0 where
  pub sessions : List (SessionRow Raw)
  pub messages : List (MessageRow Raw)
  pub tools : List (ToolRow Raw)
  pub skills : List (SkillRow Raw)
  pub memory : List MemoryRow
  pub servers : List (ServerRow Raw)

-- `encoding/json` at the columns that hold it, with the texts "{}" and "[]". No encoded text is
-- empty.
pub record Columns (Raw : Type 0) : Type 0 where
  pub state : Codec Raw Fields
  pub interrupts : Codec Raw (List Interrupt)
  pub tool_calls : Codec Raw (List ToolCallRecord)
  pub object_text : Raw
  pub array_text : Raw
  pub is_empty_text : Raw → Bool
  pub encode-is_empty_text :
      (l : List Interrupt) (raw : Raw) → interrupts.encode l ≡ some raw → is_empty_text raw ≡ false

-- `encoding/json` at the columns of tools, skills and MCP servers.
pub record DefinitionColumns (Raw : Type 0) : Type 0 where
  pub value : Codec Raw Value
  pub texts : Codec Raw Texts
  pub values : Codec Raw (List Value)
  pub config : Codec Raw Fields

-- What the database engine decides: the order that ORDER BY gives rows, which SQL fixes only up to
-- equal times, and whether foreign keys are enforced, so that ON DELETE CASCADE takes effect.
pub record Engine (Raw : Type 0) : Type 0 where
  pub by_created_at : List (MessageRow Raw) → List (MessageRow Raw)
  pub by_updated_at_desc : List (SessionRow Raw) → List (SessionRow Raw)
  pub foreign_keys : Bool
