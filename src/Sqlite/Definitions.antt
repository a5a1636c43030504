-- ===== src/Sqlite/Definitions.antt =====
-- The operations on tools, skills and MCP servers of storage/metadata/sqlite/store.go.
mod Named
mod Servers
pub mod Saved
unfoldable pub use Named.*
unfoldable pub use Servers.*
use rakit.Prelude.{
  ℕ, String, not, Option, none, List, [], ◌++◌, map, nat_eq, ◌==◌, if◌then◌else◌, Result,
}
use rakit.Metadata.{Value, Fields}
use rakit.Metadata.Definitions.{or_empty, ToolDef, SkillEntry, SkillDef}
use rakit.Sqlite.Database.{
  Error, ToolRow, SkillRow, Tables, DefinitionColumns, Db, ◌>>=◌, ◌>>◌, pure, lift, statement,
  select, exec,
}
use rakit.Sqlite.Rows.{find_row, upsert_row, rows_where}
use rakit.Sqlite.Sessions.{or_default}

module _ {Raw : Type 0} where
  abbrev pub tool_id : ToolRow Raw → String
  tool_id r = r.id

  abbrev pub tool_name : ToolRow Raw → String
  tool_name r = r.name

  -- The columns that an update of a tool leaves: its id, name and time of creation.
  abbrev pub update_tool : ToolRow Raw → ToolRow Raw → ToolRow Raw
  update_tool old new = record new { id = old.id; name = old.name; created_at = old.created_at }

  abbrev pub skill_name : SkillRow Raw → String
  skill_name r = r.name

  abbrev pub update_skill : SkillRow Raw → SkillRow Raw → SkillRow Raw
  update_skill old new = record new { name = old.name }

  abbrev pub insert_tool : ToolRow Raw → Tables Raw → Result Error (Unit {0}) × Tables Raw
  insert_tool row t =
      let (r, rows) = insert_named tool_id tool_name update_tool row t.tools in
      (r, record t { tools = rows })

module _ {Raw : Type 0} (columns : DefinitionColumns Raw) where
  abbrev pub tool_row : ToolDef → Raw → Raw → Raw → ToolRow Raw
  tool_row td parameters headers mapping = record {
    id = td.id;
    agent_id = td.agent_id;
    name = td.name;
    description = td.description;
    parameters = parameters;
    handler = td.handler;
    endpoint = td.endpoint;
    headers = headers;
    input_mapping = mapping;
    response_field = td.response_field;
    script_path = td.script_path;
    created_at = td.created_at;
  }

  -- The definition with the id and the time that `SaveTool` sets where they are missing.
  abbrev pub identified_tool : ℕ → String → ToolDef → ToolDef
  identified_tool now fresh td = record td {
    id = or_id fresh td.id;
    created_at = or_now now td.created_at;
  }

  -- `SaveTool` with the clock and a new random id: the caller's definition as it is left.
  unfoldable pub save_tool : ℕ → String → ToolDef → Db Raw ToolDef
  save_tool now fresh td = do
    parameters ← lift (marshalled columns.value td.parameters)
    headers ← lift (marshalled columns.texts td.headers)
    mapping ← lift (marshalled columns.texts td.input_mapping)
    statement (insert_tool (tool_row (identified_tool now fresh td) parameters headers mapping))
    pure (identified_tool now fresh td)

  -- A decoding that fails leaves the zero value, and a map that is nil becomes an empty one.
  unfoldable pub tool_of : ToolRow Raw → ToolDef
  unfolding or_default
  tool_of r = record {
    id = r.id;
    agent_id = r.agent_id;
    name = r.name;
    description = r.description;
    parameters = or_default Value.null (columns.value.decode r.parameters);
    handler = r.handler;
    endpoint = r.endpoint;
    headers = or_empty (or_default none (columns.texts.decode r.headers));
    input_mapping = or_empty (or_default none (columns.texts.decode r.input_mapping));
    response_field = r.response_field;
    script_path = r.script_path;
    created_at = r.created_at;
  }

  unfoldable pub get_tool : String → Db Raw (Option ToolDef)
  unfolding tool_of
  get_tool name = do
    row ← select (λ t. find_row tool_name name t.tools)
    pure (found_as tool_of row)

  unfoldable pub list_tools : String → Db Raw (List ToolDef)
  list_tools agent_id = do
    rows ← select (λ t. rows_where (λ r. r.agent_id == agent_id) t.tools)
    pure (map tool_of rows)

  unfoldable pub save_skill : SkillDef → Db Raw (Unit {0})
  save_skill def = do
    tools ← lift (marshalled columns.values def.tools)
    config ← lift (marshalled columns.config def.config)
    resources ← lift (marshalled columns.values def.resources)
    exec (λ t. record t {
      skills =
          upsert_row skill_name update_skill
            (record {
              name = def.name;
              description = def.description;
              version = def.version;
              instructions = def.instructions;
              tools = tools;
              config = config;
              resources = resources;
              enabled = flag def.enabled;
            })
            t.skills;
    })

  unfoldable pub skill_of : SkillRow Raw → SkillDef
  skill_of r = record {
    name = r.name;
    description = r.description;
    version = r.version;
    instructions = r.instructions;
    tools = or_default [] (columns.values.decode r.tools);
    config = or_default Fields.end (columns.config.decode r.config);
    resources = or_default [] (columns.values.decode r.resources);
    enabled = nat_eq r.enabled 1;
  }

  unfoldable pub get_skill : String → Db Raw (Option SkillDef)
  unfolding skill_of
  get_skill name = do
    row ← select (λ t. find_row skill_name name t.skills)
    pure (found_as skill_of row)

module _ {Raw : Type 0} where
  unfoldable pub delete_tool : String → Db Raw (Unit {0})
  delete_tool name = exec (λ t. record t { tools = rows_where (λ r. not (r.name == name)) t.tools })

  abbrev pub skill_entry : SkillRow Raw → SkillEntry
  skill_entry r = record {
    name = r.name;
    description = r.description;
    version = r.version;
    enabled = nat_eq r.enabled 1;
  }

  unfoldable pub list_skills : Db Raw (List SkillEntry)
  list_skills = do rows ← select (λ t. t.skills); pure (map skill_entry rows)

  unfoldable pub delete_skill : String → Db Raw (Unit {0})
  delete_skill name =
      exec (λ t. record t { skills = rows_where (λ r. not (r.name == name)) t.skills })
