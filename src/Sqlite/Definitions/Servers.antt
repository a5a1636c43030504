-- ===== src/Sqlite/Definitions/Servers.antt =====
-- The MCP servers of storage/metadata/sqlite/store.go.
use rakit.Prelude.{ℕ, String, not, Option, none, List, map, nat_eq, ◌==◌, if◌then◌else◌, Result}
use rakit.Metadata.Definitions.{or_empty, McpServerDef}
use rakit.Sqlite.Database.{
  Error, ServerRow, Tables, DefinitionColumns, Db, ◌>>=◌, ◌>>◌, pure, lift, statement, select, exec,
}
use rakit.Sqlite.Rows.{find_row, rows_where}
use rakit.Sqlite.Sessions.{or_default}
use rakit.Sqlite.Definitions.Named.{marshalled, insert_named, flag, or_id, or_now, found_as}

module _ {Raw : Type 0} where
  abbrev pub server_id : ServerRow Raw → String
  server_id r = r.id

  abbrev pub server_name : ServerRow Raw → String
  server_name r = r.name

  abbrev pub update_server : ServerRow Raw → ServerRow Raw → ServerRow Raw
  update_server old new = record new { id = old.id; name = old.name; created_at = old.created_at }

  abbrev pub insert_server : ServerRow Raw → Tables Raw → Result Error (Unit {0}) × Tables Raw
  insert_server row t =
      let (r, rows) = insert_named server_id server_name update_server row t.servers in
      (r, record t { servers = rows })

module _ {Raw : Type 0} (columns : DefinitionColumns Raw) where
  abbrev pub server_row : McpServerDef → Raw → ServerRow Raw
  server_row s headers = record {
    id = s.id;
    agent_id = s.agent_id;
    name = s.name;
    url = s.url;
    transport = s.transport;
    headers = headers;
    enabled = flag s.enabled;
    created_at = s.created_at;
  }

  -- The definition with what `SaveMCPServer` sets where it is missing.
  abbrev pub identified_server : ℕ → String → McpServerDef → McpServerDef
  identified_server now fresh s = record s {
    id = or_id fresh s.id;
    transport = if s.transport == "" then "http" else s.transport;
    created_at = or_now now s.created_at;
  }

  unfoldable pub save_mcp_server : ℕ → String → McpServerDef → Db Raw McpServerDef
  save_mcp_server now fresh s = do
    headers ← lift (marshalled columns.texts s.headers)
    statement (insert_server (server_row (identified_server now fresh s) headers))
    pure (identified_server now fresh s)

  unfoldable pub server_of : ServerRow Raw → McpServerDef
  server_of r = record {
    id = r.id;
    agent_id = r.agent_id;
    name = r.name;
    url = r.url;
    transport = if r.transport == "" then "http" else r.transport;
    headers = or_empty (or_default none (columns.texts.decode r.headers));
    enabled = nat_eq r.enabled 1;
    created_at = r.created_at;
  }

  unfoldable pub get_mcp_server : String → Db Raw (Option McpServerDef)
  unfolding server_of
  get_mcp_server name = do
    row ← select (λ t. find_row server_name name t.servers)
    pure (found_as server_of row)

  unfoldable pub list_mcp_servers : String → Db Raw (List McpServerDef)
  list_mcp_servers agent_id = do
    rows ← select (λ t. rows_where (λ r. r.agent_id == agent_id) t.servers)
    pure (map server_of rows)

module _ {Raw : Type 0} where
  unfoldable pub delete_mcp_server : String → Db Raw (Unit {0})
  delete_mcp_server name =
      exec (λ t. record t { servers = rows_where (λ r. not (r.name == name)) t.servers })
