-- ===== src/Tool.antt =====
-- tool/tool.go and tool/registry.go: tools, their results, and the registry of a run.
pub mod Lookup
use rakit.Prelude.{
  ℕ, String, List, [], ◌∷◌, Option, none, some, Bool, Assoc, find, insert, delete, map, length,
}
use rakit.Metadata.{Value, Fields}

-- `tool.Result`, without the times that `Measure` sets
pub record ToolResult : Type 0 where
  pub payload : Value
  pub status : String
  pub error : String
  pub fix : String

-- `tool.Ok`
unfoldable pub ok_result : Value → ToolResult
ok_result v = record { payload = v; status = "success"; error = ""; fix = "" }

-- `tool.Err`
unfoldable pub err_result : String → String → ToolResult
err_result msg fix = record { payload = Value.null; status = "error"; error = msg; fix = fix }

-- What a tool does when it is executed: the implementations of `tool.Tool`.
pub data Handler : Type 0 where
  http : String → Assoc String → Assoc String → String → Handler
  script : String → Handler
  function : ℕ → Handler
  mcp : String → String → Handler

-- A value of the interface `tool.Tool`; `client_side` is the answer of `agent.ClientSide`, if the
-- tool implements it.
pub record Tool : Type 0 where
  pub name : String
  pub description : String
  pub parameters : Value
  pub client_side : Bool
  pub handler : Handler

-- `provider.Tool`
pub record ToolSchema : Type 0 where
  pub name : String
  pub description : String
  pub parameters : Value

-- `tool.Registry`: the map of its tools.
abbrev pub Registry : Type 0
Registry = Assoc Tool

abbrev pub new_registry : Registry
new_registry = []

unfoldable pub register : Tool → Registry → Registry
register t r = insert t.name t r

unfoldable pub unregister : String → Registry → Registry
unregister name r = delete name r

unfoldable pub get : String → Registry → Option Tool
get name r = find name r

-- The order in which Go ranges over the map is not fixed; this is one of them.
unfoldable pub all : Registry → List Tool
all r = map (λ e. e.1) r

unfoldable pub schema : Registry → List ToolSchema
schema r =
    map
      (λ e. record { name = e.1.name; description = e.1.description; parameters = e.1.parameters })
      r

-- The loops that register each tool of a list.
unfoldable pub register_all : List Tool → Registry → Registry
register_all [] r = r
register_all (t ∷ ts) r = register_all ts (register t r)
