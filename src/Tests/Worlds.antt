-- ===== src/Tests/Worlds.antt =====
-- An agent whose provider plays a script of replies, and whose store keeps everything.
use Prim.Native.Nat.{suc}
use rakit.Prelude.{String, true, false, none, some, List, [], ◌∷◌, Result, ok, err}
use rakit.Metadata.{Fields, Value, Message, Session, ToolCallRecord}
use rakit.Tool.{Tool, Handler, ToolResult}
use rakit.Provider.{Error, message, ToolCall, ProviderEvent}
use rakit.Agent.World.{World}
use rakit.Agent.Config.{Agent, default_compaction_config, require_for}

-- The replies to come.
abbrev pub Script : Type 0
Script = List (List ProviderEvent)

abbrev played : Script → Result Error (List ProviderEvent) × Script
played [] = (ok (ProviderEvent.done ∷ []), [])
played (r ∷ rs) = (ok r, rs)

abbrev pub done_result : ToolResult
done_result = record { payload = Value.str "done"; status = "success"; error = ""; fix = "" }

abbrev pub conversation : List Message → Session
conversation messages = record {
  id = "s";
  agent_id = "a";
  user_id = "";
  parent_session_id = "";
  messages = messages;
  state = Fields.end;
  open_interrupts = [];
  revision = 1;
  created_at = 1;
  updated_at = 1;
}

unfoldable pub scripted : World Script
scripted = record {
  get_session = λ id w. (ok (some (conversation [])), w);
  update_session = λ s w. (ok (record s { revision = suc s.revision }), w);
  leaves_messages = true;
  list_skills = λ w. (ok [], w);
  get_skill = λ name w. (err (message "no skill"), w);
  list_tools = λ w. (ok [], w);
  discover_tools = λ w. (ok [], w);
  model = "model";
  stream = λ r w. played w;
  generate = λ r w. (ok "summary", w);
  execute = λ t input w. (ok done_result, w);
  generate_id = λ w. ("id", w);
  now = λ w. (7, w);
  context_error = λ w. (none, w);
  unmarshal = λ s. ok Fields.end;
  marshal = λ v. ok "json";
  quote = λ s. s;
}

abbrev pub echo : Tool
echo = record {
  name = "echo";
  description = "";
  parameters = Value.null;
  client_side = false;
  handler = Handler.function 0;
}

-- The agent asks for an approval of the tool `drop`.
abbrev pub careful : Agent Script
careful = record {
  world = scripted;
  tools = ("echo", echo) ∷ [];
  has_provider = true;
  has_protocol = true;
  has_store = true;
  has_skills = true;
  has_mcp = true;
  hooks = [];
  compaction = default_compaction_config;
  max_iterations = 3;
  approval_policy = some (require_for ("drop" ∷ []));
}

abbrev pub call_of : String → String → ToolCall
call_of id name = record { id = id; name = name; arguments = "{}"; thought_signature = [] }

abbrev pub recorded : String → String → String → ToolCallRecord
recorded id name status = record {
  id = id;
  name = name;
  arguments = "{}";
  result = "";
  status = status;
}
