-- ===== src/Tests/Logs.antt =====
-- A log of definitions whose payloads are the values themselves, in which every write is followed by
-- a compaction.
use rakit.Prelude.{String, refl, true, false, Option, none, some, [], ◌∷◌}
use rakit.Metadata.{Value}
use rakit.Metadata.Definitions.{ToolDef, SkillDef, McpServerDef}
use rakit.Jsonl.Journal.{Line, complete}
use rakit.Jsonl.Domains.{Layout, Log}
use rakit.Jsonl.Domains.Operations.{DomainStd, Bytes}
use rakit.Tests.Store.{decode_of}

pub data Payload : Type 0 where
  tool_payload : ToolDef → Payload
  skill_payload : SkillDef → Payload
  memory_payload : Bytes → Payload
  server_payload : McpServerDef → Payload
  key_payload : String → Payload

abbrev decode_tool : Payload → Option ToolDef
decode_tool (tool_payload t) = some t
decode_tool _ = none

abbrev decode_skill : Payload → Option SkillDef
decode_skill (skill_payload t) = some t
decode_skill _ = none

abbrev decode_memory : Payload → Option Bytes
decode_memory (memory_payload t) = some t
decode_memory _ = none

abbrev decode_server : Payload → Option McpServerDef
decode_server (server_payload t) = some t
decode_server _ = none

abbrev decode_key : Payload → Option String
decode_key (key_payload t) = some t
decode_key _ = none

abbrev pub large_files : Layout Payload
large_files = record { is_empty = λ r. false; size = λ ls. 16777217 }

abbrev pub domains : DomainStd Payload
domains = record {
  layout = large_files;
  tool = record {
    encode = λ a. some (tool_payload a);
    decode = decode_tool;
    decode-encode = decode_of tool_payload decode_tool (λ a. refl);
  };
  skill = record {
    encode = λ a. some (skill_payload a);
    decode = decode_skill;
    decode-encode = decode_of skill_payload decode_skill (λ a. refl);
  };
  memory = record {
    encode = λ a. some (memory_payload a);
    decode = decode_memory;
    decode-encode = decode_of memory_payload decode_memory (λ a. refl);
  };
  server = record {
    encode = λ a. some (server_payload a);
    decode = decode_server;
    decode-encode = decode_of server_payload decode_server (λ a. refl);
  };
  key_object = record {
    encode = λ a. some (key_payload a);
    decode = decode_key;
    decode-encode = decode_of key_payload decode_key (λ a. refl);
  };
}

abbrev pub put_of : String → Payload → Line Payload
put_of key value = complete (record {
  version = 1;
  event_id = "evt-1";
  transaction_id = "";
  type = "put";
  session_id = "";
  key = key;
  timestamp = 5;
  payload = value;
})

abbrev pub search : ToolDef
search = record {
  id = "tool-1";
  agent_id = "a";
  name = "search";
  description = "";
  parameters = Value.null;
  handler = "http";
  endpoint = "";
  headers = none;
  input_mapping = none;
  response_field = "";
  script_path = "";
  created_at = 3;
}

abbrev pub files : McpServerDef
files = record {
  id = "mcp-1";
  agent_id = "a";
  name = "files";
  url = "";
  transport = "";
  headers = none;
  enabled = true;
  created_at = 3;
}

-- A log in which the first put of a key is superseded.
abbrev pub tools_log : Log Payload
tools_log = record {
  lines =
      put_of "search" (tool_payload (record search { description = "old" }))
      ∷ put_of "search" (tool_payload search)
      ∷ [];
  faults = [];
}

abbrev pub servers_log : Log Payload
servers_log = record { lines = put_of "files" (server_payload files) ∷ []; faults = [] }

abbrev pub memory_log : Log Payload
memory_log = record {
  lines =
      put_of "user:u::theme" (memory_payload (1 ∷ []))
      ∷ put_of "user:v::theme" (memory_payload (2 ∷ []))
      ∷ [];
  faults = [];
}
