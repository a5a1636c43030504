-- ===== src/Tests/Runs.antt =====
-- Runs of a scripted agent.
use rakit.Prelude.{◌≤◌, ◌≡◌, refl, true, none, List, [], ◌∷◌, arith, length, suc, find}
use rakit.Metadata
use rakit.Metadata.{Message}
use rakit.Tool.{get}
use rakit.Prelude.{or_else}
use rakit.Tool.Lookup.{last_named}
use rakit.Provider.{ProviderEvent, ToolCall}
use rakit.Agent.Event.{Interrupt}
use rakit.Agent.World.{◌>>=◌, pure, call, record_effect}
use rakit.Agent.Config.{CompactionConfig, require_for}
use rakit.Agent.Compaction.{compact, should_compact}
use rakit.Agent.Compaction.Kept.{IsKept, compact-IsKept}
use rakit.Agent.Interrupts.{gate}
use rakit.Agent.Tools.{merge_tools}
use rakit.Agent.Tools.Precedence.{get-merge_tools}
use rakit.Agent.Stream.{Reply}
use rakit.Agent.Runner.{run_batch, continue_agentic_loop}
use rakit.Agent.Runner.Traces.{ended, requests}
use rakit.Agent.Runner.Ends.{continue_agentic_loop-ended}
use rakit.Agent.Runner.Durable.{IsDurable, run_batch-IsDurable}
use rakit.Agent.Runner.Paused.{all_plain, run_batch-paused}
use rakit.Tests.Store.{user_message}
use rakit.Tests.Worlds.{Script, scripted, careful, conversation, call_of, echo}

abbrev script : Script
script =
    (ProviderEvent.text_delta "hi"
      ∷ ProviderEvent.tool_call (call_of "c1" "echo")
      ∷ ProviderEvent.done
      ∷ [])
    ∷ []

continue_agentic_loop-ended_example :
    (ended (continue_agentic_loop careful "s" "r" 3 (conversation []) [] script).1 ≡ true)
    × (requests (continue_agentic_loop careful "s" "r" 3 (conversation []) [] script).1 ≤ 3)
continue_agentic_loop-ended_example =
    continue_agentic_loop-ended careful "s" "r" 3 (conversation []) [] script

abbrev reply : List ToolCall → Reply
reply calls = record {
  content = "hi";
  tool_calls = calls;
  text_message_id = none;
  stream_error = none;
}

run_batch-IsDurable_example :
    IsDurable
      (run_batch careful "s" "r" careful.tools
        (reply (call_of "c1" "echo" ∷ []))
        (conversation [])
        []
        []).1
unfolding scripted
run_batch-IsDurable_example =
    run_batch-IsDurable careful (λ s s' w p. ground arith) "s" "r" careful.tools
      (reply (call_of "c1" "echo" ∷ [])) (conversation []) [] []

run_batch-paused_example :
    all_plain
      (run_batch careful "s" "r" careful.tools
        (reply (call_of "c1" "echo" ∷ call_of "c2" "drop" ∷ []))
        (conversation [])
        []
        []).1
    ≡ true
unfolding gate get find require_for
run_batch-paused_example =
    run_batch-paused careful careful.tools "s" "r"
      (reply (call_of "c1" "echo" ∷ call_of "c2" "drop" ∷ [])) (conversation []) [] [] refl

abbrev short_config : CompactionConfig
short_config = record { max_messages = 2; keep_recent = 1; summary_role = "system" }

abbrev history : List Message
history = user_message "m1" "a" ∷ user_message "m2" "b" ∷ user_message "m3" "c" ∷ []

abbrev summary : Message
summary = record {
  id = "id";
  role = "system";
  content = "summary";
  tool_calls = [];
  created_at = 7;
}

compact-IsKept_example :
    IsKept short_config history (summary ∷ user_message "m3" "c" ∷ [])
    × (length (summary ∷ user_message "m3" "c" ∷ []) ≡ suc 1)
unfolding should_compact compact ◌>>=◌ pure call record_effect scripted
compact-IsKept_example =
    compact-IsKept scripted history (summary ∷ user_message "m3" "c" ∷ []) short_config [] refl refl

get-merge_tools_example :
    get "echo" (merge_tools [] (echo ∷ []) (record echo { description = "mcp" } ∷ []) [])
    ≡ or_else (last_named "echo" []) (
        or_else
          (last_named "echo" (record echo { description = "mcp" } ∷ []))
          (or_else (last_named "echo" (echo ∷ [])) (last_named "echo" [])))
get-merge_tools_example =
    get-merge_tools "echo" [] (echo ∷ []) (record echo { description = "mcp" } ∷ []) []

abbrev waiting : Metadata.Interrupt
waiting = record {
  id = "intr-1";
  reason = "tool_call";
  message = "";
  tool_call_id = "c1";
  response_schema = Metadata.Fields.end;
  expires_at_ms = 12;
  metadata = Metadata.Fields.end;
}
