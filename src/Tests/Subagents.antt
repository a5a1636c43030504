-- ===== src/Tests/Subagents.antt =====
-- A subagent of the scripted agent.
use rakit.Prelude.{inl, ◌≡◌, refl, some, [], ◌∷◌, find}
use rakit.Tool.{get}
use rakit.Prelude.{or_else}
use rakit.Tool.Lookup.{last_named}
use rakit.Agent.World.{◌>>=◌, pure, return_early, call, record_effect}
use rakit.Agent.Persistence.{persist_or_stop, persist_session, in_background}
use rakit.Agent.Conversation.{
  check_configured, compacted, start_loop, run_loaded, run_configured, run_with_session,
}
use rakit.Agent.Runner.{stop_on, request_reply, finish_reply, continue_agentic_loop}
use rakit.Agent.Stream.{convert_event, run_hooks, emit_hooked, start_text, read_event, read_stream}
use rakit.Agent.Tools.{
  tool_from_def, built_tools, join, merge_tools, load_skills, skill_tools, mcp_tools,
  persisted_tools, build_merged_registry, load_registry,
}
use rakit.Agent.Compaction.{should_compact, metadata_to_provider_messages}
use rakit.Tool.{register_all, all, schema, register}
use rakit.Provider.{Error, message, ProviderEvent}
use rakit.Agent.Config.{Agent}
use rakit.Agent.Subagent.{SubagentConfig, spawn, child_tools}
use rakit.Agent.Subagent.Inherited.{spawn-inherits}
use rakit.Metadata.{Session}
use rakit.Agent.Subagent.Answered.{Delegated, run_subagent-Delegated}
use rakit.Agent.Subagent.Delegated.{run_task, run_subagent, create_session_for_user, text_of}
use rakit.Prelude.{true, Option, String, List, Result, ok, insert}
use rakit.Tests.Worlds.{conversation, Script, scripted, careful, echo}

abbrev helper : SubagentConfig
helper = record {
  system = "";
  tools = record echo { name = "grep" } ∷ [];
  max_iterations = 0;
  inherit_tools = true;
}

spawn-inherits_example :
    (child : Agent Script) × (w' : Script) × (spawn (λ id. scripted) careful helper []
      ≡ (some child, [], w'))
    × (get "echo" child.tools ≡ or_else (last_named "echo" helper.tools) (get "echo" careful.tools))
unfolding get find
spawn-inherits_example =
    spawn-inherits (λ id. scripted) careful helper [] "echo" (refl, refl, tt) (inl refl)

-- What a run of the subagent calls, to run it.
unfoldable subagent_code : Unit {0}
unfolding spawn child_tools run_task run_subagent create_session_for_user text_of ◌>>=◌ pure
    return_early call record_effect persist_session in_background check_configured compacted
    start_loop run_loaded run_configured run_with_session stop_on request_reply finish_reply
    continue_agentic_loop convert_event run_hooks emit_hooked start_text read_event read_stream
    tool_from_def built_tools join merge_tools load_skills skill_tools mcp_tools persisted_tools
    build_merged_registry load_registry should_compact metadata_to_provider_messages register_all
    all schema register scripted find insert persist_or_stop
subagent_code = tt

abbrev new_session : Agent Script → String → Script → Result Error Session × Script
new_session a user_id w = (ok (conversation []), w)

-- What RunSubagent returns where the provider answers with these events.
abbrev answer_to : List ProviderEvent → Option (Result Error String)
answer_to events =
    (run_subagent new_session (λ id. scripted) careful true "s" "count" "" (events ∷ [])).0

delegated_answer :
    answer_to (ProviderEvent.text_delta "one " ∷ ProviderEvent.text_delta "two" ∷ [])
    ≡ some (ok "one two")
unfolding subagent_code
delegated_answer = refl

-- The text before an error of the provider is returned as the answer.
failed_answer :
    answer_to (ProviderEvent.text_delta "one " ∷ ProviderEvent.error (some (message "lost")) ∷ [])
    ≡ some (ok "one ")
unfolding subagent_code
failed_answer = refl

run_subagent-Delegated_example : Delegated 4 (
    run_subagent new_session
      (λ id. scripted)
      careful
      true
      "s"
      "count"
      ""
      ((ProviderEvent.text_delta "one" ∷ []) ∷ []))
run_subagent-Delegated_example =
    run_subagent-Delegated new_session (λ id. scripted) careful true "s" "count" ""
      ((ProviderEvent.text_delta "one" ∷ []) ∷ [])
