-- ===== src/Agent/Subagent/Delegated.antt =====
-- `CreateSessionForUser` of agent/agent.go, and `RunSubagent` and the tool of `SpawnAgentTool` of
-- agent/runner.go.
use rakit.Prelude.{
  String, ◌^^◌, Bool, true, not, Option, none, some, List, [], ◌∷◌, Result, ok, err, ◌==◌,
  if◌then◌else◌,
}
use rakit.Metadata.{Value, Fields, end, field, Session}
use rakit.Provider.{Error, message, wrapped}
use rakit.Tool.{ToolResult, ok_result, err_result}
use rakit.Agent.Event.{Event}
use rakit.Agent.World.{World, Effect, emitted, Run, ◌>>=◌, pure, call, error_text}
use rakit.Agent.Config.{Agent}
use rakit.Agent.Persistence.{persist_session}
use rakit.Agent.Conversation.{run_with_session}
use rakit.Agent.Subagent.{SubagentConfig, spawn}

-- The text deltas of the events that were sent.
unfoldable pub text_of : List Effect → String
text_of [] = ""
text_of (emitted (Event.text_delta id delta) ∷ es) = delta ^^ text_of es
text_of (_ ∷ es) = text_of es

-- `input[k].(string)`, or "" where it is none.
unfoldable pub text_field : String → Fields → String
text_field k end = ""
text_field k (field j v fs) =
    if j == k then elim v as (λ _. String) [ Value.str s ↦ s | _ ↦ "" ] else text_field k fs

abbrev pub subagent_config : String → SubagentConfig
subagent_config system = record {
  system = system;
  tools = [];
  max_iterations = 0;
  inherit_tools = true;
}

-- `create a user_id` is the store's CreateSession for the id of the agent.
module _ {W : Type 0} (create : Agent W → String → W → Result Error Session × W) where
  unfoldable pub create_session_for_user : Agent W → String → String → Run W (Result Error Session)
  create_session_for_user a parent_session_id user_id =
      if not a.has_store then pure (err (message "agent: no store configured")) else do
        created ← call (create a user_id)
        elim created [
          | err e ↦ pure (err e)
          | ok s ↦
              if parent_session_id == ""
              then pure (ok s)
              else persist_session a (record s { parent_session_id = parent_session_id })
        ]

  -- The answer of a run whose events are read to their end.
  abbrev pub collected :
      Option (Result Error (Unit {0})) × List Effect × W
      → Option (Result Error String) × List Effect × W
  collected (none, es, w) = (none, es, w)
  collected (some (err e), es, w) = (some (err (wrapped "subagent: run: " e)), es, w)
  collected (some (ok _), es, w) = (some (ok (text_of es)), es, w)

  -- What follows the creation of the session: the run, and the text of its events.
  unfoldable pub run_task :
      Bool → String → Agent W → Result Error Session → Run W (Result Error String)
  run_task has_protocol task child (err e) = pure (err (wrapped "subagent: create session: " e))
  run_task has_protocol task child (ok s) =
      λ w. collected (run_with_session child has_protocol s.id task w)

  module _ (world_of : String → World W) (a : Agent W) (has_protocol : Bool) where
    -- `RunSubagent`
    unfoldable pub run_subagent : String → String → String → Run W (Result Error String)
    unfolding create_session_for_user run_task text_of
    run_subagent parent_session_id task system = do
      child ← spawn world_of a (subagent_config system)
      created ← create_session_for_user child parent_session_id ""
      run_task has_protocol task child created

    -- The function of the tool "spawn_agent", on the session id of the context or "".
    unfoldable pub spawn_agent : String → Fields → Run W ToolResult
    unfolding run_subagent text_field
    spawn_agent session_id input = do
      result ← run_subagent session_id (text_field "task" input) (text_field "instructions" input)
      elim result [
        | err e ↦ pure (err_result (error_text e) "Check that the agent has a provider configured")
        | ok text ↦ pure (ok_result (Value.str text))
      ]
