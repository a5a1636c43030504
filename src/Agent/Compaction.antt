-- ===== src/Agent/Compaction.antt =====
-- agent/compaction.go.
pub mod Kept
use Prim.Native.Nat.{◌-◌}
use rakit.Prelude.{
  ℕ, String, ◌^^◌, Bool, true, false, List, [], ◌∷◌, ◌++◌, Result, ok, err, map, leb, ltb,
  if◌then◌else◌, length, take, drop,
}
use rakit.Metadata.{Message, ToolCallRecord}
use rakit.Provider.{ToolCall, ProviderMessage, Request, Error, wrapped}
use rakit.Agent.World.{World, Effect, requested, Run, ◌>>=◌, ◌>>◌, pure, call, record_effect}
use rakit.Agent.Config.{CompactionConfig, Agent}

abbrev pub summarization_prompt : String
summarization_prompt =
    "Summarize the following conversation history into a concise summary that preserves:\n- Key facts, decisions, and preferences the user has stated\n- Important context needed for the conversation to continue naturally\n- Any pending tasks or open questions\n\nWrite the summary as a neutral observer. Be specific rather than vague."

-- `shouldCompact`
unfoldable pub should_compact : List Message → CompactionConfig → Bool
should_compact msgs c =
    if leb (length msgs) c.keep_recent then false else ltb c.max_messages (length msgs)

unfoldable pub call_lines : List ToolCallRecord → String
call_lines [] = ""
call_lines (tc ∷ tcs) =
    "  [tool-call] "
    ^^ tc.name
    ^^ "("
    ^^ tc.arguments
    ^^ ") -> "
    ^^ tc.result
    ^^ "\n"
    ^^ call_lines tcs

-- The transcript of the old messages for the summarizer.
unfoldable pub transcript : List Message → String
transcript [] = ""
transcript (m ∷ ms) =
    "[" ^^ m.role ^^ "]: " ^^ m.content ^^ "\n" ^^ call_lines m.tool_calls ^^ transcript ms

unfoldable pub summary_request : String → List Message → Request
summary_request model old = record {
  model = model;
  messages =
      record { role = "system"; content = summarization_prompt; tool_calls = [] }
      ∷ record {
        role = "user";
        content = "Summarize this conversation:\n\n" ^^ transcript old;
        tool_calls = [];
      }
      ∷ [];
  tools = [];
  system = "";
  max_tokens = 1024;
}

abbrev pub new_message : String → String → String → List ToolCallRecord → ℕ → Message
new_message id role content tool_calls created_at = record {
  id = id;
  role = role;
  content = content;
  tool_calls = tool_calls;
  created_at = created_at;
}

-- `compact`
unfoldable pub compact :
    {W : Type 0} → World W → List Message → CompactionConfig → Run W (Result Error (List Message))
compact env msgs c =
    if leb (length msgs) c.keep_recent
    then pure (ok msgs)
    else let split = length msgs - c.keep_recent in
      let request = summary_request env.model (take split msgs) in
      do
        record_effect (requested request)
        response ← call (env.generate request)
        elim response [
          | err e ↦ pure (err (wrapped "compaction: summarization failed: " e))
          | ok content ↦ do
            id ← call env.generate_id
            now ← call env.now
            pure (ok (new_message id c.summary_role content [] now ∷ drop split msgs))
        ]

-- `metadataToProviderMessages`
unfoldable pub metadata_to_provider_messages : List Message → List ProviderMessage
metadata_to_provider_messages = map (λ m. record {
  role = m.role;
  content = m.content;
  tool_calls =
      map
        (λ tc. record {
          id = tc.id;
          name = tc.name;
          arguments = tc.arguments;
          thought_signature = [];
        })
        m.tool_calls;
})

-- `providerToolCallsToRecords`
unfoldable pub provider_tool_calls_to_records : List ToolCall → List ToolCallRecord
provider_tool_calls_to_records = map (λ tc. record {
  id = tc.id;
  name = tc.name;
  arguments = tc.arguments;
  result = "";
  status = "pending";
})
