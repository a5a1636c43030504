-- ===== src/Agent/Persistence.antt =====
-- agent/persistence.go, and the updates of a session in memory that precede a write.
use Prim.Native.Nat.{ℕ, zero, suc}
use rakit.Prelude.{true, false, String, ◌^^◌, List, [], ◌∷◌, some, Result, ok, err}
use rakit.Metadata.{Message, ToolCallRecord, Session, Value, str, end, field, obj}
use rakit.Metadata
use rakit.Provider.{message, Error, wrapped, ToolCall, ProviderMessage}
use rakit.Agent.Event.{Interrupt, error_event}
use rakit.Agent.World.{
  saved, save_failed, Run, ◌>>=◌, ◌>>◌, pure, return_early, call, record_effect, emit,
}
use rakit.Agent.Config.{Agent}
use rakit.Agent.Interrupts.{pending_status_for, interrupts_to_metadata}
use rakit.Agent.Compaction.{new_message}

-- The effect of setting the messages of a session.
abbrev pub with_messages : List Message → Session → Session
with_messages ms s = record {
  id = s.id;
  agent_id = s.agent_id;
  user_id = s.user_id;
  parent_session_id = s.parent_session_id;
  messages = ms;
  state = s.state;
  open_interrupts = s.open_interrupts;
  revision = s.revision;
  created_at = s.created_at;
  updated_at = s.updated_at;
}

abbrev pub with_open_interrupts : List Metadata.Interrupt → Session → Session
with_open_interrupts is s = record {
  id = s.id;
  agent_id = s.agent_id;
  user_id = s.user_id;
  parent_session_id = s.parent_session_id;
  messages = s.messages;
  state = s.state;
  open_interrupts = is;
  revision = s.revision;
  created_at = s.created_at;
  updated_at = s.updated_at;
}

-- `xs[i] = f(xs[i])`, nothing where `i` is out of range.
unfoldable pub update_at {ℓ} : {A : Type ℓ} → ℕ → (A → A) → List A → List A
update_at i f [] = []
update_at zero f (x ∷ xs) = f x ∷ xs
update_at (suc i) f (x ∷ xs) = x ∷ update_at i f xs

abbrev pub with_tool_calls : List ToolCallRecord → Message → Message
with_tool_calls tcs m = new_message m.id m.role m.content tcs m.created_at

abbrev pub with_result : String → String → ToolCallRecord → ToolCallRecord
with_result result status tc = record {
  id = tc.id;
  name = tc.name;
  arguments = tc.arguments;
  result = result;
  status = status;
}

abbrev pub with_status : String → ToolCallRecord → ToolCallRecord
with_status status tc = with_result tc.result status tc

-- `sess.Messages[idx].ToolCalls = f(sess.Messages[idx].ToolCalls)`
abbrev pub update_calls : ℕ → (List ToolCallRecord → List ToolCallRecord) → Session → Session
update_calls idx f s =
    with_messages (update_at idx (λ m. with_tool_calls (f m.tool_calls) m) s.messages) s

-- `sess.Messages[idx].ToolCalls[i].Result, .Status = result, status`
unfoldable pub backfill : ℕ → ℕ → String → String → Session → Session
backfill idx i result status = update_calls idx (update_at i (with_result result status))

-- The loop that gives the calls of a paused batch, in turn, their statuses.
unfoldable pub pause_calls :
    List ToolCall → List Interrupt → List ToolCallRecord → List ToolCallRecord
pause_calls [] is recs = recs
pause_calls (tc ∷ tcs) is [] = []
pause_calls (tc ∷ tcs) is (r ∷ recs) =
    with_status (pending_status_for tc.id is) r ∷ pause_calls tcs is recs

-- The session of a paused batch, as it is stored.
abbrev pub paused_session : ℕ → List ToolCall → List Interrupt → Session → Session
paused_session idx tcs is s =
    with_open_interrupts (interrupts_to_metadata is) (update_calls idx (pause_calls tcs is) s)

-- The message of a tool's result for the provider.
abbrev pub result_message : String → String → String → ProviderMessage
result_message id name result = record {
  role = "tool";
  content = result;
  tool_calls = record { id = id; name = name; arguments = ""; thought_signature = [] } ∷ [];
}

module _ {W : Type 0} (a : Agent W) where
  -- `persistSession`: the store's answer, as an effect and as a value.
  unfoldable pub persist_session : Session → Run W (Result Error Session)
  persist_session s = elim a.has_store [
    | false ↦ pure (err (message "agent: no store configured"))
    | true ↦ do
      stored ← call (a.world.update_session s)
      record_effect (elim stored [ ok s' ↦ saved s | err e ↦ save_failed s ])
      pure stored
  ]

  -- `if err := a.persistSession(…); err != nil { events <- &ErrorEvent{…}; return }`
  unfoldable pub persist_or_stop : String → Session → Run W Session
  persist_or_stop what s = do
    stored ← persist_session s
    elim stored [
      | ok s' ↦ pure s'
      | err e ↦ do
        emit (error_event (some (wrapped ("agent: persist " ^^ what ^^ ": ") e)))
        return_early
    ]

-- `go func() { … }()`: the caller is given the channel, whatever becomes of the run.
unfoldable pub in_background : {W : Type 0} → Run W (Unit {0}) → Run W (Result Error (Unit {0}))
in_background m w = let r = m w in (some (ok tt), r.1, r.2)
