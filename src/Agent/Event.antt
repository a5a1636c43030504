-- ===== src/Agent/Event.antt =====
-- agent/event.go and the types of agent/hil.go.
use rakit.Prelude.{ℕ, String, List, Option}
use rakit.Metadata.{Value, Items, Fields}
use rakit.Provider.{Error}

-- `RunOutcome`; the empty text stands for success.
pub data RunOutcome : Type 0 where
  unset success interrupt failure : RunOutcome

-- `agent.Interrupt`. The deadline is in nanoseconds; the zero time is `none`.
pub record Interrupt : Type 0 where
  pub id : String
  pub reason : String
  pub message : String
  pub tool_call_id : String
  pub response_schema : Fields
  pub expires_at : Option ℕ
  pub metadata : Fields

pub data Event : Type 0 where
  run_started : String → String → String → Event
  run_finished : String → String → RunOutcome → List Interrupt → Value → Event
  run_error : String → String → Event
  text_start : String → String → Event
  text_delta : String → String → Event
  text_end : String → Event
  tool_call_start : String → String → Event
  tool_call_args : String → String → Event
  tool_call_end : String → String → Event
  tool_result : String → String → Event
  state_snapshot : Fields → Event
  state_delta : Items → Event
  reasoning_start : String → Event
  reasoning_message_start : String → String → Event
  reasoning_message_content : String → String → Event
  reasoning_message_end : String → Event
  reasoning_end : String → Event
  error_event : Option Error → Event
  done_event : Event
