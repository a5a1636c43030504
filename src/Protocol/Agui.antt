-- ===== src/Protocol/Agui.antt =====
-- protocol/agui/protocol.go: the encoder of the AG-UI stream.
use rakit.Prelude.{
  ℕ, String, Option, none, some, List, [], ◌∷◌, ◌++◌, Result, ok, err, ◌==◌, if◌then◌else◌,
}
use rakit.Metadata.{Value, Items, Fields, nil, item, end, field}
use rakit.Agent.Event.{Event, Interrupt, RunOutcome}
use rakit.Protocol.Frames.{
  WriteError, cancelled, Json, object, Writer, write_optional, Turn, received, context_done,
}

abbrev pub protocol_name : String
protocol_name = "ag-ui"

abbrev pub content_type : String
content_type = "text/event-stream"

-- The pairs that `interruptsToWire` adds for a field that is set.
abbrev pub unless_empty : String → String → List (String × Value)
unless_empty k v = if v == "" then [] else (k, Value.str v) ∷ []

abbrev pub unless_no_fields : String → Fields → List (String × Value)
unless_no_fields k end = []
unless_no_fields k (field j v fs) = (k, Value.obj (field j v fs)) ∷ []

abbrev pub unless_zero_time : Json → Option ℕ → List (String × Value)
unless_zero_time json none = []
unless_zero_time json (some t) = ("expiresAt", Value.str (json.format_time t)) ∷ []

unfoldable pub interrupt_to_wire : Json → Interrupt → Fields
interrupt_to_wire json i = object (
    ("id", Value.str i.id)
    ∷ ("reason", Value.str i.reason)
    ∷ ("message", Value.str i.message)
    ∷ (unless_empty "toolCallId" i.tool_call_id
        ++ (unless_no_fields "responseSchema" i.response_schema
            ++ (unless_zero_time json i.expires_at ++ unless_no_fields "metadata" i.metadata))))

-- `interruptsToWire`
unfoldable pub interrupts_to_wire : Json → List Interrupt → Items
interrupts_to_wire json [] = nil
interrupts_to_wire json (i ∷ is) =
    item (Value.obj (interrupt_to_wire json i)) (interrupts_to_wire json is)

abbrev pub result_pair : Value → List (String × Value)
result_pair Value.null = []
result_pair v = ("result", v) ∷ []

-- What a RUN_FINISHED frame says of the outcome.
unfoldable pub outcome_pairs : Json → RunOutcome → List Interrupt → Value → List (String × Value)
unfolding interrupts_to_wire
outcome_pairs json RunOutcome.interrupt is result =
    ("outcome", Value.str "interrupt") ∷ ("interrupts", Value.arr (interrupts_to_wire json is)) ∷ []
outcome_pairs json _ is result = result_pair result

abbrev typed : String → List (String × Value) → Option Fields
typed type pairs = some (object (("type", Value.str type) ∷ pairs))

-- The frame of `Encode`, if it writes one. It has no case for an ErrorEvent.
unfoldable pub frame : Json → Event → Option Fields
unfolding outcome_pairs
frame json (Event.run_started thread run input) =
    typed "RUN_STARTED" (("threadId", Value.str thread) ∷ ("runId", Value.str run) ∷ [])
frame json (Event.text_start id role) =
    typed "TEXT_MESSAGE_START" (("messageId", Value.str id) ∷ ("role", Value.str "assistant") ∷ [])
frame json (Event.text_delta id delta) =
    typed "TEXT_MESSAGE_CONTENT" (("messageId", Value.str id) ∷ ("delta", Value.str delta) ∷ [])
frame json (Event.text_end id) = typed "TEXT_MESSAGE_END" (("messageId", Value.str id) ∷ [])
frame json (Event.tool_call_start id name) =
    typed "TOOL_CALL_START" (("toolCallId", Value.str id) ∷ ("toolCallName", Value.str name) ∷ [])
frame json (Event.tool_call_args id delta) =
    typed "TOOL_CALL_ARGS" (("toolCallId", Value.str id) ∷ ("delta", Value.str delta) ∷ [])
frame json (Event.tool_call_end id arguments) =
    typed "TOOL_CALL_END" (("toolCallId", Value.str id) ∷ [])
frame json (Event.tool_result id result) =
    typed "TOOL_CALL_RESULT" (
      ("toolCallId", Value.str id)
      ∷ ("content", Value.str result)
      ∷ ("role", Value.str "tool")
      ∷ [])
frame json (Event.state_snapshot snapshot) =
    typed "STATE_SNAPSHOT" (("snapshot", Value.obj snapshot) ∷ [])
frame json (Event.state_delta delta) = typed "STATE_DELTA" (("delta", Value.arr delta) ∷ [])
frame json (Event.reasoning_start id) = typed "REASONING_START" (("messageId", Value.str id) ∷ [])
frame json (Event.reasoning_message_start id role) =
    typed "REASONING_MESSAGE_START" (("messageId", Value.str id) ∷ ("role", Value.str role) ∷ [])
frame json (Event.reasoning_message_content id delta) =
    typed "REASONING_MESSAGE_CONTENT"
      (("messageId", Value.str id) ∷ ("delta", Value.str delta) ∷ [])
frame json (Event.reasoning_message_end id) =
    typed "REASONING_MESSAGE_END" (("messageId", Value.str id) ∷ [])
frame json (Event.reasoning_end id) = typed "REASONING_END" (("messageId", Value.str id) ∷ [])
frame json (Event.run_finished thread run outcome is result) = typed "RUN_FINISHED" (
    ("threadId", Value.str thread)
    ∷ ("runId", Value.str run)
    ∷ outcome_pairs json outcome is result)
frame json (Event.run_error message code) =
    typed "RUN_ERROR" (("message", Value.str message) ∷ ("code", Value.str code) ∷ [])
frame json Event.done_event = none
frame json (Event.error_event e) = none

-- `Encode`
unfoldable pub encode : Json → Event → Writer → Result WriteError (Unit {0}) × Writer
unfolding frame
encode json event w = write_optional json (frame json event) w

-- `EncodeStream`; flushing a frame shows nothing else to the reader.
unfoldable pub encode_stream : Json → List Turn → Writer → Result WriteError (Unit {0}) × Writer
unfolding encode
encode_stream json [] w = (ok tt, w)
encode_stream json (context_done ∷ turns) w = (err cancelled, w)
encode_stream json (received event ∷ turns) w =
    let (r, w') = encode json event w in
    let rest = encode_stream json turns w' in elim r [ err x ↦ (err x, w') | ok _ ↦ rest ]
