-- ===== src/Protocol/Aisdk.antt =====
-- protocol/aisdk/protocol.go: the encoder of the AI SDK stream.
use rakit.Prelude.{String, Option, none, some, List, [], ◌∷◌, Result, ok, err, ◌==◌, if◌then◌else◌}
use rakit.Metadata.{Value, Fields, end}
use rakit.Agent.Event.{Event}
use rakit.Agent.World.{error_text}
use rakit.Protocol.Frames.{
  WriteError, cancelled, nil_dereference, Json, object, Writer, print_text, write_optional, Turn,
  received, context_done,
}

abbrev pub protocol_name : String
protocol_name = "ai-sdk"

abbrev pub content_type : String
content_type = "text/plain; charset=utf-8"

-- The input of a tool call: its arguments as JSON, or as text where they are none.
unfoldable pub call_input : Json → String → Value
call_input json arguments =
    if arguments == ""
    then Value.obj end
    else elim (json.unmarshal arguments) [ none ↦ Value.str arguments | some v ↦ v ]

abbrev typed : String → List (String × Value) → Option Fields
typed type pairs = some (object (("type", Value.str type) ∷ pairs))

-- The frame of `Encode`, if it writes one.
unfoldable pub frame : Json → Event → Option Fields
unfolding call_input error_text
frame json (Event.text_start id role) = typed "start" (("messageId", Value.str id) ∷ [])
frame json (Event.text_delta id delta) = typed "text-delta" (("delta", Value.str delta) ∷ [])
frame json (Event.tool_call_start id name) =
    typed "tool-input-start" (("toolCallId", Value.str id) ∷ ("toolName", Value.str name) ∷ [])
frame json (Event.tool_call_args id delta) =
    typed "tool-input-delta" (("toolCallId", Value.str id) ∷ ("delta", Value.str delta) ∷ [])
frame json (Event.tool_call_end id arguments) =
    typed "tool-input-available"
      (("toolCallId", Value.str id) ∷ ("input", call_input json arguments) ∷ [])
frame json (Event.tool_result id result) =
    typed "tool-output-available" (("toolCallId", Value.str id) ∷ ("output", Value.str result) ∷ [])
frame json (Event.reasoning_message_content id delta) =
    typed "reasoning" (("delta", Value.str delta) ∷ [])
frame json (Event.state_snapshot snapshot) =
    typed "state-snapshot" (("snapshot", Value.obj snapshot) ∷ [])
frame json (Event.state_delta delta) = typed "state-delta" (("delta", Value.arr delta) ∷ [])
frame json (Event.error_event (some e)) = typed "error" (("error", Value.str (error_text e)) ∷ [])
frame json _ = none

-- `Encode`; an ErrorEvent without an error is a call of a nil error's method.
unfoldable pub encode : Json → Event → Writer → Result WriteError (Unit {0}) × Writer
unfolding frame
encode json (Event.error_event none) w = (err nil_dereference, w)
encode json event w = write_optional json (frame json event) w

abbrev pub done_frame : String
done_frame = "data: [DONE]\n\n"

-- `EncodeStream`, which ends the stream with a sentinel where the channel is closed.
unfoldable pub encode_stream : Json → List Turn → Writer → Result WriteError (Unit {0}) × Writer
unfolding encode
encode_stream json [] w = print_text done_frame w
encode_stream json (context_done ∷ turns) w = (err cancelled, w)
encode_stream json (received event ∷ turns) w =
    let (r, w') = encode json event w in
    let rest = encode_stream json turns w' in elim r [ err x ↦ (err x, w') | ok _ ↦ rest ]
