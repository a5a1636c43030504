-- ===== src/Tests/Protocols.antt =====
-- A registry of two protocols, an Accept header, and streams.
use rakit.Prelude.{ℕ, ◌≡◌, refl, ◌↔◌, none, some, List, [], ◌∷◌, find}
use rakit.Metadata.{Value}
use rakit.Agent.Event.{Event, RunOutcome}
use rakit.Protocol.{Runes, Registry, rune_eq, negotiate, media_types}
use rakit.Protocol.Negotiated.{Selects, negotiate-Selects}
use rakit.Protocol.Frames.{Json, Writer, written, failed, received, Turn}
use rakit.Protocol.Streamed.{Streams, stream_text, agui-Streams, aisdk-Streams}
use rakit.Protocol.Agui as Agui
use rakit.Protocol.Aisdk as Aisdk

abbrev ascii : Runes
ascii = record { lower = λ c. c; is_space = λ c. rune_eq c " " }

abbrev two : Registry ℕ
two = record { protocols = ("ag-ui", 1) ∷ ("ai-sdk", 2) ∷ []; default = some 1 }

second_type :
    negotiate ascii two "text/html, application/vnd.ai-sdk;q=0.9,text/event-stream" ≡ some 2
unfolding negotiate find
second_type = refl

-- A space before the semicolon hides the media type.
spaced_type : negotiate ascii two "text/vnd.ag-ui ;q=1" ≡ none
unfolding negotiate find
spaced_type = refl

negotiate-Selects_example :
    (negotiate ascii two "text/html, application/vnd.ai-sdk" ≡ some 2)
    ↔ Selects two 2 (media_types ascii "text/html, application/vnd.ai-sdk")
negotiate-Selects_example = negotiate-Selects two ascii "text/html, application/vnd.ai-sdk" 2

abbrev plain_json : Json
plain_json = record { marshal = λ f. some "{}"; format_time = λ t. "t"; unmarshal = λ s. none }

abbrev turns : List Turn
turns =
    received (Event.run_started "t" "r" "hello")
    ∷ received (Event.tool_call_end "c" "")
    ∷ received (Event.run_finished "t" "r" RunOutcome.success [] Value.null)
    ∷ []

abbrev writer : Writer
writer = record { text = []; writes = written ∷ written ∷ failed ∷ [] }

agui-Streams_example :
    Streams
      (stream_text plain_json (Agui.frame plain_json) turns)
      []
      writer
      (Agui.encode_stream plain_json turns writer)
agui-Streams_example = agui-Streams plain_json turns writer

aisdk-Streams_example :
    Streams
      (stream_text plain_json (Aisdk.frame plain_json) turns)
      (Aisdk.done_frame ∷ [])
      writer
      (Aisdk.encode_stream plain_json turns writer)
aisdk-Streams_example = aisdk-Streams plain_json turns writer
