-- ===== src/Protocol/Streamed.antt =====
-- What a reader of a stream has got when the encoder returns.
use rakit.Prelude.{
  String, ◌^^◌, ◌≡◌, refl, sym, ◌∙◌, Option, none, some, List, [], ◌∷◌, ◌++◌, Result, ok, err,
}
use mathlib.Core.List.{append_assoc, append-nil}
use rakit.Metadata.{Fields}
use rakit.Agent.Event.{Event}
use rakit.Protocol.Frames.{
  WriteError, marshal_failed, write_under, Json, Writer, Write, written, failed, next_write,
  print_text, write_frame, write_optional, Turn, received, context_done,
}
use rakit.Protocol.Agui as Agui
use rakit.Protocol.Aisdk as Aisdk

-- The text of a frame that can be marshalled.
abbrev pub frame_text : Json → Option Fields → List String
frame_text json none = []
frame_text json (some frame) = elim (json.marshal frame) [
  | none ↦ []
  | some text ↦ ("data: " ^^ text ^^ "\n\n") ∷ []
]

-- The texts of the frames of the events, in their order.
abbrev pub stream_text : Json → (Event → Option Fields) → List Turn → List String
stream_text json frame [] = []
stream_text json frame (context_done ∷ turns) = stream_text json frame turns
stream_text json frame (received event ∷ turns) =
    frame_text json (frame event) ++ stream_text json frame turns

-- A stream that ends without an error has sent every frame and then `last`; one that ends with an
-- error has sent the first frames, and not `last`.
abbrev pub Streams :
    List String → List String → Writer → Result WriteError (Unit {0}) × Writer → Type 0
Streams all last w (ok _, w') = w'.text ≡ w.text ++ (all ++ last)
Streams all last w (err _, w') =
    (sent : List String) × (rest : List String) × (all ≡ sent ++ rest) × (w'.text ≡ w.text ++ sent)

-- What one write leaves.
abbrev pub Writes : List String → Writer → Result WriteError (Unit {0}) × Writer → Type 0
Writes texts w (ok _, w') = w'.text ≡ w.text ++ texts
Writes texts w (err _, w') = w'.text ≡ w.text

print_text-Writes : (s : String) (w : Writer) → Writes (s ∷ []) w (print_text s w)
unfolding print_text
print_text-Writes s w = go (next_write w.writes).0
  where
    go : (o : Write) → Writes (s ∷ []) w (write_under o s (next_write w.writes).1 w)
    go written = refl
    go failed = refl

write_optional-Writes :
    (json : Json) (o : Option Fields) (w : Writer)
    → Writes (frame_text json o) w (write_optional json o w)
unfolding write_frame
write_optional-Writes json none w = sym (append-nil w.text)
write_optional-Writes json (some frame) w = go (json.marshal frame)
  where
    go :
        (o : Option String)
        → Writes
            (elim o [ none ↦ [] | some text ↦ ("data: " ^^ text ^^ "\n\n") ∷ [] ])
            w
            (elim o as (λ _. Result WriteError (Unit {0}) × Writer) [
              | none ↦ (err marshal_failed, w)
              | some text ↦ print_text ("data: " ^^ text ^^ "\n\n") w
            ])
    go none = refl
    go (some text) = print_text-Writes ("data: " ^^ text ^^ "\n\n") w

-- The turns after a write that succeeds.
abbrev after_write :
    Result WriteError (Unit {0}) × Writer
    → Result WriteError (Unit {0}) × Writer
    → Result WriteError (Unit {0}) × Writer
after_write r k = elim r.0 [ err x ↦ (err x, r.1) | ok _ ↦ k ]

last-Streams :
    (last : List String) (w : Writer) (r : Result WriteError (Unit {0}) × Writer)
    → Writes last w r
    → Streams [] last w r
last-Streams last w (ok _, w') h = h
last-Streams last w (err x, w') h = ([], [], refl, h ∙ sym (append-nil w.text))

Streams-step :
    (texts all last : List String) (w : Writer) (r k : Result WriteError (Unit {0}) × Writer)
    → Writes texts w r
    → Streams all last r.1 k
    → Streams (texts ++ all) last w (after_write r k)
Streams-step texts all last w (err x, w') k h g =
    ([], texts ++ all, refl, h ∙ sym (append-nil w.text))
Streams-step texts all last w (ok _, w') (ok _, w'') h g = g ∙ rw h (simp append_assoc)
Streams-step texts all last w (ok _, w') (err x, w'') h (sent, rest, parts, sofar) =
    (texts ++ sent, rest, rw parts (simp append_assoc), sofar ∙ rw h (simp append_assoc))

-- An AG-UI stream that ends without an error has written the frames of all its events, once each
-- and in their order; one that ends with an error has written the first of these.
pub agui-Streams :
    (json : Json) (turns : List Turn) (w : Writer)
    → Streams (stream_text json (Agui.frame json) turns) [] w (Agui.encode_stream json turns w)
unfolding Agui.encode_stream
agui-Streams json [] w = sym (append-nil w.text)
agui-Streams json (context_done ∷ turns) w =
    ([], stream_text json (Agui.frame json) turns, refl, sym (append-nil w.text))
agui-Streams json (received event ∷ turns) w =
    Streams-step (frame_text json (Agui.frame json event))
      (stream_text json (Agui.frame json) turns) [] w (Agui.encode json event w)
      (Agui.encode_stream json turns (Agui.encode json event w).1)
      (write_optional-Writes json (Agui.frame json event) w)
      (agui-Streams json turns (Agui.encode json event w).1)

aisdk_encode-Writes :
    (json : Json) (event : Event) (w : Writer)
    → Writes (frame_text json (Aisdk.frame json event)) w (Aisdk.encode json event w)
unfolding Aisdk.encode
aisdk_encode-Writes json (Event.error_event none) w = refl
aisdk_encode-Writes json event w = write_optional-Writes json (Aisdk.frame json event) w

-- An AI SDK stream that ends without an error has written the frames of all its events, once each
-- and in their order, and then the sentinel; one that ends with an error has written the first of
-- these and no sentinel.
pub aisdk-Streams :
    (json : Json) (turns : List Turn) (w : Writer)
    → Streams
        (stream_text json (Aisdk.frame json) turns)
        (Aisdk.done_frame ∷ [])
        w
        (Aisdk.encode_stream json turns w)
unfolding Aisdk.encode_stream
aisdk-Streams json [] w =
    last-Streams (Aisdk.done_frame ∷ []) w (print_text Aisdk.done_frame w)
      (print_text-Writes Aisdk.done_frame w)
aisdk-Streams json (context_done ∷ turns) w =
    ([], stream_text json (Aisdk.frame json) turns, refl, sym (append-nil w.text))
aisdk-Streams json (received event ∷ turns) w =
    Streams-step (frame_text json (Aisdk.frame json event))
      (stream_text json (Aisdk.frame json) turns) (Aisdk.done_frame ∷ []) w
      (Aisdk.encode json event w) (Aisdk.encode_stream json turns (Aisdk.encode json event w).1)
      (aisdk_encode-Writes json event w) (aisdk-Streams json turns (Aisdk.encode json event w).1)
