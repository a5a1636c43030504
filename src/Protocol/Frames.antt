-- ===== src/Protocol/Frames.antt =====
-- Writing the frames of a stream of events: `writeSSE` and `writeData` of protocol/agui/protocol.go
-- and protocol/aisdk/protocol.go, which are the same.
use rakit.Prelude.{ℕ, String, ◌^^◌, Option, none, some, List, [], ◌∷◌, ◌++◌, Result, ok, err}
use rakit.Metadata.{Value, Fields, end, field}
use rakit.Agent.Event.{Event}

pub data WriteError : Type 0 where
  marshal_failed write_failed cancelled nil_dereference : WriteError

-- What `json.Marshal` gives for an object, `time.Format` for a deadline in nanoseconds, and
-- `json.Unmarshal` for the arguments of a call.
pub record Json : Type 0 where
  pub marshal : Fields → Option String
  pub format_time : ℕ → String
  pub unmarshal : String → Option Value

-- The literal of a `map[string]any`
abbrev pub object : List (String × Value) → Fields
object [] = end
object ((k, v) ∷ l) = field k v (object l)

-- What has been written, and whether the next writes succeed; without more, they do.
pub data Write : Type 0 where
  written failed : Write

pub record Writer : Type 0 where
  pub text : List String
  pub writes : List Write

unfoldable pub next_write : List Write → Write × List Write
next_write [] = (written, [])
next_write (w ∷ ws) = (w, ws)

abbrev pub write_under :
    Write → String → List Write → Writer → Result WriteError (Unit {0}) × Writer
write_under written s ws w = (ok tt, record { text = w.text ++ s ∷ []; writes = ws })
write_under failed s ws w = (err write_failed, record w { writes = ws })

-- `fmt.Fprint`; a write that fails leaves no frame that a reader accepts.
unfoldable pub print_text : String → Writer → Result WriteError (Unit {0}) × Writer
unfolding next_write
print_text s w = let (o, ws) = next_write w.writes in write_under o s ws w

unfoldable pub write_frame : Json → Fields → Writer → Result WriteError (Unit {0}) × Writer
unfolding print_text
write_frame json frame w = elim (json.marshal frame) [
  | none ↦ (err marshal_failed, w)
  | some text ↦ print_text ("data: " ^^ text ^^ "\n\n") w
]

-- An event that has no frame is passed over.
abbrev pub write_optional : Json → Option Fields → Writer → Result WriteError (Unit {0}) × Writer
write_optional json none w = (ok tt, w)
write_optional json (some frame) w = write_frame json frame w

-- What the `select` of a stream's loop finds at each turn: an event, or the end of the context. The
-- channel is closed after the last turn.
pub data Turn : Type 0 where
  received : Event → Turn
  context_done : Turn
