-- ===== src/Agent/Stream.antt =====
-- The events of the provider's stream, the hooks, and what the agent keeps of a reply: `convertEvent`
-- and the loop over the stream of `continueAgenticLoop` in agent/runner.go.
use rakit.Prelude.{String, ◌^^◌, List, [], ◌∷◌, ◌++◌, Option, none, some}
use rakit.Provider.{Error, message, ToolCall, ProviderEvent}
use rakit.Agent.Event.{Event, error_event}
use rakit.Agent.World.{Run, ◌>>=◌, ◌>>◌, pure, call, emit}
use rakit.Agent.Config.{Agent}

-- `convertEvent`; the runner's loop answers the error event itself.
unfoldable pub convert_event : ProviderEvent → Option Event
convert_event (ProviderEvent.text_delta d) = some (Event.text_delta "" d)
convert_event (ProviderEvent.tool_call tc) = some (Event.tool_call_start tc.id tc.name)
convert_event (ProviderEvent.tool_result id r) = some (Event.tool_result id r)
convert_event ProviderEvent.done = none
convert_event (ProviderEvent.error e) = some (error_event e)

-- What the loop over the stream accumulates; the id of a text that has started.
pub record Reply : Type 0 where
  pub content : String
  pub tool_calls : List ToolCall
  pub text_message_id : Option String
  pub stream_error : Option Error

abbrev pub no_reply : Reply
no_reply = record { content = ""; tool_calls = []; text_message_id = none; stream_error = none }

module _ {W : Type 0} (a : Agent W) where
  -- A failed hook puts its error before the event.
  unfoldable pub run_hooks : List (Event → W → Option Error × W) → Event → Run W (Unit {0})
  run_hooks [] ev = pure tt
  run_hooks (h ∷ hs) ev =
      let rest = run_hooks hs ev in
      do
        failed ← call (h ev)
        elim failed [ none ↦ rest | some e ↦ emit (error_event (some e)) >> rest ]

  unfoldable pub emit_hooked : Event → Run W (Unit {0})
  emit_hooked ev = run_hooks a.hooks ev >> emit ev

  -- The start of a text, before its first delta.
  unfoldable pub start_text : Reply → Run W Reply
  start_text r = elim r.text_message_id [
    | some id ↦ pure r
    | none ↦ do
      id ← call a.world.generate_id
      emit_hooked (Event.text_start id "assistant")
      pure (record {
        content = r.content;
        tool_calls = r.tool_calls;
        text_message_id = some id;
        stream_error = r.stream_error;
      })
  ]

  abbrev pub emit_converted : ProviderEvent → Run W (Unit {0})
  emit_converted ev = elim (convert_event ev) [ none ↦ pure tt | some e ↦ emit_hooked e ]

  -- One event of the stream.
  unfoldable pub read_event : ProviderEvent → Reply → Run W Reply
  read_event (ProviderEvent.error e) r = pure (record {
    content = r.content;
    tool_calls = r.tool_calls;
    text_message_id = r.text_message_id;
    stream_error = some (elim e [ some x ↦ x | none ↦ message "provider stream failed" ]);
  })
  read_event (ProviderEvent.text_delta d) r = do
    started ← start_text r
    emit_converted (ProviderEvent.text_delta d)
    pure (record {
      content = started.content ^^ d;
      tool_calls = started.tool_calls;
      text_message_id = started.text_message_id;
      stream_error = started.stream_error;
    })
  read_event (ProviderEvent.tool_call tc) r = do
    emit_converted (ProviderEvent.tool_call tc)
    pure (record {
      content = r.content;
      tool_calls = r.tool_calls ++ (tc ∷ []);
      text_message_id = r.text_message_id;
      stream_error = r.stream_error;
    })
  read_event ev r = do emit_converted ev; pure r

  unfoldable pub read_stream : List ProviderEvent → Reply → Run W Reply
  read_stream [] r = pure r
  read_stream (ev ∷ evs) r = do r' ← read_event ev r; read_stream evs r'
