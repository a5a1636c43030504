-- ===== src/Agent/Runner.antt =====
-- agent/runner.go: the agentic loop. The channel of a run is the list of `emitted` effects.
pub mod Traces
pub mod Steps
pub mod Pieces
pub mod Ends
pub mod Closed
pub mod Stored
pub mod Durable
pub mod Paused
pub mod Shown
use Prim.Native.Nat.{ℕ, zero, suc}
use rakit.Prelude.{
  String, ◌^^◌, Bool, true, false, List, [], ◌∷◌, ◌++◌, Option, none, some, Result, ok, err, ◌==◌,
  if◌then◌else◌, length, map,
}
use rakit.Metadata.{Message, ToolCallRecord, Session, Value, str, end, field, obj}
use rakit.Metadata
use rakit.Tool.{Tool, Registry, get, schema}
use rakit.Provider.{Error, message, wrapped, ToolCall, ProviderMessage, Request, ProviderEvent}
use rakit.Provider
use rakit.Agent.Event
use rakit.Agent.Event.{Event, RunOutcome, Interrupt, error_event}
use rakit.Agent.World.{
  World, Effect, saved, save_failed, requested, executed, Run, ◌>>=◌, ◌>>◌, pure, return_early,
  call, record_effect, emit, error_text,
}
use rakit.Agent.Config.{Agent}
use rakit.Agent.Interrupts.{classify_pending, pending_status_for, interrupts_to_metadata}
use rakit.Agent.Compaction.{
  new_message, should_compact, compact, metadata_to_provider_messages,
  provider_tool_calls_to_records,
}
use rakit.Agent.Tools.{load_registry}
use rakit.Agent.Stream.{Reply, no_reply, read_stream, emit_hooked}
use rakit.Agent.Persistence.{
  paused_session, with_messages, with_open_interrupts, update_calls, backfill, pause_calls,
  result_message, persist_session, persist_or_stop,
}

abbrev pub no_outcome : String → String → Event
no_outcome thread run = Event.run_finished thread run RunOutcome.success [] Value.null

module _ {W : Type 0} (a : Agent W) where
  -- The result of a call that failed, `json.Marshal(map[string]string{"error": …})`.
  abbrev pub error_json : String → String
  error_json text = elim (a.world.marshal (obj (field "error" (str text) end))) [
    | ok s ↦ s
    | err e ↦ ""
  ]

  -- `executeTool`, and the same steps in the loop over a batch: the result and its status.
  unfoldable pub execute_tool : Registry → String → String → Run W (String × String)
  execute_tool registry name arguments = elim (get name registry) [
    | none ↦ pure (error_json ("tool " ^^ a.world.quote name ^^ " not found"), "failed")
    | some t ↦ elim (a.world.unmarshal arguments) [
      | err e ↦ pure (error_json ("invalid arguments: " ^^ error_text e), "failed")
      | ok input ↦ do
        record_effect (executed t input)
        answer ← call (a.world.execute t input)
        pure (elim answer [
          | err e ↦ (error_json (error_text e), "failed")
          | ok r ↦ (elim (a.world.marshal r.payload) [ ok s ↦ s | err e ↦ "" ], "completed")
        ])
    ]
  ]

  -- The words of the error where the result of a call is not stored.
  unfoldable pub result_label : Registry → ToolCall → String
  result_label registry tc = elim (get tc.name registry) [
    | none ↦ "tool result"
    | some t ↦ elim (a.world.unmarshal tc.arguments) [
      | err e ↦ "invalid-argument tool result"
      | ok input ↦ "tool result"
    ]
  ]

  -- The loop that executes the calls of a batch, from its `i`-th call on; `idx` is the assistant message.
  unfoldable pub execute_calls :
      Registry
      → ℕ
      → ℕ
      → List ToolCall
      → Session
      → List ProviderMessage
      → Run W (Session × List ProviderMessage)
  execute_calls registry idx i [] s msgs = pure (s, msgs)
  execute_calls registry idx i (tc ∷ tcs) s msgs = do
    (result, status) ← execute_tool registry tc.name tc.arguments
    s' ← persist_or_stop a (result_label registry tc) (backfill idx i result status s)
    emit (Event.tool_result tc.id result)
    execute_calls registry idx (suc i) tcs s' (msgs ++ (result_message tc.id tc.name result ∷ []))

  unfoldable pub emit_calls : List ToolCall → Run W (Unit {0})
  emit_calls [] = pure tt
  emit_calls (tc ∷ tcs) = do
    emit (Event.tool_call_args tc.id tc.arguments)
    emit (Event.tool_call_end tc.id tc.arguments)
    emit_calls tcs

  -- The batch waits for its interrupts: the run ends.
  unfoldable pub pause_batch :
      String
      → String
      → ℕ
      → List ToolCall
      → List Interrupt
      → Session
      → Run W (Session × List ProviderMessage)
  pause_batch thread run idx tcs is s = do
    persist_or_stop a "interrupt" (paused_session idx tcs is s)
    emit (Event.run_finished thread run RunOutcome.interrupt is Value.null)
    return_early

  -- A reply with tool calls: it is stored, shown, and then paused or executed.
  unfoldable pub run_batch :
      String
      → String
      → Registry
      → Reply
      → Session
      → List ProviderMessage
      → Run W (Session × List ProviderMessage)
  run_batch thread run registry r s msgs =
      let tcs = r.tool_calls in
      let idx = length s.messages in
      do
        id ← call a.world.generate_id
        now ← call a.world.now
        s1 ← persist_or_stop a "assistant tool batch" (
            with_messages
              (s.messages
                ++ (new_message id "assistant" r.content (provider_tool_calls_to_records tcs) now
                    ∷ []))
              s)
        emit_calls tcs
        is ← classify_pending a registry tcs
        elim is [
          | [] ↦
              execute_calls registry idx 0 tcs s1 (
                msgs ++ (record { role = "assistant"; content = r.content; tool_calls = tcs } ∷ []))
          | i ∷ is' ↦ pause_batch thread run idx tcs (i ∷ is') s1
        ]

  -- `if err := ctx.Err(); err != nil { events <- &ErrorEvent{…}; return }`
  unfoldable pub stop_on : Option Error → Run W (Unit {0})
  stop_on none = pure tt
  stop_on (some e) = emit (error_event (some e)) >> return_early

  -- One reply of the provider, read to its end.
  unfoldable pub request_reply : Request → Run W Reply
  request_reply request = do
    record_effect (requested request)
    streamed ← call (a.world.stream request)
    elim streamed [
      | err e ↦ emit (error_event (some e)) >> return_early
      | ok evs ↦ do
        r ← read_stream a evs no_reply
        stop_on r.stream_error
        cancelled ← call a.world.context_error
        stop_on cancelled
        elim r.text_message_id [ none ↦ pure tt | some id ↦ emit_hooked a (Event.text_end id) ]
        pure r
    ]

  -- A reply without tool calls is the last one.
  unfoldable pub finish_reply : Reply → Session → Run W (Unit {0})
  finish_reply r s = elim (r.content == "") [
    | true ↦ pure tt
    | false ↦ do
      id ← call a.world.generate_id
      now ← call a.world.now
      persist_or_stop a "assistant message"
          (with_messages (s.messages ++ (new_message id "assistant" r.content [] now ∷ [])) s)
      pure tt
  ]

  -- `continueAgenticLoop`, with the iterations that are left.
  unfoldable pub continue_agentic_loop :
      String → String → ℕ → Session → List ProviderMessage → Run W (Unit {0})
  continue_agentic_loop thread run zero s msgs = emit (no_outcome thread run)
  continue_agentic_loop thread run (suc n) s msgs = do
    cancelled ← call a.world.context_error
    stop_on cancelled
    (registry, system) ← load_registry a
    r ← request_reply (record {
      model = a.world.model;
      messages = msgs;
      tools = schema registry;
      system = system;
      max_tokens = 0;
    })
    elim r.tool_calls [
      | [] ↦ finish_reply r s >> emit (no_outcome thread run)
      | tc ∷ tcs ↦ do
        (s', msgs') ← run_batch thread run registry r s msgs
        continue_agentic_loop thread run n s' msgs'
    ]
