-- ===== src/Agent/Conversation.antt =====
-- `RunWithProtocol` and `RunWithSession` of agent/runner.go: the starts of a run.
pub mod Quiet
pub mod Finished
pub mod Stored
use rakit.Prelude.{
  if◌then◌else◌, Bool, not, ◌&&◌, String, ◌^^◌, true, false, List, [], ◌∷◌, ◌++◌, Option, none,
  some, Result, ok, err,
}
use rakit.Metadata.{Session, Value}
use rakit.Tool.{Registry, schema}
use rakit.Provider.{Error, message, wrapped, Request, ProviderEvent}
use rakit.Agent.Event.{Event, RunOutcome, error_event}
use rakit.Agent.World.{requested, Run, ◌>>=◌, ◌>>◌, pure, call, record_effect, emit}
use rakit.Agent.Config.{Agent}
use rakit.Agent.Compaction.{new_message, should_compact, compact, metadata_to_provider_messages}
use rakit.Agent.Tools.{load_registry}
use rakit.Agent.Stream.{emit_hooked, emit_converted}
use rakit.Agent.Persistence.{with_messages, persist_session, in_background}
use rakit.Agent.Runner.{continue_agentic_loop}
use rakit.Prelude.{◌==◌}

module _ {W : Type 0} (a : Agent W) where
  -- The id of the text of a run without a session, which starts with its first delta.
  unfoldable pub open_text : ProviderEvent → Option String → Run W (Option String)
  open_text (ProviderEvent.text_delta d) none = do
    id ← call a.world.generate_id
    emit (Event.text_start id "assistant")
    pure (some id)
  open_text ev text = pure text

  -- One event of the stream of a run without a session.
  unfoldable pub forward_event : ProviderEvent → Run W (Unit {0})
  forward_event (ProviderEvent.tool_call tc) = do
    emit_hooked a (Event.tool_call_start tc.id tc.name)
    elim (tc.arguments == "") [
      | true ↦ pure tt
      | false ↦ emit_hooked a (Event.tool_call_args tc.id tc.arguments)
    ]
    emit_hooked a (Event.tool_call_end tc.id tc.arguments)
  forward_event ev = emit_converted a ev

  unfoldable pub forward_stream : List ProviderEvent → Option String → Run W (Option String)
  forward_stream [] text = pure text
  forward_stream (ev ∷ evs) text = do
    text' ← open_text ev text
    forward_event ev
    forward_stream evs text'

  -- The checks that `RunWithProtocol`, `RunWithSession` and `Resume` begin with; the first asks for
  -- no store.
  unfoldable pub check_configured : Bool → Bool → Result Error (Unit {0})
  check_configured has_protocol needs_store =
      if not a.has_provider
      then err (message "agent: no provider configured")
      else if not has_protocol
      then err (message "agent: no protocol configured")
      else if needs_store && not a.has_store
      then err (message "agent: no store configured")
      else ok tt

  -- The goroutine of `RunWithProtocol`.
  unfoldable pub forward_run : Registry → String → String → Run W (Unit {0})
  forward_run registry system input = do
    thread ← call a.world.generate_id
    run_id ← call a.world.generate_id
    emit (Event.run_started thread run_id "")
    let request : Request = record {
      model = a.world.model;
      messages = record { role = "user"; content = input; tool_calls = [] } ∷ [];
      tools = schema registry;
      system = system;
      max_tokens = 0;
    }
    record_effect (requested request)
    streamed ← call (a.world.stream request)
    elim streamed [
      | err e ↦ emit (error_event (some e))
      | ok evs ↦ do
        text ← forward_stream evs none
        elim text [ none ↦ pure tt | some id ↦ emit (Event.text_end id) ]
        emit (Event.run_finished thread run_id RunOutcome.unset [] Value.null)
    ]

  -- `RunWithProtocol`; `has_protocol` says whether the caller gave an encoder.
  unfoldable pub run_with_protocol : Bool → String → Run W (Result Error (Unit {0}))
  run_with_protocol has_protocol input = elim (check_configured has_protocol false) [
    | err e ↦ pure (err e)
    | ok _ ↦ do
      (registry, system) ← load_registry a
      in_background (forward_run registry system input)
  ]

  -- `Run`
  unfoldable pub run : String → Run W (Result Error (Unit {0}))
  run input = run_with_protocol a.has_protocol input

  -- The history, summarized if it is long; a summary that fails leaves it as it is.
  unfoldable pub compacted : Session → Run W (Result Error Session)
  compacted s = elim (should_compact s.messages a.compaction) [
    | false ↦ pure (ok s)
    | true ↦ do
      summary ← compact a.world s.messages a.compaction
      elim summary [ err e ↦ pure (ok s) | ok ms ↦ persist_session a (with_messages ms s) ]
  ]

  -- The goroutine of `RunWithSession`.
  unfoldable pub start_loop : Session → Run W (Unit {0})
  start_loop s = do
    run_id ← call a.world.generate_id
    emit (Event.run_started s.id run_id "")
    continue_agentic_loop a s.id run_id a.max_iterations s
        (metadata_to_provider_messages s.messages)

  -- `RunWithSession` on a session that it has loaded
  unfoldable pub run_loaded : String → Session → Run W (Result Error (Unit {0}))
  run_loaded input s = do
    id ← call a.world.generate_id
    now ← call a.world.now
    stored ←
        persist_session a
          (with_messages (s.messages ++ (new_message id "user" input [] now ∷ [])) s)
    elim stored [
      | err e ↦ pure (err (wrapped "agent: persist user message: " e))
      | ok s1 ↦ do
        shortened ← compacted s1
        elim shortened [
          | err e ↦ pure (err (wrapped "agent: persist compaction: " e))
          | ok s2 ↦ in_background (start_loop s2)
        ]
    ]

  -- `RunWithSession` once its configuration is checked
  unfoldable pub run_configured : String → String → Run W (Result Error (Unit {0}))
  run_configured id input = do
    loaded ← call (a.world.get_session id)
    elim loaded [
      | err e ↦ pure (err (wrapped ("agent: load session " ^^ a.world.quote id ^^ ": ") e))
      | ok none ↦ pure (err (message ("agent: session " ^^ a.world.quote id ^^ " not found")))
      | ok (some s) ↦ run_loaded input s
    ]

  -- `RunWithSession`
  unfoldable pub run_with_session : Bool → String → String → Run W (Result Error (Unit {0}))
  run_with_session has_protocol id input = elim (check_configured has_protocol true) [
    | err e ↦ pure (err e)
    | ok _ ↦ run_configured id input
  ]
