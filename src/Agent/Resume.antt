-- ===== src/Agent/Resume.antt =====
-- `Resume` of agent/resume.go and what it calls.
pub mod Inputs
pub mod Finished
pub mod Once
pub mod Addressed
pub mod Accepted
pub mod Reopened
pub mod Durable
use Prim.Native.Nat.{ℕ, suc}
use rakit.Prelude.{
  String, ◌^^◌, Bool, true, false, List, [], ◌∷◌, ◌++◌, Option, none, some, Result, ok, err, ◌==◌,
  ◌||◌, ◌&&◌, if◌then◌else◌, Assoc, find, take,
}
use rakit.Metadata.{Message, ToolCallRecord, Session, Value, bool, str, obj, Fields, end, field}
use rakit.Metadata.{Interrupt}
use rakit.Tool.{Registry}
use rakit.Provider.{Error, message, wrapped, ProviderMessage}
use rakit.Agent.Event.{Event}
use rakit.Agent.World.{World, Run, ◌>>=◌, ◌>>◌, pure, call, emit, error_text}
use rakit.Agent.Config.{Agent}
use rakit.Agent.Interrupts.{get_field}
use rakit.Agent.Compaction.{metadata_to_provider_messages}
use rakit.Agent.Tools.{load_registry}
use rakit.Agent.Persistence.{
  with_open_interrupts, backfill, result_message, persist_or_stop, in_background,
}
use rakit.Agent.Runner.{error_json, execute_tool, continue_agentic_loop}
use rakit.Agent.Conversation.{check_configured}
use Inputs.{ResumeInput, check_resume}

-- `isTerminalToolCall`
unfoldable pub is_terminal : ToolCallRecord → Bool
is_terminal tc = tc.status == "completed" || tc.status == "failed"

unfoldable pub remove_first : String → List Interrupt → Option (List Interrupt)
remove_first id [] = none
remove_first id (i ∷ is) =
    let rest = remove_first id is in
    if i.tool_call_id == id then some is else elim rest [ none ↦ none | some is' ↦ some (i ∷ is') ]

-- `removeInterruptForToolCall`: the interrupts that are left, if one is removed.
unfoldable pub remove_interrupt_for_tool_call : String → List Interrupt → Option (List Interrupt)
remove_interrupt_for_tool_call id is = if id == "" then none else remove_first id is

-- `asApprovalPayload`
unfoldable pub as_approval_payload : Value → Option Bool
as_approval_payload (bool b) = some b
as_approval_payload (obj fs) = elim (get_field "approved" fs) [ some (bool b) ↦ some b | _ ↦ none ]
as_approval_payload _ = none

module _ {W : Type 0} (a : Agent W) where
  abbrev pub marshalled : String → Value → String
  marshalled other v = elim (a.world.marshal v) [ ok s ↦ s | err e ↦ other ]

  -- `clientSidePayloadJSON`
  unfoldable pub client_side_payload_json : Value → String
  client_side_payload_json (obj fs) =
      let whole = marshalled "{\"error\": \"invalid payload\"}" (obj fs) in
      elim (get_field "output" fs) [ some v ↦ marshalled whole v | none ↦ whole ]
  client_side_payload_json v = marshalled "{\"error\": \"invalid payload\"}" v

  abbrev pub rejected : String × String
  rejected = (error_json a "user rejected", "failed")

  -- `resolveToolCall`
  unfoldable pub resolve_tool_call :
      ToolCallRecord → Assoc ResumeInput → Registry → Run W (String × String)
  resolve_tool_call rec inputs registry = elim (find rec.id inputs) [
    | none ↦ execute_tool a registry rec.name rec.arguments
    | some inp ↦
        if inp.status == "cancelled"
        then pure (error_json a "cancelled", "failed")
        else if rec.status == "pending_approval"
        then elim (as_approval_payload inp.payload) [
          | some true ↦ execute_tool a registry rec.name rec.arguments
          | some false ↦ pure rejected
          | none ↦ pure rejected
        ]
        else if rec.status == "pending_client"
        then pure (client_side_payload_json inp.payload, "completed")
        else elim (a.world.marshal inp.payload) [
          | ok s ↦ pure (s, "completed")
          | err e ↦ pure (error_json a (error_text e), "failed")
        ]
  ]

  -- Whether `paused`, taken before the loop, still addresses the session's messages behind a write.
  abbrev pub still : Bool → Bool
  still live = live && a.world.leaves_messages

  -- One call whose result an earlier attempt stored.
  unfoldable pub skip_call : ToolCallRecord → Bool → Session → Run W (Session × Bool)
  skip_call tc live s = elim (remove_interrupt_for_tool_call tc.id s.open_interrupts) [
    | none ↦ pure (s, live)
    | some is ↦ do
      s' ← persist_or_stop a "resumed interrupt cleanup" (with_open_interrupts is s)
      pure (s', still live)
  ]

  abbrev pub without_interrupt : String → Session → Session
  without_interrupt id s = elim (remove_interrupt_for_tool_call id s.open_interrupts) [
    | none ↦ s
    | some is ↦ with_open_interrupts is s
  ]

  -- The session behind `paused.ToolCalls[i].Result, .Status = result, status`: as it was, where
  -- `paused` addresses the messages that the session had before the store replaced them.
  abbrev pub write_paused : Bool → ℕ → ℕ → String → String → Session → Session
  write_paused live idx i result status s = elim live [
    | true ↦ backfill idx i result status s
    | false ↦ s
  ]

  -- One call that has no result yet.
  unfoldable pub resolve_call :
      ToolCallRecord
      → Assoc ResumeInput
      → Registry
      → ℕ
      → ℕ
      → Bool
      → Session
      → Run W (Session × String)
  resolve_call tc inputs registry idx i live s = do
    (result, status) ← resolve_tool_call tc inputs registry
    s' ←
        persist_or_stop a "resumed tool result"
          (without_interrupt tc.id (write_paused live idx i result status s))
    emit (Event.tool_result tc.id result)
    pure (s', result)

  -- The loop over the calls of the paused message `idx`, from its `i`-th call on. An iteration
  -- writes only the call that it has read, so the calls are read as they were before the loop.
  unfoldable pub resume_calls :
      Assoc ResumeInput
      → Registry
      → ℕ
      → ℕ
      → Bool
      → List ToolCallRecord
      → Session
      → List ProviderMessage
      → Run W (Session × List ProviderMessage)
  resume_calls inputs registry idx i live [] s msgs = pure (s, msgs)
  resume_calls inputs registry idx i live (tc ∷ tcs) s msgs = elim (is_terminal tc) [
    | true ↦ do
      (s', live') ← skip_call tc live s
      resume_calls inputs registry idx (suc i) live' tcs s'
          (msgs ++ (result_message tc.id tc.name tc.result ∷ []))
    | false ↦ do
      (s', result) ← resolve_call tc inputs registry idx i live s
      resume_calls inputs registry idx (suc i) (still live) tcs s'
          (msgs ++ (result_message tc.id tc.name result ∷ []))
  ]

  unfoldable pub clear_interrupts : Session → Run W Session
  clear_interrupts s = elim s.open_interrupts [
    | [] ↦ pure s
    | i ∷ is ↦ persist_or_stop a "cleared interrupts" (with_open_interrupts [] s)
  ]

  -- The goroutine of `Resume`; `idx` and `paused` are the paused message and its place.
  unfoldable pub resume_run : Assoc ResumeInput → ℕ → Message → Session → Run W (Unit {0})
  resume_run inputs idx paused s = do
    run ← call a.world.generate_id
    emit (Event.run_started s.id run "")
    (registry, system) ← load_registry a
    (s1, msgs) ←
        resume_calls inputs registry idx 0 true paused.tool_calls s
          (metadata_to_provider_messages (take (suc idx) s.messages))
    s2 ← clear_interrupts s1
    continue_agentic_loop a s.id run a.max_iterations s2 msgs

  -- `Resume` once its configuration is checked
  unfoldable pub resume_configured : String → List ResumeInput → Run W (Result Error (Unit {0}))
  resume_configured id inputs = do
    loaded ← call (a.world.get_session id)
    elim loaded [
      | err e ↦ pure (err (wrapped ("agent: load session " ^^ a.world.quote id ^^ ": ") e))
      | ok none ↦ pure (err (message ("agent: session " ^^ a.world.quote id ^^ " not found")))
      | ok (some s) ↦ elim (check_resume a.world.quote id inputs s) [
        | err e ↦ pure (err e)
        | ok (idx, paused, by_call) ↦ in_background (resume_run by_call idx paused s)
      ]
    ]

  -- `Resume`
  unfoldable pub resume : Bool → String → List ResumeInput → Run W (Result Error (Unit {0}))
  resume has_protocol id inputs = elim (check_configured a has_protocol true) [
    | err e ↦ pure (err e)
    | ok _ ↦ resume_configured id inputs
  ]
