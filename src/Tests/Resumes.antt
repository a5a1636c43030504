-- ===== src/Tests/Resumes.antt =====
-- Runs of the scripted agent that start from a session or resume one.
use rakit.Agent.Runner.Stored.{calls_at}
use rakit.Prelude.{
  inl, map, Bool, Option, none, some, String, false, arith, ◌≤◌, ◌≡◌, refl, true, [], ◌∷◌, find,
  insert, length,
}
use rakit.Metadata
use rakit.Metadata.{Session, Message, Value, Fields, field, bool, obj}
use rakit.Agent.Resume.{
  resume_calls, resume_run, is_terminal, skip_call, remove_interrupt_for_tool_call, remove_first,
  resolve_call, resolve_tool_call, as_approval_payload, client_side_payload_json,
}
use rakit.Agent.World.{◌>>=◌, pure, call, record_effect, error_text, return_early}
use rakit.Agent.Interrupts.{get_field}
use rakit.Agent.Persistence.{persist_or_stop, persist_session, backfill, update_at}
use rakit.Tool.{get}
use rakit.Agent.Runner.{execute_tool}
use rakit.Agent.Resume.Inputs.{
  ResumeInput, open_by_id, check_inputs, check_addressed, has_interrupt, has_paused_call,
  paused_message, input_by_tool_call, check_resume,
}
use rakit.Agent.Resume.Addressed.{IsAddressed, check_resume-IsAddressed}
use rakit.Agent.Resume.Once.{unresolved, resume_calls-Shows}
use rakit.Agent.Resume.Finished.{resume_run-ended}
use rakit.Agent.Conversation.{run_with_session}
use rakit.Agent.Conversation.Finished.{run_with_session-Answered}
use rakit.Agent.Conversation.Quiet.{Answered}
use rakit.Agent.Conversation.Stored.{Accepted, run_with_session-Accepted}
use rakit.Agent.Runner.{execute_calls}
use rakit.Agent.Runner.Shown.{Shows, execute_calls-Shows}
use rakit.Agent.Runner.Traces.{ended, requests}
use rakit.Tests.Worlds.{careful, conversation, call_of, recorded}
use rakit.Tests.Store.{user_message}
use rakit.Prelude.{ok, List, [], ◌∷◌}
use rakit.Metadata.{Value}
use rakit.Provider.{ToolCall}
use rakit.Agent.Event.{Event, RunOutcome, Interrupt}
use rakit.Agent.World.{emitted, saved}
use rakit.Agent.Compaction.{new_message, provider_tool_calls_to_records}
use rakit.Agent.Interrupts.{interrupt_of, interrupts_to_metadata}
use rakit.Agent.Persistence.{paused_session}
use rakit.Agent.Runner.{pause_batch}
use rakit.Agent.Resume.Accepted.{check_resume-ok}
use rakit.Agent.Resume.Reopened.{paused_message_of, pause_batch-resumes}
use rakit.Tests.Worlds.{scripted}
use rakit.Agent.Runner.Durable.{IsDurable}
use rakit.Agent.Resume.Durable.{resume_calls-IsDurable}

-- A batch of three calls: the first has its result, the others wait.
abbrev asked : Message
asked = record {
  id = "m2";
  role = "assistant";
  content = "";
  tool_calls =
      recorded "c1" "echo" "completed"
      ∷ recorded "c2" "drop" "pending_approval"
      ∷ recorded "c3" "echo" "pending"
      ∷ [];
  created_at = 2;
}

abbrev approval : Metadata.Interrupt
approval = record {
  id = "intr-1";
  reason = "tool_call";
  message = "";
  tool_call_id = "c2";
  response_schema = Fields.end;
  expires_at_ms = 0;
  metadata = Fields.end;
}

abbrev paused : Session
paused = record (conversation (user_message "m1" "a" ∷ asked ∷ [])) {
  open_interrupts = approval ∷ [];
}

abbrev approved : ResumeInput
approved = record {
  interrupt_id = "intr-1";
  status = "resolved";
  payload = Value.obj (Fields.field "approved" (Value.bool true) Fields.end);
}

check_resume-IsAddressed_example : IsAddressed paused (approved ∷ []) 1 asked
unfolding check_resume open_by_id check_inputs check_addressed has_interrupt has_paused_call
    paused_message input_by_tool_call find insert
check_resume-IsAddressed_example =
    check_resume-IsAddressed (λ s. s) "s" (approved ∷ []) paused 1 asked (("c2", approved) ∷ [])
      refl

resume_calls-Shows_example :
    Shows (length (unresolved asked.tool_calls)) (unresolved asked.tool_calls) (
      resume_calls careful
        (("c2", approved) ∷ [])
        careful.tools
        1
        0
        true
        asked.tool_calls
        paused
        [])
resume_calls-Shows_example =
    resume_calls-Shows careful (("c2", approved) ∷ []) careful.tools 1 0 true asked.tool_calls
      paused []

resume_run-ended_example :
    (ended (resume_run careful (("c2", approved) ∷ []) 1 asked paused []).1 ≡ true)
    × (requests (resume_run careful (("c2", approved) ∷ []) 1 asked paused []).1 ≤ 3)
resume_run-ended_example = resume_run-ended careful (("c2", approved) ∷ []) 1 asked paused []

execute_calls-Shows_example : Shows 2 ("c1" ∷ "c2" ∷ []) (
    execute_calls careful careful.tools 1 0
      (call_of "c1" "echo" ∷ call_of "c2" "none" ∷ [])
      paused
      [])
execute_calls-Shows_example =
    execute_calls-Shows careful careful.tools 1 0 (call_of "c1" "echo" ∷ call_of "c2" "none" ∷ [])
      paused []

run_with_session-Answered_example : Answered 4 (run_with_session careful true "s" "hi" [])
run_with_session-Answered_example = run_with_session-Answered careful true "s" "hi" []

run_with_session-Accepted_example :
    Accepted careful "s" "hi" [] (run_with_session careful true "s" "hi" [])
run_with_session-Accepted_example = run_with_session-Accepted careful true "s" "hi" []

check_resume-ok_example :
    check_resume (λ s. s) "s" (approved ∷ []) paused
    ≡ ok (1, asked, input_by_tool_call (open_by_id paused.open_interrupts []) (approved ∷ []) [])
unfolding has_interrupt has_paused_call paused_message
check_resume-ok_example =
    check_resume-ok (λ s. s) "s" (approved ∷ []) paused approval [] 1 asked refl
      (record { distinct = (refl, tt); named = refl; same = λ k. refl }) refl

abbrev batch : List ToolCall
batch = call_of "c2" "drop" ∷ []

abbrev batch_message : Message
batch_message = new_message "m2" "assistant" "" (provider_tool_calls_to_records batch) 2

abbrev gated : Interrupt
gated = interrupt_of careful careful.tools (call_of "c2" "drop") "approval" "intr-1"

abbrev before : Session
before = conversation (user_message "m1" "a" ∷ batch_message ∷ [])

pause_batch-resumes_example :
    ((pause_batch careful "s" "r" 1 batch (gated ∷ []) before []).1
      ≡ saved (paused_session 1 batch (gated ∷ []) before)
        ∷ emitted (Event.run_finished "s" "r" RunOutcome.interrupt (gated ∷ []) Value.null)
        ∷ [])
    × (check_resume careful.world.quote "s"
          (approved ∷ [])
          (paused_session 1 batch (gated ∷ []) before)
        ≡ ok (
          1,
          paused_message_of batch (gated ∷ []) batch_message,
          input_by_tool_call
              (open_by_id (interrupts_to_metadata (gated ∷ [])) [])
              (approved ∷ [])
              [],
        ))
unfolding scripted interrupts_to_metadata
pause_batch-resumes_example =
    pause_batch-resumes careful "s" "s" "r" (approved ∷ []) (user_message "m1" "a" ∷ [])
      batch_message (call_of "c2" "drop") [] gated [] before _ [] refl refl refl
      (record { distinct = (refl, tt); named = refl; same = λ k. refl }) refl refl

resume_calls-IsDurable_example :
    IsDurable
      (resume_calls careful
        (("c2", approved) ∷ [])
        careful.tools
        1
        0
        true
        asked.tool_calls
        paused
        []
        []).1
unfolding scripted
resume_calls-IsDurable_example =
    resume_calls-IsDurable careful (λ s s' w p. ground arith) (("c2", approved) ∷ []) careful.tools
      1 0 (recorded "c1" "echo" "completed")
      (recorded "c2" "drop" "pending_approval" ∷ recorded "c3" "echo" "pending" ∷ []) paused [] []
      (inl refl) refl

-- The statuses of the paused calls that a store has in the end, which leaves the messages of its
-- caller where they are or replaces them.
abbrev stored_statuses : Bool → Option (List String)
stored_statuses leaves =
    elim (resume_calls (record careful { world = record scripted { leaves_messages = leaves } })
      (("c2", approved) ∷ []) careful.tools 1 0 true asked.tool_calls paused [] []).0 [
        | none ↦ none
        | some (s, msgs) ↦ some (map (λ tc. tc.status) (calls_at 1 s.messages))
      ]

-- What the loop of Resume calls, to run it.
unfoldable resume_code : Unit {0}
unfolding scripted resume_calls is_terminal ◌>>=◌ skip_call remove_interrupt_for_tool_call
    remove_first pure resolve_call resolve_tool_call find as_approval_payload get_field execute_tool
    get persist_or_stop persist_session call record_effect backfill update_at
    client_side_payload_json error_text return_early
resume_code = tt

kept_results : stored_statuses true ≡ some ("completed" ∷ "failed" ∷ "completed" ∷ [])
unfolding resume_code
kept_results = refl

-- A store that replaces the session's messages keeps the first result only.
lost_result : stored_statuses false ≡ some ("completed" ∷ "failed" ∷ "pending" ∷ [])
unfolding resume_code
lost_result = refl
