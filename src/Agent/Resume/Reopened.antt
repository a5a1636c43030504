-- ===== src/Agent/Resume/Reopened.antt =====
-- `Resume` on the session that a pause has stored.
use text.Mathlib.Text.{starts_with}
use rakit.Prelude.{
  String, ◌≡◌, refl, ap, Bool, true, false, List, [], ◌∷◌, ◌++◌, ok, ◌==◌, if◌then◌else◌, length,
}
use rakit.Metadata.{Session, Message, ToolCallRecord, Value}
use rakit.Metadata
use rakit.Provider.{ToolCall}
use rakit.Agent.Event.{Event, RunOutcome, Interrupt}
use rakit.Agent.World.{emitted, saved, ◌>>=◌, pure, call, record_effect, return_early}
use rakit.Agent.Config.{Agent}
use rakit.Agent.Compaction.{provider_tool_calls_to_records}
use rakit.Agent.Interrupts.{
  interrupt_kind, kind_client_side, kind_approval, pending_status_for, interrupts_to_metadata,
}
use rakit.Agent.Persistence.{
  update_at, pause_calls, paused_session, with_tool_calls, persist_session, persist_or_stop,
}
use rakit.Agent.Runner.{pause_batch}
use rakit.Agent.Resume.Inputs.{
  ResumeInput, open_by_id, has_paused_call, input_by_tool_call, check_resume,
}
use rakit.Agent.Resume.Accepted.{Answers, check_resume-ok, paused_message-last}

IsPending : String → Type 0
IsPending s = starts_with s "pending" ≡ true

IsPending-if :
    (b : Bool) (x y : String) → IsPending x → IsPending y → IsPending (if b then x else y)
IsPending-if true x y p q = p
IsPending-if false x y p q = q

pending_status_for-IsPending :
    (id : String) (is : List Interrupt) → IsPending (pending_status_for id is)
unfolding pending_status_for IsPending
pending_status_for-IsPending id [] = refl
pending_status_for-IsPending id (i ∷ is) =
    let rest = pending_status_for-IsPending id is in
    IsPending-if (i.tool_call_id == id) _ _
      (IsPending-if (interrupt_kind i == kind_client_side) _ _ refl
        (IsPending-if (interrupt_kind i == kind_approval) _ _ refl rest))
      rest

-- A batch with a call is paused after its statuses are given.
has_paused_call-pause_calls :
    (opens : List Metadata.Interrupt) (tc : ToolCall) (tcs : List ToolCall) (is : List Interrupt)
    → has_paused_call opens (pause_calls (tc ∷ tcs) is (provider_tool_calls_to_records (tc ∷ tcs)))
      ≡ true
unfolding IsPending has_paused_call pause_calls provider_tool_calls_to_records
has_paused_call-pause_calls opens tc tcs is = rw (pending_status_for-IsPending tc.id is) refl

update_at-last :
    {A : Type 0} (f : A → A) (x : A) (xs : List A)
    → update_at (length xs) f (xs ++ (x ∷ [])) ≡ xs ++ (f x ∷ [])
unfolding update_at
update_at-last f x [] = refl
update_at-last f x (y ∷ ys) = ap (λ l. y ∷ l) (update_at-last f x ys)

-- The message of a paused batch.
abbrev pub paused_message_of : List ToolCall → List Interrupt → Message → Message
paused_message_of tcs is m = with_tool_calls (pause_calls tcs is m.tool_calls) m

pub paused_session-resumes :
    (quote : String → String) (id : String) (inputs : List ResumeInput) (ms : List Message)
    (m : Message) (tc : ToolCall) (tcs : List ToolCall) (i : Interrupt) (is : List Interrupt)
    (s : Session)
    → s.messages ≡ ms ++ (m ∷ [])
    → m.role ≡ "assistant"
    → m.tool_calls ≡ provider_tool_calls_to_records (tc ∷ tcs)
    → Answers (interrupts_to_metadata (i ∷ is)) inputs
    → check_resume quote id inputs (paused_session (length ms) (tc ∷ tcs) (i ∷ is) s)
      ≡ ok (
        length ms,
        paused_message_of (tc ∷ tcs) (i ∷ is) m,
        input_by_tool_call (open_by_id (interrupts_to_metadata (i ∷ is)) []) inputs [],
      )
unfolding interrupts_to_metadata
paused_session-resumes quote id inputs ms m tc tcs i is s shape role calls answers =
    check_resume-ok quote id inputs (paused_session (length ms) (tc ∷ tcs) (i ∷ is) s) _ _
      (length ms) (paused_message_of (tc ∷ tcs) (i ∷ is) m) refl answers
      (rw (shape, update_at-last (λ x. paused_message_of (tc ∷ tcs) (i ∷ is) x) m ms)
        (paused_message-last _ ms (paused_message_of (tc ∷ tcs) (i ∷ is) m) role
          (rw calls (has_paused_call-pause_calls _ tc tcs (i ∷ is)))))

module _ {W : Type 0} (a : Agent W) where
  -- A pause whose write succeeds stores a session and then ends the run with its interrupts. From
  -- the session that it stores, Resume goes on with the paused message, if the inputs name each of
  -- the interrupts once and nothing else, none by an empty id, where the last message of the
  -- history is the assistant's with the calls of the batch and there is a call and an interrupt.
  pub pause_batch-resumes :
      (id thread run : String) (inputs : List ResumeInput) (ms : List Message) (m : Message)
      (tc : ToolCall) (tcs : List ToolCall) (i : Interrupt) (is : List Interrupt)
      (s stored : Session) (w : W)
      → s.messages ≡ ms ++ (m ∷ [])
      → m.role ≡ "assistant"
      → m.tool_calls ≡ provider_tool_calls_to_records (tc ∷ tcs)
      → Answers (interrupts_to_metadata (i ∷ is)) inputs
      → a.has_store ≡ true
      → (a.world.update_session (paused_session (length ms) (tc ∷ tcs) (i ∷ is) s) w).0 ≡ ok stored
      → ((pause_batch a thread run (length ms) (tc ∷ tcs) (i ∷ is) s w).1
          ≡ saved (paused_session (length ms) (tc ∷ tcs) (i ∷ is) s)
            ∷ emitted (Event.run_finished thread run RunOutcome.interrupt (i ∷ is) Value.null)
            ∷ [])
        × (check_resume a.world.quote id inputs (paused_session (length ms) (tc ∷ tcs) (i ∷ is) s)
            ≡ ok (
              length ms,
              paused_message_of (tc ∷ tcs) (i ∷ is) m,
              input_by_tool_call (open_by_id (interrupts_to_metadata (i ∷ is)) []) inputs [],
            ))
  unfolding pause_batch persist_or_stop persist_session ◌>>=◌ pure call record_effect return_early
  pause_batch-resumes id thread run inputs ms m tc tcs i is s stored w shape role calls answers set
        written =
      (
        rw (set, written) refl,
        paused_session-resumes a.world.quote id inputs ms m tc tcs i is s shape role calls answers,
      )
