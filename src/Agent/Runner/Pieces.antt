-- ===== src/Agent/Runner/Pieces.antt =====
-- The statements of the agentic loop, each with the requests that it makes.
use Prim.Native.Nat.{ℕ, suc}
use rakit.Prelude.{◌&&◌, String, refl, List, [], ◌∷◌, Option, none, some, arith, ◌==◌}
use rakit.Metadata.{Session, Value}
use rakit.Tool.{Registry, get}
use rakit.Provider.{Error, ToolCall, ProviderMessage, Request, ProviderEvent}
use rakit.Agent.Event.{RunOutcome, Interrupt, run_finished}
use rakit.Agent.World.{SkillEntry, emitted, ◌>>=◌, ◌>>◌, return_early, record_effect}
use rakit.Agent.Config.{Agent}
use rakit.Agent.Interrupts.{gate, interrupt_id, classify_pending}
use rakit.Agent.Tools.{
  load_registry, build_merged_registry, skill_tools, persisted_tools, mcp_tools, load_skills,
}
use rakit.Agent.Stream.{Reply, convert_event, start_text, read_event, read_stream}
use rakit.Agent.Runner.{
  execute_tool, execute_calls, emit_calls, pause_batch, run_batch, stop_on, request_reply,
  finish_reply,
}
use rakit.Agent.Runner.Traces.{Stays, Stays-bind}
use rakit.Agent.Runner.Steps.{
  Stays-pure, Stays-record, Stays-after, Stays-Result, Stays-Option, Stays-List, Stays-Bool,
  Stays-stop, Stays-ask, Stays-then, persist_or_stop-Stays, emit_hooked-Stays,
}

module _ {W : Type 0} (a : Agent W) where
  load_skills-Stays : (es : List SkillEntry) → Stays 0 (load_skills a es)
  unfolding load_skills
  load_skills-Stays [] = Stays-pure _
  load_skills-Stays (e ∷ es) =
      Stays-Bool e.enabled _ _
        (Stays-ask _ _ (λ found. Stays-then _ _ (load_skills-Stays es) (λ others. Stays-pure _)))
        (load_skills-Stays es)

  pub load_registry-Stays : Stays 0 (load_registry a)
  unfolding load_registry build_merged_registry skill_tools persisted_tools mcp_tools
  load_registry-Stays = Stays-then _ _ built (λ r. Stays-pure _)
    where
      skills : Stays 0 (skill_tools a)
      skills =
          Stays-Bool (a.has_skills && a.has_store) _ _
            (Stays-ask _ _ (λ r.
              Stays-Result r _ _ (λ es. Stays-then _ _ (load_skills-Stays es) (λ l. Stays-pure _))
                (λ e. Stays-pure _)))
            (Stays-pure _)

      mcp : Stays 0 (mcp_tools a)
      mcp = Stays-Bool a.has_mcp _ _ (Stays-ask _ _ (λ r. Stays-pure _)) (Stays-pure _)

      persisted : Stays 0 (persisted_tools a)
      persisted = Stays-Bool a.has_store _ _ (Stays-ask _ _ (λ ds. Stays-pure _)) (Stays-pure _)

      built : Stays 0 (build_merged_registry a)
      built = Stays-then _ _ skills (λ r.
          Stays-Result r _ _
            (λ l. Stays-then _ _ persisted (λ ds.
              Stays-Result ds _ _ (λ ds'. Stays-then _ _ mcp (λ ts. Stays-pure _))
                (λ e. Stays-pure _)))
            (λ e. Stays-pure _))

  start_text-Stays : (r : Reply) → Stays 0 (start_text a r)
  unfolding start_text
  start_text-Stays r =
      Stays-Option r.text_message_id _ _
        (Stays-ask _ _ (λ id. Stays-then _ _ (emit_hooked-Stays a _ refl) (λ _. Stays-pure _)))
        (λ id. Stays-pure r)

  read_event-Stays : (ev : ProviderEvent) (r : Reply) → Stays 0 (read_event a ev r)
  unfolding read_event convert_event
  read_event-Stays (ProviderEvent.error e) r = Stays-pure _
  read_event-Stays (ProviderEvent.text_delta d) r =
      Stays-then _ _ (start_text-Stays r)
        (λ r'. Stays-then _ _ (emit_hooked-Stays a _ refl) (λ _. Stays-pure _))
  read_event-Stays (ProviderEvent.tool_call tc) r =
      Stays-then _ _ (emit_hooked-Stays a _ refl) (λ _. Stays-pure _)
  read_event-Stays (ProviderEvent.tool_result id x) r =
      Stays-then _ _ (emit_hooked-Stays a _ refl) (λ _. Stays-pure _)
  read_event-Stays ProviderEvent.done r = Stays-then _ _ (Stays-pure _) (λ _. Stays-pure _)

  read_stream-Stays : (evs : List ProviderEvent) (r : Reply) → Stays 0 (read_stream a evs r)
  unfolding read_stream
  read_stream-Stays [] r = Stays-pure r
  read_stream-Stays (ev ∷ evs) r =
      Stays-then _ _ (read_event-Stays ev r) (λ r'. read_stream-Stays evs r')

  pub stop_on-Stays : (e : Option Error) → Stays 0 (stop_on a e)
  unfolding stop_on
  stop_on-Stays none = Stays-pure tt
  stop_on-Stays (some e) = Stays-stop (some e)

  pub request_reply-Stays : (request : Request) → Stays 1 (request_reply a request)
  unfolding request_reply
  request_reply-Stays request =
      Stays-bind _ _ (omega arith) (Stays-record {n = 1} _ refl (omega arith)) (λ _.
        Stays-ask _ _ (λ r.
          Stays-Result r _ _
            (λ evs. Stays-then _ _ (read_stream-Stays evs _) (λ r'.
              Stays-then _ _ (stop_on-Stays r'.stream_error) (λ _. Stays-ask _ _ (λ c.
                Stays-then _ _ (stop_on-Stays c) (λ _.
                  Stays-then _ _
                    (Stays-Option r'.text_message_id _ _ (Stays-pure tt)
                      (λ id. emit_hooked-Stays a _ refl))
                    (λ _. Stays-pure r'))))))
            (λ e. Stays-stop (some e))))

  pub execute_tool-Stays :
      (registry : Registry) (name arguments : String)
      → Stays 0 (execute_tool a registry name arguments)
  unfolding execute_tool
  execute_tool-Stays registry name arguments =
      Stays-Option (get name registry) _ _ (Stays-pure _) (λ t.
        Stays-Result (a.world.unmarshal arguments) _ _
          (λ input.
            Stays-then _ _ (Stays-record _ refl (omega arith))
              (λ _. Stays-ask _ _ (λ r. Stays-pure _)))
          (λ e. Stays-pure _))

  execute_calls-Stays :
      (registry : Registry) (idx i : ℕ) (tcs : List ToolCall) (s : Session)
      (msgs : List ProviderMessage)
      → Stays 0 (execute_calls a registry idx i tcs s msgs)
  unfolding execute_calls
  execute_calls-Stays registry idx i [] s msgs = Stays-pure _
  execute_calls-Stays registry idx i (tc ∷ tcs) s msgs =
      Stays-then _ _ (execute_tool-Stays registry tc.name tc.arguments) (λ r.
        Stays-then _ _ (persist_or_stop-Stays a _ _) (λ s'.
          Stays-then _ _ (Stays-record _ refl (omega arith))
            (λ _. execute_calls-Stays registry idx (suc i) tcs s' _)))

  emit_calls-Stays : (tcs : List ToolCall) → Stays 0 (emit_calls a tcs)
  unfolding emit_calls
  emit_calls-Stays [] = Stays-pure tt
  emit_calls-Stays (tc ∷ tcs) =
      Stays-after _ _ (Stays-record _ refl (omega arith))
        (Stays-after _ _ (Stays-record _ refl (omega arith)) (emit_calls-Stays tcs))

  classify_pending-Stays :
      (registry : Registry) (tcs : List ToolCall) → Stays 0 (classify_pending a registry tcs)
  unfolding classify_pending interrupt_id
  classify_pending-Stays registry [] = Stays-pure _
  classify_pending-Stays registry (tc ∷ tcs) =
      Stays-Option (gate a registry tc) _ _ (classify_pending-Stays registry tcs) (λ kind.
        Stays-then _ _ (Stays-ask _ _ (λ id. Stays-pure _))
          (λ id. Stays-then _ _ (classify_pending-Stays registry tcs) (λ is. Stays-pure _)))

  pause_batch-Stays :
      (thread run : String) (idx : ℕ) (tcs : List ToolCall) (is : List Interrupt) (s : Session)
      → Stays 0 (pause_batch a thread run idx tcs is s)
  unfolding pause_batch ◌>>=◌ record_effect return_early
  pause_batch-Stays thread run idx tcs is s =
      Stays-then _ _ (persist_or_stop-Stays a _ _) (λ _. paused)
    where
      paused : Stays 0 (
          record_effect {W = W}
            (emitted (run_finished thread run RunOutcome.interrupt is Value.null))
          >> return_early {A = Session × List ProviderMessage})
      paused = record { within = λ w. (refl, omega arith) }

  pub run_batch-Stays :
      (thread run : String) (registry : Registry) (r : Reply) (s : Session)
      (msgs : List ProviderMessage)
      → Stays 0 (run_batch a thread run registry r s msgs)
  unfolding run_batch
  run_batch-Stays thread run registry r s msgs = Stays-ask _ _ (λ id. Stays-ask _ _ (λ now.
      Stays-then _ _ (persist_or_stop-Stays a _ _) (λ s1.
        Stays-then _ _ (emit_calls-Stays r.tool_calls) (λ _.
          Stays-then _ _ (classify_pending-Stays registry r.tool_calls) (λ is.
            Stays-List is _ _ (execute_calls-Stays registry _ _ _ s1 _)
              (λ i is'. pause_batch-Stays thread run _ _ _ s1))))))

  pub finish_reply-Stays : (r : Reply) (s : Session) → Stays 0 (finish_reply a r s)
  unfolding finish_reply
  finish_reply-Stays r s = Stays-Bool (r.content == "") _ _ (Stays-pure tt) (
      Stays-ask _ _ (λ id.
        Stays-ask _ _ (λ now. Stays-then _ _ (persist_or_stop-Stays a _ _) (λ _. Stays-pure tt))))
