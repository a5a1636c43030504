-- ===== src/Agent/Resume/Finished.antt =====
-- How a resumed run ends.
use Prim.Native.Nat.{ℕ, suc, ◌≤◌}
use rakit.Prelude.{
  ◌≡◌, refl, Bool, true, false, List, [], ◌∷◌, Option, none, some, ◌==◌, if◌then◌else◌, Assoc, find,
  arith,
}
use rakit.Metadata.{Session, ToolCallRecord, Message}
use rakit.Tool.{Registry}
use rakit.Provider.{ProviderMessage}
use rakit.Agent.World.{Run, pure}
use rakit.Agent.Config.{Agent}
use rakit.Agent.Runner.{execute_tool}
use rakit.Agent.Runner.Traces.{ended, requests, Stays}
use rakit.Agent.Runner.Steps.{
  Stays-pure, Stays-call, Stays-record, Stays-Result, Stays-Option, Stays-List, Stays-Bool,
  Stays-then, persist_or_stop-Stays,
}
use rakit.Agent.Runner.Pieces.{load_registry-Stays, execute_tool-Stays}
use rakit.Agent.Runner.Ends.{Ends, Ends-bind, continue_agentic_loop-Ends}
use rakit.Agent.Resume.{
  is_terminal, remove_interrupt_for_tool_call, resolve_tool_call, rejected, skip_call, resolve_call,
  resume_calls, as_approval_payload, clear_interrupts, resume_run,
}
use rakit.Agent.Resume.Inputs.{ResumeInput}

module _ {W : Type 0} (a : Agent W) where
  Stays-if :
      {A : Type 0} {n : ℕ} (b : Bool) (m k : Run W A)
      → Stays n m
      → Stays n k
      → Stays n (if b then m else k)
  Stays-if true m k p q = p
  Stays-if false m k p q = q

  resolve_tool_call-Stays :
      (tc : ToolCallRecord) (inputs : Assoc ResumeInput) (g : Registry)
      → Stays 0 (resolve_tool_call a tc inputs g)
  unfolding resolve_tool_call
  resolve_tool_call-Stays tc inputs g =
      Stays-Option (find tc.id inputs) _ _ (execute_tool-Stays a g tc.name tc.arguments) (λ inp.
        Stays-if (inp.status == "cancelled") _ _ (Stays-pure _) (
          Stays-if (tc.status == "pending_approval") _ _
            (approval (as_approval_payload inp.payload))
            (Stays-if (tc.status == "pending_client") _ _ (Stays-pure _) (
              Stays-Result (a.world.marshal inp.payload) _ _ (λ s. Stays-pure _)
                (λ e. Stays-pure _)))))
    where
      approval :
          (o : Option Bool)
          → Stays {W = W} 0 (elim o [
            | some true ↦ execute_tool a g tc.name tc.arguments
            | some false ↦ pure (rejected a)
            | none ↦ pure (rejected a)
          ])
      approval none = Stays-pure _
      approval (some true) = execute_tool-Stays a g tc.name tc.arguments
      approval (some false) = Stays-pure _

  resolve_call-Stays :
      (tc : ToolCallRecord) (inputs : Assoc ResumeInput) (g : Registry) (idx i : ℕ) (live : Bool)
      (s : Session)
      → Stays 0 (resolve_call a tc inputs g idx i live s)
  unfolding resolve_call
  resolve_call-Stays tc inputs g idx i live s =
      Stays-then _ _ (resolve_tool_call-Stays tc inputs g) (λ r.
        Stays-then _ _ (persist_or_stop-Stays a _ _)
          (λ s'. Stays-then _ _ (Stays-record _ refl (omega arith)) (λ _. Stays-pure _)))

  skip_call-Stays :
      (tc : ToolCallRecord) (live : Bool) (s : Session) → Stays 0 (skip_call a tc live s)
  unfolding skip_call
  skip_call-Stays tc live s =
      Stays-Option (remove_interrupt_for_tool_call tc.id s.open_interrupts) _ _ (Stays-pure _)
        (λ is. Stays-then _ _ (persist_or_stop-Stays a _ _) (λ s'. Stays-pure _))

  resume_calls-Stays :
      (inputs : Assoc ResumeInput) (g : Registry) (idx i : ℕ) (live : Bool)
      (tcs : List ToolCallRecord) (s : Session) (msgs : List ProviderMessage)
      → Stays 0 (resume_calls a inputs g idx i live tcs s msgs)
  unfolding resume_calls
  resume_calls-Stays inputs g idx i live [] s msgs = Stays-pure _
  resume_calls-Stays inputs g idx i live (tc ∷ tcs) s msgs =
      Stays-Bool (is_terminal tc) _ _
        (Stays-then _ _ (skip_call-Stays tc live s)
          (λ r. resume_calls-Stays inputs g idx (suc i) r.1 tcs r.0 _))
        (Stays-then _ _ (resolve_call-Stays tc inputs g idx i live s)
          (λ r. resume_calls-Stays inputs g idx (suc i) _ tcs r.0 _))

  clear_interrupts-Stays : (s : Session) → Stays 0 (clear_interrupts a s)
  unfolding clear_interrupts
  clear_interrupts-Stays s =
      Stays-List s.open_interrupts _ _ (Stays-pure s) (λ i is. persist_or_stop-Stays a _ _)

  -- A resumed run asks the provider at most `max_iterations` times; its last effect is a
  -- `RunFinishedEvent` or an `ErrorEvent`, and no `RunFinishedEvent` comes before that.
  pub resume_run-ended :
      (inputs : Assoc ResumeInput) (idx : ℕ) (paused : Message) (s : Session) (w : W)
      → (ended (resume_run a inputs idx paused s w).1 ≡ true)
        × (requests (resume_run a inputs idx paused s w).1 ≤ a.max_iterations)
  unfolding resume_run
  resume_run-ended inputs idx paused s w = run.at w
    where
      run : Ends a a.max_iterations (resume_run a inputs idx paused s)
      run = Ends-bind a 0 a.max_iterations _ _ (omega arith) (Stays-call _) (λ run_id.
          Ends-bind a 0 a.max_iterations _ _ (omega arith) (Stays-record _ refl (omega arith)) (λ _.
            Ends-bind a 0 a.max_iterations _ _ (omega arith) (load_registry-Stays a) (λ g.
              Ends-bind a 0 a.max_iterations _ _ (omega arith)
                (resume_calls-Stays inputs g.0 idx 0 true paused.tool_calls s _)
                (λ r.
                  Ends-bind a 0 a.max_iterations _ _ (omega arith) (clear_interrupts-Stays r.0)
                    (λ s2. continue_agentic_loop-Ends a s.id run_id a.max_iterations s2 _)))))
