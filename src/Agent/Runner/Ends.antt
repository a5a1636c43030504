-- ===== src/Agent/Runner/Ends.antt =====
-- How a run of the agentic loop ends, and how often it asks the provider.
use Prim.Native.Nat.{ℕ, zero, suc, ◌+◌, ◌≤◌}
use rakit.Prelude.{String, ◌≡◌, refl, true, List, [], ◌∷◌, Option, none, some, arith}
use rakit.Metadata.{Session, Value}
use rakit.Tool.{Registry}
use rakit.Provider.{ToolCall, ProviderMessage}
use rakit.Agent.Event.{RunOutcome, run_finished}
use rakit.Agent.World.{Effect, emitted, Run, then_run, ◌>>=◌, ◌>>◌, record_effect}
use rakit.Agent.Config.{Agent}
use rakit.Agent.Stream.{Reply}
use rakit.Agent.Runner.{run_batch, finish_reply, continue_agentic_loop}
use rakit.Agent.Runner.Traces.{ended, requests, ended-append, requests-append, Within, Stays}
use rakit.Agent.Runner.Steps.{Stays-call}
use rakit.Agent.Runner.Pieces.{
  load_registry-Stays, stop_on-Stays, request_reply-Stays, run_batch-Stays, finish_reply-Stays,
}

module _ {W : Type 0} (a : Agent W) where
  -- At most `n` requests, and an end that no `RunFinishedEvent` precedes.
  abbrev pub IsEnd : {A : Type 0} → ℕ → Option A × List Effect × W → Type 0
  IsEnd n (x, t, w) = (ended t ≡ true) × (requests t ≤ n)

  pub record Ends {A : Type 0} (n : ℕ) (m : Run W A) : Type 0 where
    pub at : (w : W) → IsEnd n (m w)

  then_run-IsEnd :
      {A B : Type 0} (n k l : ℕ) (r : Option A × List Effect × W) (f : A → Run W B)
      → n + k ≤ l
      → Within n r
      → ((x : A) (w : W) → IsEnd k (f x w))
      → IsEnd l (then_run r f)
  then_run-IsEnd n k l (none, t, w) f le (p, q) g = (p, omega arith)
  then_run-IsEnd n k l (some x, t, w) f le (p, q) g =
      let u = (f x w).1 in
      let (p', q') = g x w in (ended-append t u p p', omega (arith, requests-append t u))

  pub Ends-bind :
      {A B : Type 0} (n k : ℕ) {l : ℕ} (m : Run W A) (f : A → Run W B)
      → n + k ≤ l
      → Stays n m
      → ((x : A) → Ends k (f x))
      → Ends l (m >>= f)
  unfolding ◌>>=◌
  Ends-bind n k {l} m f le p q = record {
    at = λ w. then_run-IsEnd n k l (m w) f le (p.within w) (λ x. (q x).at);
  }

  finished :
      (n : ℕ) (thread run : String)
      → Ends n (
          record_effect {W = W}
            (emitted (run_finished thread run RunOutcome.success [] Value.null)))
  unfolding record_effect
  finished n thread run = record { at = λ w. (refl, omega arith) }

  pub continue_agentic_loop-Ends :
      (thread run : String) (n : ℕ) (s : Session) (msgs : List ProviderMessage)
      → Ends n (continue_agentic_loop a thread run n s msgs)
  unfolding continue_agentic_loop
  continue_agentic_loop-Ends thread run zero s msgs = finished 0 thread run
  continue_agentic_loop-Ends thread run (suc n) s msgs =
      Ends-bind 0 (suc n) _ _ (omega arith) (Stays-call _) (λ c.
        Ends-bind 0 (suc n) _ _ (omega arith) (stop_on-Stays a c) (λ _.
          Ends-bind 0 (suc n) _ _ (omega arith) (load_registry-Stays a) (λ g.
            Ends-bind 1 n _ _ (omega arith) (request_reply-Stays a _)
              (λ r. replied r r.tool_calls g.0 (continue_agentic_loop-Ends thread run n)))))
    where
      replied :
          (r : Reply) (tcs : List ToolCall) (g : Registry)
          → ((s' : Session) (ms : List ProviderMessage)
              → Ends n (continue_agentic_loop a thread run n s' ms))
          → Ends n (elim tcs [
            | [] ↦
                finish_reply a r s
                >> record_effect
                    (emitted (run_finished thread run RunOutcome.success [] Value.null))
            | tc ∷ tcs' ↦ run_batch a thread run g r s msgs >>= λ x.
                continue_agentic_loop a thread run n x.0 x.1
          ])
      replied r [] g again =
          Ends-bind 0 n _ _ (omega arith) (finish_reply-Stays a r s) (λ _. finished n thread run)
      replied r (tc ∷ tcs) g again =
          Ends-bind 0 n _ _ (omega arith) (run_batch-Stays a thread run g r s msgs)
            (λ x. again x.0 x.1)

  -- Whatever the provider, the store, the tools and the hooks answer, a run of the loop with `n`
  -- iterations asks the provider at most `n` times, its last effect is a `RunFinishedEvent` or an
  -- `ErrorEvent`, and no `RunFinishedEvent` comes before that.
  pub continue_agentic_loop-ended :
      (thread run : String) (n : ℕ) (s : Session) (msgs : List ProviderMessage) (w : W)
      → (ended (continue_agentic_loop a thread run n s msgs w).1 ≡ true)
        × (requests (continue_agentic_loop a thread run n s msgs w).1 ≤ n)
  continue_agentic_loop-ended thread run n s msgs w =
      (continue_agentic_loop-Ends thread run n s msgs).at w
