-- ===== src/Agent/Resume/Once.antt =====
-- The results that a resumed batch shows.
use Prim.Native.Nat.{ℕ, suc}
use rakit.Prelude.{
  String, Bool, true, false, List, [], ◌∷◌, Option, none, some, inl, inr, ◌==◌, if◌then◌else◌,
  Assoc, find, arith, Bool-cases, length,
}
use rakit.Metadata.{Session, ToolCallRecord}
use rakit.Tool.{Registry}
use rakit.Provider.{ProviderMessage}
use rakit.Agent.Event.{Event}
use rakit.Agent.World.{emitted, Run, pure}
use rakit.Agent.Config.{Agent}
use rakit.Agent.Runner.{execute_tool}
use rakit.Agent.Runner.Shown.{
  Shows, Shows-bind, Shows-then, Shows-le, Shows-pure, Shows-record, Shows-Option, Shows-Result,
  persist_or_stop-Shows, execute_tool-Shows,
}
use rakit.Agent.Resume.{
  is_terminal, remove_interrupt_for_tool_call, resolve_tool_call, skip_call, resolve_call,
  resume_calls, as_approval_payload, client_side_payload_json,
}
use rakit.Agent.Resume.Inputs.{ResumeInput}

-- The ids of the calls that have no result yet.
abbrev pub unresolved : List ToolCallRecord → List String
unresolved [] = []
unresolved (tc ∷ tcs) = if is_terminal tc then unresolved tcs else tc.id ∷ unresolved tcs

module _ {W : Type 0} (a : Agent W) where
  Shows-if :
      {A : Type 0} {n : ℕ} {ids : List String} (b : Bool) (m k : Run W A)
      → Shows n ids m
      → Shows n ids k
      → Shows n ids (if b then m else k)
  Shows-if true m k p q = p
  Shows-if false m k p q = q

  answered : {A : Type 0} (x : A) → Shows 1 [] (pure {W = W} x)
  answered x = Shows-le 1 _ (omega arith) (Shows-pure x)

  resolve_tool_call-Shows :
      (tc : ToolCallRecord) (inputs : Assoc ResumeInput) (g : Registry)
      → Shows 1 [] (resolve_tool_call a tc inputs g)
  unfolding resolve_tool_call
  resolve_tool_call-Shows tc inputs g =
      Shows-Option (find tc.id inputs) _ _ (execute_tool-Shows a g tc.name tc.arguments) (λ inp.
        Shows-if (inp.status == "cancelled") _ _ (answered _) (
          Shows-if (tc.status == "pending_approval") _ _
            (approval (as_approval_payload inp.payload))
            (Shows-if (tc.status == "pending_client") _ _ (answered _) (
              Shows-Result (a.world.marshal inp.payload) _ _ (λ s. answered _) (λ e. answered _)))))
    where
      approval :
          (o : Option Bool)
          → Shows {W = W} 1 [] (elim o [
            | some true ↦ execute_tool a g tc.name tc.arguments
            | some false ↦ pure (rakit.Agent.Resume.rejected a)
            | none ↦ pure (rakit.Agent.Resume.rejected a)
          ])
      approval none = answered _
      approval (some true) = execute_tool-Shows a g tc.name tc.arguments
      approval (some false) = answered _

  resolve_call-Shows :
      (tc : ToolCallRecord) (inputs : Assoc ResumeInput) (g : Registry) (idx i : ℕ) (live : Bool)
      (s : Session)
      → Shows 1 (tc.id ∷ []) (resolve_call a tc inputs g idx i live s)
  unfolding resolve_call
  resolve_call-Shows tc inputs g idx i live s =
      Shows-bind _ _ (resolve_tool_call-Shows tc inputs g) (λ r.
        Shows-then _ _ (persist_or_stop-Shows a _ _) (λ s'.
          Shows-bind _ _ (Shows-record (emitted (Event.tool_result tc.id r.0)))
            (λ _. Shows-pure _)))

  skip_call-Shows :
      (tc : ToolCallRecord) (live : Bool) (s : Session) → Shows 0 [] (skip_call a tc live s)
  unfolding skip_call
  skip_call-Shows tc live s =
      Shows-Option (remove_interrupt_for_tool_call tc.id s.open_interrupts) _ _ (Shows-pure _)
        (λ is. Shows-then _ _ (persist_or_stop-Shows a _ _) (λ s'. Shows-pure _))

  -- The loop of `Resume` over the calls of the paused message shows the results of the calls that
  -- had none, each once and in their order, and of no other; where it ends early it has shown the
  -- first ones of these. It executes at most as many tools as there are such calls.
  pub resume_calls-Shows :
      (inputs : Assoc ResumeInput) (g : Registry) (idx i : ℕ) (live : Bool)
      (tcs : List ToolCallRecord) (s : Session) (msgs : List ProviderMessage)
      → Shows
          (length (unresolved tcs))
          (unresolved tcs)
          (resume_calls a inputs g idx i live tcs s msgs)
  unfolding resume_calls
  resume_calls-Shows inputs g idx i live [] s msgs = Shows-pure _
  resume_calls-Shows inputs g idx i live (tc ∷ tcs) s msgs = elim (Bool-cases (is_terminal tc)) [
    | inl old ↦
        rw (old, resume_calls)
          (Shows-then _ _ (skip_call-Shows tc live s)
            (λ r. resume_calls-Shows inputs g idx (suc i) r.1 tcs r.0 _))
    | inr new ↦
        rw (new, resume_calls)
          (Shows-le _ _ (omega arith) (
            Shows-bind _ _ (resolve_call-Shows tc inputs g idx i live s)
              (λ r. resume_calls-Shows inputs g idx (suc i) _ tcs r.0 _)))
  ]
