-- ===== src/Agent/Runner/Paused.antt =====
-- Batches with a gated call.
use rakit.Prelude.{
  String, ◌≡◌, refl, Bool, true, false, ◌&&◌, List, [], ◌∷◌, ◌++◌, none, some, Option-cases, inl,
  inr, length, arith,
}
use mathlib.Core.List.{append-nil}
use rakit.Metadata.{Session}
use rakit.Tool.{Registry}
use rakit.Provider.{ToolCall, ProviderMessage}
use rakit.Agent.Event.{Interrupt}
use rakit.Agent.World.{Effect}
use rakit.Agent.Config.{Agent}
use rakit.Agent.Runner.{execute_calls, pause_batch, run_batch}
use rakit.Agent.Interrupts.{gate}
use rakit.Agent.Stream.{Reply}
use mathlib.Core.Path.{subst}
use rakit.Agent.Interrupts.Gates.{Matches, classify_pending-Matches}
use rakit.Agent.Runner.Closed.{
  is_plain, Closed, Closed-bind, Closed-known, Closed-call, emit_calls-Closed,
  persist_or_stop-Closed, pause_batch-Closed,
}

-- No tool is executed and no result is shown.
abbrev pub all_plain : List Effect → Bool
all_plain [] = true
all_plain (e ∷ t) = is_plain e && all_plain t

plain :
    (e : Effect)
    → is_plain e ≡ true
    → (u : List Effect) → all_plain u ≡ true
    → all_plain (e ∷ u) ≡ true
plain e p u d = ground arith

abbrev pub any_gated : {W : Type 0} → Agent W → Registry → List ToolCall → Bool
any_gated a g [] = false
any_gated a g (tc ∷ tcs) =
    let rest = any_gated a g tcs in elim (gate a g tc) [ none ↦ rest | some kind ↦ true ]

module _ {W : Type 0} (a : Agent W) (g : Registry) where
  Matches-gated : (tcs : List ToolCall) → Matches a g tcs [] → any_gated a g tcs ≡ false
  Matches-gated [] m = refl
  Matches-gated (tc ∷ tcs) m = elim (Option-cases (gate a g tc)) [
    | inl p ↦ rw (any_gated, p) (Matches-gated tcs (rw (Matches, p) at m))
    | inr (kind, p) ↦ let (id, rest, e, more) = (rw (Matches, p) at m) in absurd (ground (arith, e))
  ]

  -- If a call of the batch needs an approval or runs on the client, the run executes no tool of
  -- that batch and shows no result.
  pub run_batch-paused :
      (thread run : String) (r : Reply) (s : Session) (msgs : List ProviderMessage) (w : W)
      → any_gated a g r.tool_calls ≡ true
      → all_plain (run_batch a thread run g r s msgs w).1 ≡ true
  unfolding run_batch
  run_batch-paused thread run r s msgs w gated =
      subst (λ t. all_plain t ≡ true) (append-nil (run_batch a thread run g r s msgs w).1)
        (closed.closed w [] refl)
    where
      ending :
          (s1 : Session) (is : List Interrupt)
          → Matches a g r.tool_calls is
          → Closed
              (λ t. all_plain t ≡ true)
              (elim is [
                | [] ↦ execute_calls a g (length s.messages) 0 r.tool_calls s1 (
                    msgs
                    ++ (record {
                      role = "assistant";
                      content = r.content;
                      tool_calls = r.tool_calls;
                    }
                        ∷ []))
                | i ∷ is' ↦ pause_batch a thread run (length s.messages) r.tool_calls (i ∷ is') s1
              ])
      ending s1 [] m = absurd (ground (arith, gated, Matches-gated r.tool_calls m))
      ending s1 (i ∷ is) m = pause_batch-Closed a plain thread run _ _ _ s1

      closed : Closed (λ t. all_plain t ≡ true) (run_batch a thread run g r s msgs)
      closed = Closed-bind _ _ (Closed-call _) (λ id. Closed-bind _ _ (Closed-call _) (λ now.
          Closed-bind _ _ (persist_or_stop-Closed a plain _ _) (λ s1.
            Closed-bind _ _ (emit_calls-Closed a plain r.tool_calls) (λ _. Closed-known _ _ (λ w'.
              let (is, w'', e, m) = classify_pending-Matches a g r.tool_calls w' in
              (is, w'', e, ending s1 is m))))))
