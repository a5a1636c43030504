-- ===== src/Agent/Subagent/Answered.antt =====
-- What `RunSubagent` returns to the agent that called it.
use Prim.Native.Nat.{ℕ, suc, ◌≤◌}
use rakit.Prelude.{
  String, ◌≡◌, refl, sym, ◌∙◌, Bool, true, not, Option, none, some, List, [], ◌∷◌, ◌++◌, Result, ok,
  err, ◌==◌, arith,
}
use rakit.Metadata.{Session}
use rakit.Provider.{Error}
use rakit.Agent.World.{
  World, Effect, emitted, saved, save_failed, requested, executed, Run, then_run, ◌>>=◌, pure, call,
}
use rakit.Agent.Config.{Agent}
use rakit.Agent.Conversation.Quiet.{
  silent, silent→unfinished, silent-append, Quiet, IsQuiet, IsQuiet-ask, IsQuiet-pure,
  IsQuiet-Result, IsQuiet-if, Answered,
}
use rakit.Agent.Conversation.Finished.{persist_session-IsQuiet, run_with_session-Answered}
use rakit.Agent.Runner.Traces.{ended, requests, ended-append, requests-append}
use rakit.Agent.Subagent.{spawn}
use rakit.Agent.Subagent.Delegated.{
  text_of, create_session_for_user, collected, run_task, run_subagent,
}

text_of-append : (t u : List Effect) → silent t ≡ true → text_of (t ++ u) ≡ text_of u
unfolding text_of
text_of-append [] u p = refl
text_of-append (emitted e ∷ t) u p = absurd (ground arith)
text_of-append (saved s ∷ t) u p = text_of-append t u p
text_of-append (save_failed s ∷ t) u p = text_of-append t u p
text_of-append (requested r ∷ t) u p = text_of-append t u p
text_of-append (executed x i ∷ t) u p = text_of-append t u p

module _ {W : Type 0} where
  -- An answer is the whole text of a run that has ended, after at most `n` requests; an error comes
  -- without an event.
  abbrev pub Delegated : ℕ → Option (Result Error String) × List Effect × W → Type 0
  Delegated n (some (ok text), t, w) = (text ≡ text_of t) × (ended t ≡ true) × (requests t ≤ n)
  Delegated n (some (err e), t, w) = silent t ≡ true
  Delegated n (none, t, w) = ⊥

  collected-Delegated :
      (create : Agent W → String → W → Result Error Session × W) (n : ℕ)
      (r : Option (Result Error (Unit {0})) × List Effect × W)
      → Answered n r
      → Delegated n (collected create r)
  collected-Delegated create n (some (ok u), t, w) (p, q) = (refl, p, q)
  collected-Delegated create n (some (err e), t, w) h = h
  collected-Delegated create n (none, t, w) h = h

  then_run-Delegated :
      {A : Type 0} (n : ℕ) (r : Option A × List Effect × W) (f : A → Run W (Result Error String))
      → Quiet 0 r
      → ((x : A) (w : W) → Delegated n (f x w))
      → Delegated n (then_run r f)
  then_run-Delegated n (none, t, w) f p g = absurd p
  then_run-Delegated n (some x, t, w) f (p, q) g = go (f x w) (g x w)
    where
      go :
          (r : Option (Result Error String) × List Effect × W)
          → Delegated n r
          → Delegated n (r.0, t ++ r.1, r.2)
      go (some (ok text), u, v) (e, p', q') = (
        e ∙ sym (text_of-append t u p),
        ended-append t u (silent→unfinished t p) p',
        omega (arith, requests-append t u),
      )
      go (some (err e), u, v) h = silent-append t u p h
      go (none, u, v) h = h

  module _ (create : Agent W → String → W → Result Error Session × W) where
    create_session-IsQuiet :
        (a : Agent W) (parent user_id : String)
        → IsQuiet 0 (create_session_for_user create a parent user_id)
    unfolding create_session_for_user
    create_session-IsQuiet a parent user_id = IsQuiet-if (not a.has_store) _ _ (IsQuiet-pure _) (
        IsQuiet-ask _ _ (λ r.
          IsQuiet-Result r _ _
            (λ s. IsQuiet-if (parent == "") _ _ (IsQuiet-pure _) (persist_session-IsQuiet a _))
            (λ e. IsQuiet-pure _)))

    run_task-Delegated :
        (has_protocol : Bool) (task : String) (child : Agent W) (r : Result Error Session) (w : W)
        → Delegated (suc child.max_iterations) (run_task create has_protocol task child r w)
    unfolding run_task pure
    run_task-Delegated has_protocol task child (err e) w = refl
    run_task-Delegated has_protocol task child (ok s) w =
        collected-Delegated create _ _ (run_with_session-Answered child has_protocol s.id task w)

    -- RunSubagent always returns to the agent that called it. It returns an error after no event,
    -- or the concatenated text deltas of a run that has ended with a RunFinishedEvent or an
    -- ErrorEvent and has asked the provider at most max_iterations + 1 times.
    pub run_subagent-Delegated :
        (world_of : String → World W) (a : Agent W) (has_protocol : Bool)
        (parent_session_id task system : String) (w : W)
        → Delegated
            (suc a.max_iterations)
            (run_subagent create world_of a has_protocol parent_session_id task system w)
    unfolding run_subagent spawn ◌>>=◌ call pure
    run_subagent-Delegated world_of a has_protocol parent_session_id task system w =
        then_run-Delegated {A = Result Error Session} _ _ _
          ((create_session-IsQuiet _ parent_session_id "").within _)
          (run_task-Delegated has_protocol task _)
