-- ===== src/Agent/Conversation/Finished.antt =====
-- How a run with a session ends.
use Prim.Native.Nat.{ℕ, suc}
use rakit.Prelude.{
  ◌^^◌, String, refl, Bool, true, List, Option, none, some, Result, ok, err, arith, leb, length,
}
use rakit.Metadata.{Session, Message}
use rakit.Provider.{Error, message, wrapped}
use rakit.Agent.World.{saved, save_failed, Run, pure, record_effect}
use rakit.Agent.Config.{Agent, CompactionConfig}
use rakit.Agent.Compaction.{compact, should_compact}
use rakit.Agent.Persistence.{persist_session, in_background}
use rakit.Agent.Runner.Steps.{Stays-call, Stays-record}
use rakit.Agent.Runner.Ends.{Ends, Ends-bind, continue_agentic_loop-Ends}
use rakit.Agent.Conversation.{
  check_configured, compacted, start_loop, run_loaded, run_configured, run_with_session,
}
use rakit.Agent.Conversation.Quiet.{
  IsQuiet, IsQuiet-bind, IsQuiet-pure, IsQuiet-ask, IsQuiet-record, IsQuiet-Result, IsQuiet-Bool,
  IsQuiet-if, Answered, IsAnswered, IsAnswered-bind, IsAnswered-ask, refused, IsAnswered-Result,
}

module _ {W : Type 0} (a : Agent W) where
  in_background-Answered :
      (n : ℕ) (m : Run W (Unit {0})) → Ends a n m → IsAnswered n (in_background m)
  unfolding in_background
  in_background-Answered n m p = record { at = λ w. p.at w }

  stored-IsQuiet :
      (s : Session) (r : Result Error Session)
      → IsQuiet {W = W} 0 (record_effect (elim r [ ok s' ↦ saved s | err e ↦ save_failed s ]))
  stored-IsQuiet s (ok s') = IsQuiet-record (saved s) refl (omega arith)
  stored-IsQuiet s (err e) = IsQuiet-record (save_failed s) refl (omega arith)

  pub persist_session-IsQuiet : (s : Session) → IsQuiet 0 (persist_session a s)
  unfolding persist_session
  persist_session-IsQuiet s =
      IsQuiet-Bool a.has_store _ _
        (IsQuiet-ask _ _
          (λ r. IsQuiet-bind 0 0 _ _ (omega arith) (stored-IsQuiet s r) (λ _. IsQuiet-pure r)))
        (IsQuiet-pure _)

  compact-IsQuiet : (ms : List Message) (c : CompactionConfig) → IsQuiet 1 (compact a.world ms c)
  unfolding compact
  compact-IsQuiet ms c = IsQuiet-if (leb (length ms) c.keep_recent) _ _ (IsQuiet-pure _) (
      IsQuiet-bind 1 0 _ _ (omega arith) (IsQuiet-record _ refl (omega arith)) (λ _.
        IsQuiet-ask _ _ (λ r.
          IsQuiet-Result r _ _
            (λ content. IsQuiet-ask _ _ (λ id. IsQuiet-ask _ _ (λ now. IsQuiet-pure _)))
            (λ e. IsQuiet-pure _))))

  compacted-IsQuiet : (s : Session) → IsQuiet 1 (compacted a s)
  unfolding compacted
  compacted-IsQuiet s =
      IsQuiet-Bool (should_compact s.messages a.compaction) _ _
        (IsQuiet-bind 1 0 _ _ (omega arith) (compact-IsQuiet s.messages a.compaction)
          (λ r. IsQuiet-Result r _ _ (λ ms. persist_session-IsQuiet _) (λ e. IsQuiet-pure _)))
        (IsQuiet-pure _)

  start_loop-Ends : (s : Session) → Ends a a.max_iterations (start_loop a s)
  unfolding start_loop
  start_loop-Ends s = Ends-bind a 0 a.max_iterations _ _ (omega arith) (Stays-call _) (λ run_id.
      Ends-bind a 0 a.max_iterations _ _ (omega arith) (Stays-record _ refl (omega arith))
        (λ _. continue_agentic_loop-Ends a s.id run_id a.max_iterations s _))

  run_loaded-IsAnswered :
      (input : String) (s : Session) → IsAnswered (suc a.max_iterations) (run_loaded a input s)
  unfolding run_loaded
  run_loaded-IsAnswered input s = IsAnswered-ask _ _ (λ id. IsAnswered-ask _ _ (λ now.
      IsAnswered-bind 0 (suc a.max_iterations) _ _ (omega arith) (persist_session-IsQuiet _) (λ r.
        IsAnswered-Result r _ _ (λ s1.
          IsAnswered-bind 1 a.max_iterations _ _ (omega arith) (compacted-IsQuiet s1) (λ r2.
            IsAnswered-Result r2 _ _ (λ s2. in_background-Answered _ _ (start_loop-Ends s2)))))))

  run_configured-IsAnswered :
      (id input : String) → IsAnswered (suc a.max_iterations) (run_configured a id input)
  unfolding run_configured
  run_configured-IsAnswered id input = IsAnswered-ask _ _ loaded
    where
      loaded :
          (r : Result Error (Option Session))
          → IsAnswered (suc a.max_iterations) (elim r as (λ _. Run W (Result Error (Unit {0}))) [
            | err e ↦ pure (err (wrapped ("agent: load session " ^^ a.world.quote id ^^ ": ") e))
            | ok none ↦ pure (err (message ("agent: session " ^^ a.world.quote id ^^ " not found")))
            | ok (some s) ↦ run_loaded a input s
          ])
      loaded (err e) = refused _
      loaded (ok none) = refused _
      loaded (ok (some s)) = run_loaded-IsAnswered input s

  -- `RunWithSession` always returns to its caller. It returns an error after no event at all, or it
  -- returns the channel: then the last effect is a `RunFinishedEvent` or an `ErrorEvent`, no
  -- `RunFinishedEvent` comes before it, and the provider is asked at most `max_iterations + 1`
  -- times, once of them for a summary.
  pub run_with_session-Answered :
      (has_protocol : Bool) (id input : String) (w : W)
      → Answered (suc a.max_iterations) (run_with_session a has_protocol id input w)
  unfolding run_with_session
  run_with_session-Answered has_protocol id input w =
      (IsAnswered-Result (check_configured a has_protocol true) _ _
          (λ _. run_configured-IsAnswered id input)).at
        w
