-- ===== src/Agent/Runner/Durable.antt =====
-- Writes and `ToolResultEvent`s among the effects of a batch.
use Prim.Native.Nat.{ℕ, suc}
use rakit.Prelude.{
  Bool-cases, String, ◌≡◌, refl, ap, ◌∙◌, Bool, true, false, List, [], ◌∷◌, Result-cases, ok, inl,
  inr, map, drop, length, arith,
}
use mathlib.Core.List.{append-nil}
use rakit.Metadata.{Session}
use rakit.Tool.{Registry, get}
use rakit.Provider.{ToolCall, ProviderMessage}
use rakit.Agent.Event.{Event}
use rakit.Agent.World.{Effect, emitted, saved, Run, ◌>>=◌, pure, return_early, call, record_effect}
use rakit.Agent.Config.{Agent}
use rakit.Agent.Persistence.{backfill, persist_session, persist_or_stop}
use rakit.Agent.Runner.{execute_tool, execute_calls, run_batch}
use rakit.Agent.Stream.{Reply}
use mathlib.Core.Path.{subst}
use rakit.Agent.Runner.Closed.{
  is_plain, Closed, Closed-bind, Closed-pure, Closed-call, Closed-record, Closed-Option,
  Closed-List, Closed-Result, emit_calls-Closed, classify_pending-Closed, pause_batch-Closed,
}
use rakit.Agent.Runner.Stored.{
  holds_result, calls_at, call_ids, calls_at-backfill, calls_at-append,
  call_ids-provider_tool_calls_to_records,
}

abbrev pub is_result : Effect → Bool
is_result (emitted (Event.tool_result id r)) = true
is_result _ = false

-- Each `ToolResultEvent` stands directly behind the write of a session that holds the result.
pub data IsDurable : List Effect → Type 0 where
  done : IsDurable []
  other : (e : Effect) (t : List Effect) → is_result e ≡ false → IsDurable t → IsDurable (e ∷ t)
  stored :
      (s : Session) (id r : String) (t : List Effect)
      → holds_result id r s.messages ≡ true
      → IsDurable t
      → IsDurable (saved s ∷ emitted (Event.tool_result id r) ∷ t)

plain : (e : Effect) → is_plain e ≡ true → (u : List Effect) → IsDurable u → IsDurable (e ∷ u)
plain e p u d = other e u (ground arith) d

module _ {W : Type 0} (a : Agent W) where
  pub execute_tool-Closed :
      (g : Registry) (name arguments : String) → Closed IsDurable (execute_tool a g name arguments)
  unfolding execute_tool
  execute_tool-Closed g name arguments = Closed-Option (get name g) _ _ (Closed-pure _) (λ t.
      Closed-Result (a.world.unmarshal arguments) _ _
        (λ input.
          Closed-bind _ _ (Closed-record _ (λ u. other _ u refl))
            (λ _. Closed-bind _ _ (Closed-call _) (λ r. Closed-pure _)))
        (λ e. Closed-pure _))

  module _
      (keeps : (s s' : Session) (w : W)
        → (a.world.update_session s w).0 ≡ ok s'
        → s'.messages ≡ s.messages) where
    -- A result that is shown behind the write of a session that holds it.
    pub stored-Closed :
        {A : Type 0} (what id r : String) (s : Session) (k : Session → Run W A)
        → holds_result id r s.messages ≡ true
        → ((s' : Session) → s'.messages ≡ s.messages → Closed IsDurable (k s'))
        → Closed IsDurable (
            persist_or_stop a what s >>= λ s'.
            record_effect (emitted (Event.tool_result id r)) >>= λ _. k s')
    unfolding persist_or_stop persist_session ◌>>=◌ pure call record_effect return_early
    stored-Closed what id r s k h q = elim (Bool-cases a.has_store) [
      | inl set ↦ record {
        closed = λ w u d. elim (Result-cases (a.world.update_session s w).0) [
          | inl (s', p) ↦ rw (set, p) (stored s id r _ h ((q s' (keeps s s' w p)).closed _ u d))
          | inr (e, p) ↦ rw (set, p) (other _ _ refl (other _ _ refl d))
        ];
      }
      | inr unset ↦ record { closed = λ w u d. rw unset (other _ _ refl d) }
    ]

    execute_calls-Closed :
        (g : Registry) (idx i : ℕ) (tcs : List ToolCall) (s : Session) (msgs : List ProviderMessage)
        → call_ids (drop i (calls_at idx s.messages)) ≡ map (λ tc. tc.id) tcs
        → Closed IsDurable (execute_calls a g idx i tcs s msgs)
    unfolding execute_calls backfill
    execute_calls-Closed g idx i [] s msgs p = Closed-pure _
    execute_calls-Closed g idx i (tc ∷ tcs) s msgs p =
        Closed-bind _ _ (execute_tool-Closed g tc.name tc.arguments) (λ x.
          let (q, h) = calls_at-backfill idx i x.0 x.1 s.messages tc.id _ p in
          stored-Closed _ tc.id x.0 _ _ h (λ s' e.
            execute_calls-Closed g idx (suc i) tcs s' _
              (ap (λ ms. call_ids (drop (suc i) (calls_at idx ms))) e ∙ q)))

    -- A statement behind a write, on the session that the store gives back.
    pub persist-Closed :
        {A : Type 0} (what : String) (s : Session) (k : Session → Run W A)
        → ((s' : Session) → s'.messages ≡ s.messages → Closed IsDurable (k s'))
        → Closed IsDurable (persist_or_stop a what s >>= k)
    unfolding persist_or_stop persist_session ◌>>=◌ pure call record_effect return_early
    persist-Closed what s k q = elim (Bool-cases a.has_store) [
      | inl set ↦ record {
        closed = λ w u d. elim (Result-cases (a.world.update_session s w).0) [
          | inl (s', p) ↦ rw (set, p) (other _ _ refl ((q s' (keeps s s' w p)).closed _ u d))
          | inr (e, p) ↦ rw (set, p) (other _ _ refl (other _ _ refl d))
        ];
      }
      | inr unset ↦ record { closed = λ w u d. rw unset (other _ _ refl d) }
    ]

    run_batch-Closed :
        (thread run : String) (g : Registry) (r : Reply) (s : Session) (msgs : List ProviderMessage)
        → Closed IsDurable (run_batch a thread run g r s msgs)
    unfolding run_batch
    run_batch-Closed thread run g r s msgs = Closed-bind _ _ (Closed-call _) (λ id.
        Closed-bind _ _ (Closed-call _) (λ now. persist-Closed _ _ _ (λ s1 e.
          Closed-bind _ _ (emit_calls-Closed a plain r.tool_calls) (λ _.
            Closed-bind _ _ (classify_pending-Closed a plain g r.tool_calls) (λ is.
              Closed-List is _ _
                (execute_calls-Closed g _ 0 _ s1 _ (
                  ap (λ ms. call_ids (calls_at (length s.messages) ms)) e
                  ∙ ap call_ids (calls_at-append s.messages _)
                  ∙ call_ids-provider_tool_calls_to_records r.tool_calls))
                (λ i is'. pause_batch-Closed a plain _ _ _ _ _ s1))))))

    -- In the effects of one batch, each `ToolResultEvent` stands directly behind the successful write
    -- of a session that holds the call's id with this result, if the store gives back the messages
    -- that it was given.
    pub run_batch-IsDurable :
        (thread run : String) (g : Registry) (r : Reply) (s : Session) (msgs : List ProviderMessage)
        (w : W)
        → IsDurable (run_batch a thread run g r s msgs w).1
    run_batch-IsDurable thread run g r s msgs w =
        subst IsDurable (append-nil _) ((run_batch-Closed thread run g r s msgs).closed w [] done)
