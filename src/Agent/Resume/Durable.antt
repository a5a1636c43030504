-- ===== src/Agent/Resume/Durable.antt =====
-- Writes and `ToolResultEvent`s among the effects of a resumed batch.
use mathlib.Core.List.{append-nil, append_assoc}
use mathlib.Core.Path.{subst}
use rakit.Prelude.{
  ℕ, suc, String, ◌≡◌, refl, ap, ◌∙◌, sym, Bool, true, false, List, [], ◌∷◌, ◌++◌, Option, none,
  some, Option-cases, ok, inl, inr, ◌⊎◌, arith, drop, ◌==◌, if◌then◌else◌, Assoc, find,
}
use rakit.Metadata.{Session, ToolCallRecord}
use rakit.Tool.{Registry}
use rakit.Provider.{ProviderMessage}
use rakit.Agent.World.{Effect, Run, then_run, ◌>>=◌, pure, record_effect}
use rakit.Agent.Config.{Agent}
use rakit.Agent.Persistence.{backfill, with_open_interrupts, persist_or_stop}
use rakit.Agent.Runner.{execute_tool}
use rakit.Agent.Runner.Closed.{Closed, Closed-bind, Closed-pure, Closed-Option, Closed-Result}
use rakit.Agent.Runner.Stored.{holds_result, calls_at, call_ids, calls_at-backfill, call_ids-tail}
use rakit.Agent.Runner.Durable.{IsDurable, done, execute_tool-Closed, stored-Closed, persist-Closed}
use rakit.Agent.Resume.{
  is_terminal, remove_interrupt_for_tool_call, resolve_tool_call, skip_call, resolve_call,
  resume_calls, as_approval_payload, without_interrupt, rejected, still,
}
use rakit.Agent.Resume.Inputs.{ResumeInput}

module _ {W : Type 0} (P : List Effect → Type 0) where
  -- A sequence that is bracketed to the left.
  Closed-assoc :
      {A B C : Type 0} (m : Run W A) (f : A → Run W B) (g : B → Run W C)
      → Closed P (m >>= λ x. f x >>= g)
      → Closed P ((m >>= f) >>= g)
  unfolding ◌>>=◌
  Closed-assoc {A} {B} m f g p = record { closed = λ w u d. outer (m w) u (p.closed w u d) }
    where
      inner :
          (t u : List Effect) (r : Option B × List Effect × W)
          → P ((t ++ (then_run r g).1) ++ u)
          → P ((then_run (r.0, t ++ r.1, r.2) g).1 ++ u)
      inner t u (none, t', w') d = d
      inner t u (some y, t', w') d = subst (λ l. P (l ++ u)) (sym (append_assoc t t' (g y w').1)) d

      outer :
          (r : Option A × List Effect × W) (u : List Effect)
          → P ((then_run r (λ x. f x >>= g)).1 ++ u)
          → P ((then_run (then_run r f) g).1 ++ u)
      outer (none, t, w') u d = d
      outer (some x, t, w') u d = inner t u (f x w') d

  Closed-Bool :
      {A : Type 0} (b : Bool) (m k : Run W A)
      → Closed P m
      → Closed P k
      → Closed P (elim b [ true ↦ m | false ↦ k ])
  Closed-Bool true m k p q = p
  Closed-Bool false m k p q = q

  Closed-if :
      {A : Type 0} (b : Bool) (m k : Run W A)
      → Closed P m
      → Closed P k
      → Closed P (if b then m else k)
  Closed-if true m k p q = p
  Closed-if false m k p q = q

module _ {W : Type 0} (a : Agent W) where
  resolve_tool_call-Closed :
      (tc : ToolCallRecord) (inputs : Assoc ResumeInput) (g : Registry)
      → Closed IsDurable (resolve_tool_call a tc inputs g)
  unfolding resolve_tool_call
  resolve_tool_call-Closed tc inputs g =
      Closed-Option (find tc.id inputs) _ _ (execute_tool-Closed a g tc.name tc.arguments) (λ inp.
        Closed-if IsDurable (inp.status == "cancelled") _ _ (Closed-pure _) (
          Closed-if IsDurable (tc.status == "pending_approval") _ _
            (approval (as_approval_payload inp.payload))
            (Closed-if IsDurable (tc.status == "pending_client") _ _ (Closed-pure _) (
              Closed-Result (a.world.marshal inp.payload) _ _ (λ s. Closed-pure _)
                (λ e. Closed-pure _)))))
    where
      approval :
          (o : Option Bool)
          → Closed {W = W} IsDurable (elim o [
            | some true ↦ execute_tool a g tc.name tc.arguments
            | some false ↦ pure (rejected a)
            | none ↦ pure (rejected a)
          ])
      approval none = Closed-pure _
      approval (some true) = execute_tool-Closed a g tc.name tc.arguments
      approval (some false) = Closed-pure _

  messages-without_interrupt :
      (id : String) (s : Session) → (without_interrupt a id s).messages ≡ s.messages
  messages-without_interrupt id s =
      elim (Option-cases (remove_interrupt_for_tool_call id s.open_interrupts)) [
        | inl p ↦ rw (p, without_interrupt) refl
        | inr (is, p) ↦ rw (p, without_interrupt) refl
      ]

  module _
      (keeps : (s s' : Session) (w : W)
        → (a.world.update_session s w).0 ≡ ok s'
        → s'.messages ≡ s.messages) where
    answer-Closed :
        {A B : Type 0} (x : B) (k : B → Run W A)
        → Closed IsDurable (k x)
        → Closed IsDurable (pure x >>= k)
    unfolding ◌>>=◌ pure
    answer-Closed x k q = record { closed = λ w u d. q.closed w u d }

    cleaned-Closed :
        {A : Type 0} (what : String) (s : Session) (b : Bool) (k : Session × Bool → Run W A)
        → ((s' : Session) → s'.messages ≡ s.messages → Closed IsDurable (k (s', b)))
        → Closed IsDurable ((persist_or_stop a what s >>= λ s'. pure (s', b)) >>= k)
    cleaned-Closed what s b k q =
        Closed-assoc IsDurable (persist_or_stop a what s) (λ s'. pure (s', b)) k
          (persist-Closed a keeps what s (λ s'. pure (s', b) >>= k)
            (λ s' e. answer-Closed (s', b) k (q s' e)))

    skip_call-Closed :
        {A : Type 0} (tc : ToolCallRecord) (live : Bool) (s : Session)
        (k : Session × Bool → Run W A)
        → ((s' : Session) → s'.messages ≡ s.messages → Closed IsDurable (k (s', live)))
        → ((s' : Session) → s'.messages ≡ s.messages → Closed IsDurable (k (s', still a live)))
        → Closed IsDurable (skip_call a tc live s >>= k)
    unfolding skip_call ◌>>=◌ pure
    skip_call-Closed tc live s k q q' =
        elim (Option-cases (remove_interrupt_for_tool_call tc.id s.open_interrupts)) [
          | inl p ↦ rw (p, skip_call) (record { closed = λ w u d. (q s refl).closed w u d })
          | inr (is, p) ↦
              rw (p, skip_call)
                (cleaned-Closed "resumed interrupt cleanup" (with_open_interrupts is s)
                  (still a live) k q')
        ]

    -- The result of one call, and what follows.
    resolve_call-Closed :
        {A : Type 0} (tc : ToolCallRecord) (inputs : Assoc ResumeInput) (g : Registry) (idx i : ℕ)
        (s : Session) (rest : List String) (k : Session × String → Run W A)
        → call_ids (drop i (calls_at idx s.messages)) ≡ tc.id ∷ rest
        → ((s' : Session) (r : String)
            → call_ids (drop (suc i) (calls_at idx s'.messages)) ≡ rest
            → Closed IsDurable (k (s', r)))
        → Closed IsDurable (resolve_call a tc inputs g idx i true s >>= k)
    unfolding resolve_call backfill ◌>>=◌ pure record_effect
    resolve_call-Closed tc inputs g idx i s rest k p q =
        Closed-assoc IsDurable (resolve_tool_call a tc inputs g) _ k (
          Closed-bind _ _ (resolve_tool_call-Closed tc inputs g) (λ x.
            let (after, h) = calls_at-backfill idx i x.0 x.1 s.messages tc.id rest p in
            let s1 = without_interrupt a tc.id (backfill idx i x.0 x.1 s) in
            let kept = messages-without_interrupt tc.id (backfill idx i x.0 x.1 s) in
            Closed-assoc IsDurable (persist_or_stop a _ s1) _ k (
              stored-Closed a keeps _ tc.id x.0 s1 (λ s'. k (s', x.0))
                (ap (holds_result tc.id x.0) kept ∙ h)
                (λ s' e.
                  q s' x.0
                    (ap (λ ms. call_ids (drop (suc i) (calls_at idx ms))) (e ∙ kept) ∙ after)))))

    -- `paused` addresses the session's message as long as there are calls left.
    abbrev Writable : Bool → List ToolCallRecord → Type 0
    Writable live [] = Unit
    Writable live (tc ∷ tcs) = (live ≡ true) × (a.world.leaves_messages ≡ true ⊎ tcs ≡ [])

    Writable-tail :
        (live : Bool) (tc : ToolCallRecord) (tcs : List ToolCallRecord)
        → Writable live (tc ∷ tcs)
        → Writable live tcs × Writable (still a live) tcs
    Writable-tail live tc [] h = (tt, tt)
    Writable-tail live tc (tc' ∷ tcs) (p, inl q) = ((p, inl q), (ground arith, inl q))
    Writable-tail live tc (tc' ∷ tcs) (p, inr q) = absurd (ground arith)

    resume_calls-Closed :
        (inputs : Assoc ResumeInput) (g : Registry) (idx i : ℕ) (live : Bool)
        (tcs : List ToolCallRecord) (s : Session) (msgs : List ProviderMessage)
        → Writable live tcs
        → call_ids (drop i (calls_at idx s.messages)) ≡ call_ids tcs
        → Closed IsDurable (resume_calls a inputs g idx i live tcs s msgs)
    unfolding resume_calls
    resume_calls-Closed inputs g idx i live [] s msgs h p = Closed-pure _
    resume_calls-Closed inputs g idx i live (tc ∷ tcs) s msgs h p =
        let (here, later) = Writable-tail live tc tcs h in
        let behind : (s' : Session)
            → s'.messages ≡ s.messages
            → call_ids (drop (suc i) (calls_at idx s'.messages)) ≡ call_ids tcs =
          λ s' e.
            ap (λ ms. call_ids (drop (suc i) (calls_at idx ms))) e
            ∙ call_ids-tail i tc.id (call_ids tcs) (calls_at idx s.messages) p in
        Closed-Bool IsDurable (is_terminal tc) _ _
          (skip_call-Closed tc live s _
            (λ s' e. resume_calls-Closed inputs g idx (suc i) live tcs s' _ here (behind s' e))
            (λ s' e.
              resume_calls-Closed inputs g idx (suc i) (still a live) tcs s' _ later (behind s' e)))
          (rw h.0 (
            resolve_call-Closed tc inputs g idx i s (call_ids tcs) _ p
              (λ s' r e. resume_calls-Closed inputs g idx (suc i) _ tcs s' _ (rw h.0 at later) e)))

    -- In the effects of the loop of Resume, each ToolResultEvent stands directly behind the
    -- successful write of a session that holds the call's id with this result, if the calls are
    -- those of the paused message from the i-th on, there is one of them or the store leaves the
    -- messages of the session that it is given where they are, and it gives back the messages that
    -- it was given.
    pub resume_calls-IsDurable :
        (inputs : Assoc ResumeInput) (g : Registry) (idx i : ℕ) (tc : ToolCallRecord)
        (tcs : List ToolCallRecord) (s : Session) (msgs : List ProviderMessage) (w : W)
        → a.world.leaves_messages ≡ true ⊎ tcs ≡ []
        → call_ids (drop i (calls_at idx s.messages)) ≡ call_ids (tc ∷ tcs)
        → IsDurable (resume_calls a inputs g idx i true (tc ∷ tcs) s msgs w).1
    resume_calls-IsDurable inputs g idx i tc tcs s msgs w writable p =
        subst IsDurable (append-nil _) (
          (resume_calls-Closed inputs g idx i true (tc ∷ tcs) s msgs (refl, writable) p).closed w []
            done)
