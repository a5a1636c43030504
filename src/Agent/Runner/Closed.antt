-- ===== src/Agent/Runner/Closed.antt =====
-- Properties of the effects of a run, shown from the statements that it is made of.
use Prim.Native.Nat.{ℕ}
use rakit.Prelude.{
  Bool-cases, String, ◌≡◌, refl, ap, Bool, true, false, List, [], ◌∷◌, ◌++◌, Option, none, some,
  Result, Result-cases, ok, err, inl, inr,
}
use rakit.Metadata.{Session}
use rakit.Tool.{Registry}
use rakit.Provider.{Error, ToolCall}
use rakit.Agent.Event.{Event, Interrupt}
use rakit.Agent.World.{
  Effect, emitted, executed, Run, then_run, ◌>>=◌, ◌>>◌, pure, return_early, call, record_effect,
}
use rakit.Agent.Config.{Agent}
use rakit.Agent.Persistence.{persist_session, persist_or_stop}
use rakit.Agent.Runner.{emit_calls, pause_batch}
use rakit.Agent.Interrupts.{gate, classify_pending, interrupt_id}

-- Neither the execution of a tool nor a result.
abbrev pub is_plain : Effect → Bool
is_plain (emitted (Event.tool_result id r)) = false
is_plain (executed t input) = false
is_plain _ = true

append-append : {A : Type 0} (t u v : List A) → ((t ++ u) ++ v) ≡ (t ++ (u ++ v))
append-append [] u v = refl
append-append (x ∷ t) u v = ap (λ l. x ∷ l) (append-append t u v)

module _ {W : Type 0} where
  -- The effects of the statement, put before any that have the property, keep it.
  pub record Closed (P : List Effect → Type 0) {A : Type 0} (m : Run W A) : Type 0 where
    pub closed : (w : W) (u : List Effect) → P u → P ((m w).1 ++ u)

module _ {W : Type 0} {P : List Effect → Type 0} where
  then_run-P :
      {A B : Type 0} (r : Option A × List Effect × W) (f : A → Run W B)
      → ((u : List Effect) → P u → P (r.1 ++ u))
      → ((x : A) (w : W) (u : List Effect) → P u → P ((f x w).1 ++ u))
      → (u : List Effect) → P u
      → P ((then_run r f).1 ++ u)
  then_run-P (none, t, w) f p q u d = p u d
  then_run-P (some x, t, w) f p q u d =
      rw (append-append t (f x w).1 u) (p ((f x w).1 ++ u) (q x w u d))

  pub Closed-bind :
      {A B : Type 0} (m : Run W A) (f : A → Run W B)
      → Closed P m
      → ((x : A) → Closed P (f x))
      → Closed P (m >>= f)
  unfolding ◌>>=◌
  Closed-bind m f p q = record { closed = λ w. then_run-P (m w) f (p.closed w) (λ x. (q x).closed) }

  pub Closed-pure : {A : Type 0} (x : A) → Closed {W = W} P (pure x)
  unfolding pure
  Closed-pure x = record { closed = λ w u d. d }

  pub Closed-call : {A : Type 0} (f : W → A × W) → Closed P (call f)
  unfolding call
  Closed-call f = record { closed = λ w u d. d }

  pub Closed-record :
      (e : Effect) → ((u : List Effect) → P u → P (e ∷ u)) → Closed {W = W} P (record_effect e)
  unfolding record_effect
  Closed-record e p = record { closed = λ w u d. p u d }

  pub Closed-Option :
      {A B : Type 0} (o : Option A) (m : Run W B) (f : A → Run W B)
      → Closed P m
      → ((x : A) → Closed P (f x))
      → Closed P (elim o [ none ↦ m | some x ↦ f x ])
  Closed-Option none m f p q = p
  Closed-Option (some x) m f p q = q x

  pub Closed-List :
      {A B : Type 0} (l : List A) (m : Run W B) (f : A → List A → Run W B)
      → Closed P m
      → ((x : A) (l : List A) → Closed P (f x l))
      → Closed P (elim l [ [] ↦ m | x ∷ xs ↦ f x xs ])
  Closed-List [] m f p q = p
  Closed-List (x ∷ xs) m f p q = q x xs

  pub Closed-end :
      {A : Type 0} (e : Effect)
      → ((u : List Effect) → P u → P (e ∷ u))
      → Closed {W = W} P (record_effect e >> return_early {A = A})
  unfolding ◌>>=◌ record_effect return_early
  Closed-end e p = record { closed = λ w u d. p u d }

  -- A statement whose answer is known.
  pub Closed-known :
      {A B : Type 0} (m : Run W A) (f : A → Run W B)
      → ((w : W) → (x : A) × (w' : W) × (m w ≡ (some x, [], w')) × Closed P (f x))
      → Closed P (m >>= f)
  unfolding ◌>>=◌
  Closed-known m f p = record {
    closed = λ w u d. let (x, w', e, c) = p w in rw (e) (c.closed w' u d);
  }

  pub Closed-Result :
      {A B : Type 0} (r : Result Error A) (f : A → Run W B) (g : Error → Run W B)
      → ((x : A) → Closed P (f x))
      → ((e : Error) → Closed P (g e))
      → Closed P (elim r [ ok x ↦ f x | err e ↦ g e ])
  Closed-Result (ok x) f g p q = p x
  Closed-Result (err e) f g p q = q e

-- A property that no plain effect breaks.
module _ {W : Type 0} (a : Agent W) {P : List Effect → Type 0}
    (plain : (e : Effect) → is_plain e ≡ true → (u : List Effect) → P u → P (e ∷ u)) where
  pub emit_calls-Closed : (tcs : List ToolCall) → Closed P (emit_calls a tcs)
  unfolding emit_calls
  emit_calls-Closed [] = Closed-pure tt
  emit_calls-Closed (tc ∷ tcs) =
      Closed-bind _ _ (Closed-record _ (plain _ refl))
        (λ _. Closed-bind _ _ (Closed-record _ (plain _ refl)) (λ _. emit_calls-Closed tcs))

  pub classify_pending-Closed :
      (g : Registry) (tcs : List ToolCall) → Closed P (classify_pending a g tcs)
  unfolding classify_pending interrupt_id
  classify_pending-Closed g [] = Closed-pure _
  classify_pending-Closed g (tc ∷ tcs) =
      Closed-Option (gate a g tc) _ _ (classify_pending-Closed g tcs) (λ kind.
        Closed-bind _ _ (Closed-bind _ _ (Closed-call _) (λ id. Closed-pure _))
          (λ id. Closed-bind _ _ (classify_pending-Closed g tcs) (λ is. Closed-pure _)))

  pub persist_or_stop-Closed : (what : String) (s : Session) → Closed P (persist_or_stop a what s)
  unfolding persist_or_stop persist_session ◌>>=◌ pure call record_effect return_early
  persist_or_stop-Closed what s = elim (Bool-cases a.has_store) [
    | inl set ↦ record {
      closed = λ w u d. elim (Result-cases (a.world.update_session s w).0) [
        | inl (s', p) ↦ rw (set, p) (plain _ refl _ d)
        | inr (e, p) ↦ rw (set, p) (plain _ refl _ (plain _ refl _ d))
      ];
    }
    | inr unset ↦ record { closed = λ w u d. rw unset (plain _ refl _ d) }
  ]

  pub pause_batch-Closed :
      (thread run : String) (idx : ℕ) (tcs : List ToolCall) (is : List Interrupt) (s : Session)
      → Closed P (pause_batch a thread run idx tcs is s)
  unfolding pause_batch
  pause_batch-Closed thread run idx tcs is s =
      Closed-bind _ _ (persist_or_stop-Closed _ _) (λ _. Closed-end _ (plain _ refl))
