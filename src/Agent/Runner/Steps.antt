-- ===== src/Agent/Runner/Steps.antt =====
-- That a statement goes on without an end and stops with one, shown from the statements it is made of.
use Prim.Native.Nat.{ℕ, ◌≤◌}
use rakit.Prelude.{
  String, ◌≡◌, refl, Bool, true, false, List, [], ◌∷◌, Option, none, some, Result, ok, err, arith,
}
use rakit.Metadata.{Session}
use rakit.Provider.{Error}
use rakit.Agent.Event.{Event, error_event}
use rakit.Agent.World.{
  Effect, emitted, saved, save_failed, Run, ◌>>=◌, ◌>>◌, pure, return_early, call, record_effect,
}
use rakit.Agent.Config.{Agent}
use rakit.Agent.Stream.{run_hooks, emit_hooked}
use rakit.Agent.Persistence.{persist_session, persist_or_stop}
use rakit.Agent.Runner.Traces.{finishes, requests, Stays, Stays-bind}

module _ {W : Type 0} where
  pub Stays-pure : {A : Type 0} (x : A) → Stays {W = W} 0 (pure x)
  unfolding pure
  Stays-pure x = record { within = λ w. (refl, omega arith) }

  pub Stays-call : {A : Type 0} (f : W → A × W) → Stays 0 (call f)
  unfolding call
  Stays-call f = record { within = λ w. (refl, omega arith) }

  pub Stays-record :
      {n : ℕ} (e : Effect)
      → finishes e ≡ false
      → requests (e ∷ []) ≤ n
      → Stays {W = W} n (record_effect e)
  unfolding record_effect
  Stays-record e p q = record { within = λ w. (ground arith, q) }

  pub Stays-after :
      {A B : Type 0} (m : Run W A) (k : Run W B) → Stays 0 m → Stays 0 k → Stays 0 (m >> k)
  Stays-after m k p q = Stays-bind m (λ _. k) (omega arith) p (λ _. q)

  pub Stays-Result :
      {A B : Type 0} {n : ℕ} (r : Result Error A) (f : A → Run W B) (g : Error → Run W B)
      → ((x : A) → Stays n (f x))
      → ((e : Error) → Stays n (g e))
      → Stays n (elim r [ ok x ↦ f x | err e ↦ g e ])
  Stays-Result (ok x) f g p q = p x
  Stays-Result (err e) f g p q = q e

  pub Stays-Option :
      {A B : Type 0} {n : ℕ} (o : Option A) (m : Run W B) (f : A → Run W B)
      → Stays n m
      → ((x : A) → Stays n (f x))
      → Stays n (elim o [ none ↦ m | some x ↦ f x ])
  Stays-Option none m f p q = p
  Stays-Option (some x) m f p q = q x

  pub Stays-List :
      {A B : Type 0} {n : ℕ} (l : List A) (m : Run W B) (f : A → List A → Run W B)
      → Stays n m
      → ((x : A) (l : List A) → Stays n (f x l))
      → Stays n (elim l [ [] ↦ m | x ∷ xs ↦ f x xs ])
  Stays-List [] m f p q = p
  Stays-List (x ∷ xs) m f p q = q x xs

  pub Stays-Bool :
      {B : Type 0} {n : ℕ} (b : Bool) (m k : Run W B)
      → Stays n m
      → Stays n k
      → Stays n (elim b [ true ↦ m | false ↦ k ])
  Stays-Bool true m k p q = p
  Stays-Bool false m k p q = q

  -- An error event and the early return behind it.
  pub Stays-stop :
      {A : Type 0} (e : Option Error)
      → Stays {W = W} {A = A} 0 (record_effect (emitted (error_event e)) >> return_early)
  unfolding ◌>>=◌ record_effect return_early
  Stays-stop e = record { within = λ w. (refl, omega arith) }

  -- One call of the world, and what is done with its answer.
  pub Stays-ask :
      {A B : Type 0} {n : ℕ} (f : W → A × W) (g : A → Run W B)
      → ((x : A) → Stays n (g x))
      → Stays n (call f >>= g)
  Stays-ask f g p = Stays-bind (call f) g (omega arith) (Stays-call f) p

  pub Stays-then :
      {A B : Type 0} {n : ℕ} (m : Run W A) (g : A → Run W B)
      → Stays 0 m
      → ((x : A) → Stays n (g x))
      → Stays n (m >>= g)
  Stays-then m g p q = Stays-bind m g (omega arith) p q

module _ {W : Type 0} (a : Agent W) where
  recorded :
      (s : Session) (r : Result Error Session)
      → Stays {W = W} 0 (record_effect (elim r [ ok s' ↦ saved s | err e ↦ save_failed s ]))
  recorded s (ok s') = Stays-record (saved s) refl (omega arith)
  recorded s (err e) = Stays-record (save_failed s) refl (omega arith)

  pub persist_session-Stays : (s : Session) → Stays 0 (persist_session a s)
  unfolding persist_session
  persist_session-Stays s =
      Stays-Bool a.has_store _ _
        (Stays-ask _ _ (λ r. Stays-then _ _ (recorded s r) (λ _. Stays-pure r))) (Stays-pure _)

  pub persist_or_stop-Stays : (what : String) (s : Session) → Stays 0 (persist_or_stop a what s)
  unfolding persist_or_stop
  persist_or_stop-Stays what s =
      Stays-then _ _ (persist_session-Stays s)
        (λ r. Stays-Result r _ _ (λ s'. Stays-pure s') (λ e. Stays-stop _))

  run_hooks-Stays :
      (hs : List (Event → W → Option Error × W)) (ev : Event) → Stays 0 (run_hooks a hs ev)
  unfolding run_hooks
  run_hooks-Stays [] ev = Stays-pure tt
  run_hooks-Stays (h ∷ hs) ev = Stays-ask _ _ (λ failed.
      Stays-Option failed _ _ (run_hooks-Stays hs ev)
        (λ e. Stays-after _ _ (Stays-record _ refl (omega arith)) (run_hooks-Stays hs ev)))

  pub emit_hooked-Stays : (ev : Event) → finishes (emitted ev) ≡ false → Stays 0 (emit_hooked a ev)
  unfolding emit_hooked
  emit_hooked-Stays ev p =
      Stays-after _ _ (run_hooks-Stays a.hooks ev) (Stays-record _ p (omega arith))
