-- ===== src/Agent/Conversation/Stored.antt =====
-- What `RunWithSession` has written by the time it hands out the channel.
use Prim.Native.Nat.{ℕ}
use rakit.Prelude.{
  ◌⊎◌, Bool, String, ◌≡◌, refl, true, List, [], ◌∷◌, ◌++◌, Option, none, some, Result, ok, err,
  Result-cases, Bool-cases, inl, inr,
}
use rakit.Metadata.{Session, Message}
use rakit.Provider.{Error, message}
use rakit.Agent.World.{Effect, saved, save_failed, then_run, Run, ◌>>=◌, pure, call, record_effect}
use rakit.Agent.Config.{Agent}
use rakit.Agent.Compaction.{new_message}
use rakit.Agent.Persistence.{with_messages, persist_session}
use rakit.Agent.Conversation.{check_configured, run_loaded, run_configured, run_with_session}

-- The first effect is the write of the session with one more message, the user's.
abbrev pub Extends : Session → String → List Effect → Type 0
Extends s input t =
    (m : Message) × (rest : List Effect) × (t
      ≡ saved (with_messages (s.messages ++ (m ∷ [])) s) ∷ rest)
    × (m.role ≡ "user")
    × (m.content ≡ input)

module _ {W : Type 0} (a : Agent W) where
  -- A run whose caller gets the channel was given a stored session and has extended it.
  abbrev pub Accepted :
      String → String → W → Option (Result Error (Unit {0})) × List Effect × W → Type 0
  Accepted id input w (some (ok u), t, w') =
      (s : Session) × ((a.world.get_session id w).0 ≡ ok (some s)) × Extends s input t
  Accepted id input w (some (err e), t, w') = Unit
  Accepted id input w (none, t, w') = Unit

  unfoldable ExtendsIfOk :
      Session → String → Option (Result Error (Unit {0})) × List Effect × W → Type 0
  ExtendsIfOk s input (some (ok u), t, w) = Extends s input t
  ExtendsIfOk s input (some (err e), t, w) = Unit
  ExtendsIfOk s input (none, t, w) = Unit

  persist_session-cases :
      (s : Session) (w : W)
      → ((e : Error) × (t : List Effect) × (w' : W) × (persist_session a s w
            ≡ (some (err e), t, w')))
        ⊎ ((s' : Session) × (w' : W) × (persist_session a s w ≡ (some (ok s'), saved s ∷ [], w')))
  unfolding persist_session ◌>>=◌ pure call record_effect
  persist_session-cases s w = elim (Bool-cases a.has_store) [
    | inl set ↦ elim (Result-cases (a.world.update_session s w).0) [
      | inl (s', p) ↦ inr (s', (a.world.update_session s w).1, rw (set, p) refl)
      | inr (e, p) ↦ inl (e, save_failed s ∷ [], (a.world.update_session s w).1, rw (set, p) refl)
    ]
    | inr unset ↦ inl (message "agent: no store configured", [], w, rw unset refl)
  ]

  -- Whatever follows the write of the longer history.
  then_run-ExtendsIfOk :
      (s : Session) (id input : String) (now : ℕ) (w : W)
      (k : Session → Run W (Result Error (Unit {0}))) (g : Error → Error)
      → ExtendsIfOk s input (
          then_run
            (persist_session a
              (with_messages (s.messages ++ (new_message id "user" input [] now ∷ [])) s)
              w)
            (λ r. elim r [ ok s1 ↦ k s1 | err e ↦ pure (err (g e)) ]))
  unfolding pure ExtendsIfOk
  then_run-ExtendsIfOk s id input now w k g =
      elim (persist_session-cases
        (with_messages (s.messages ++ (new_message id "user" input [] now ∷ [])) s) w) [
          | inl (e, t, w', p) ↦ rw p tt
          | inr (s1, w', p) ↦ rw p (go (k s1 w'))
        ]
    where
      go :
          (r : Option (Result Error (Unit {0})) × List Effect × W)
          → ExtendsIfOk s input (
            r.0,
            saved (with_messages (s.messages ++ (new_message id "user" input [] now ∷ [])) s) ∷ r.1,
            r.2,
          )
      go (some (ok u), t, w) = (new_message id "user" input [] now, t, refl, refl, refl)
      go (some (err e), t, w) = tt
      go (none, t, w) = tt

  run_loaded-ExtendsIfOk :
      (input : String) (s : Session) (w : W) → ExtendsIfOk s input (run_loaded a input s w)
  unfolding run_loaded ◌>>=◌ call
  run_loaded-ExtendsIfOk input s w = then_run-ExtendsIfOk s _ input _ _ _ _

  run_configured-Accepted :
      (id input : String) (w : W) → Accepted id input w (run_configured a id input w)
  unfolding run_configured ◌>>=◌ call pure ExtendsIfOk
  run_configured-Accepted id input w = elim (Result-cases (a.world.get_session id w).0) [
    | inl (none, p) ↦ rw p tt
    | inl (some s, p) ↦ rw p (
        found s p (run_loaded a input s (a.world.get_session id w).1)
          (run_loaded-ExtendsIfOk input s (a.world.get_session id w).1))
    | inr (e, p) ↦ rw p tt
  ]
    where
      found :
          (s : Session)
          → (a.world.get_session id w).0 ≡ ok (some s)
          → (r : Option (Result Error (Unit {0})) × List Effect × W) → ExtendsIfOk s input r
          → Accepted id input w r
      found s p (some (ok u), t, w') h = (s, p, h)
      found s p (some (err e), t, w') h = tt
      found s p (none, t, w') h = tt

  -- `RunWithSession` hands out the channel only for a session that the store has, and its first
  -- effect is then the write of that session with one message more, whose role is "user" and whose
  -- content is the input.
  pub run_with_session-Accepted :
      (has_protocol : Bool) (id input : String) (w : W)
      → Accepted id input w (run_with_session a has_protocol id input w)
  unfolding run_with_session pure
  run_with_session-Accepted has_protocol id input w = checked (check_configured a has_protocol true)
    where
      checked :
          (r : Result Error (Unit {0}))
          → Accepted id input w (
              (elim r as (λ _. Run W (Result Error (Unit {0}))) [
                | err e ↦ pure (err e)
                | ok _ ↦ run_configured a id input
              ])
                w)
      checked (ok u) = run_configured-Accepted id input w
      checked (err e) = tt
