-- ===== src/Agent/Runner/Shown.antt =====
-- Which results a run shows, in which order, and how many tools it executes.
use Prim.Native.Nat.{ℕ, suc, ◌+◌, ◌≤◌}
use mathlib.Core.List.{append_assoc}
use rakit.Prelude.{
  String, ◌≡◌, refl, ap, sym, ◌∙◌, List, [], ◌∷◌, ◌++◌, Option, none, some, inl, inr, Result, ok,
  err, Result-cases, arith, map, length, Bool-cases,
}
use rakit.Metadata.{Session}
use rakit.Tool.{Registry, get}
use rakit.Provider.{ProviderMessage, Error, ToolCall}
use rakit.Agent.Event.{Event}
use rakit.Agent.World.{
  Effect, emitted, executed, Run, then_run, ◌>>=◌, pure, return_early, call, record_effect,
}
use rakit.Agent.Config.{Agent}
use rakit.Agent.Persistence.{persist_session, persist_or_stop}
use rakit.Agent.Runner.{execute_tool, execute_calls}

-- How many tools were executed.
abbrev pub executions : List Effect → ℕ
executions [] = 0
executions (executed t input ∷ l) = suc (executions l)
executions (_ ∷ l) = executions l

-- The ids of the calls whose results were shown.
abbrev pub shown : List Effect → List String
shown [] = []
shown (emitted (Event.tool_result id r) ∷ l) = id ∷ shown l
shown (_ ∷ l) = shown l

executions-append : (t u : List Effect) → executions (t ++ u) ≡ executions t + executions u
executions-append [] u = omega arith
executions-append (executed t input ∷ l) u = omega (arith, executions-append l u)
executions-append (e ∷ l) u = executions-append l u

shown-append : (t u : List Effect) → shown (t ++ u) ≡ shown t ++ shown u
shown-append [] u = refl
shown-append (emitted (Event.tool_result id r) ∷ l) u = ap (λ k. id ∷ k) (shown-append l u)
shown-append (e ∷ l) u = shown-append l u

module _ {W : Type 0} where
  -- The results shown are those of the ids, all of them where the run goes on and the first ones
  -- where it ends early; at most `n` tools are executed.
  abbrev pub Shown : {A : Type 0} → ℕ → List String → Option A × List Effect × W → Type 0
  Shown n ids (some x, t, w) = (shown t ≡ ids) × (executions t ≤ n)
  Shown n ids (none, t, w) = (rest : List String) × (shown t ++ rest ≡ ids) × (executions t ≤ n)

  pub record Shows {A : Type 0} (n : ℕ) (ids : List String) (m : Run W A) : Type 0 where
    pub within : (w : W) → Shown n ids (m w)

  then_run-Shown :
      {A B : Type 0} (n k : ℕ) (xs ys : List String) (r : Option A × List Effect × W)
      (f : A → Run W B)
      → Shown n xs r
      → ((x : A) (w : W) → Shown k ys (f x w))
      → Shown (n + k) (xs ++ ys) (then_run r f)
  then_run-Shown n k xs ys (none, t, w) f (rest, p, q) g =
      (rest ++ ys, sym (append_assoc (shown t) rest ys) ∙ ap (λ l. l ++ ys) p, omega arith)
  then_run-Shown {B = B} n k xs ys (some x, t, w) f (p, q) g = go (f x w) (g x w)
    where
      go :
          (r : Option B × List Effect × W)
          → Shown k ys r
          → Shown (n + k) (xs ++ ys) (r.0, t ++ r.1, r.2)
      go (some y, u, v) (p', q') =
          (rw (shown-append t u, p, p'), omega (arith, executions-append t u))
      go (none, u, v) (rest, p', q') = (
        rest,
        rw (shown-append t u, p, append_assoc xs (shown u) rest, p'),
        omega (arith, executions-append t u),
      )

  pub Shows-bind :
      {A B : Type 0} {n k : ℕ} {xs ys : List String} (m : Run W A) (f : A → Run W B)
      → Shows n xs m
      → ((x : A) → Shows k ys (f x))
      → Shows (n + k) (xs ++ ys) (m >>= f)
  unfolding ◌>>=◌
  Shows-bind {n = n} {k} {xs} {ys} m f p q = record {
    within = λ w. then_run-Shown n k xs ys (m w) f (p.within w) (λ x. (q x).within);
  }

  Shown-le :
      {A : Type 0} (n k : ℕ) (ids : List String) (r : Option A × List Effect × W)
      → n ≤ k
      → Shown n ids r
      → Shown k ids r
  Shown-le n k ids (some x, t, w) le (p, q) = (p, omega arith)
  Shown-le n k ids (none, t, w) le (rest, p, q) = (rest, p, omega arith)

  -- A bound that is not tight.
  pub Shows-le :
      {A : Type 0} {n : ℕ} (k : ℕ) {ids : List String} (m : Run W A)
      → n ≤ k
      → Shows n ids m
      → Shows k ids m
  Shows-le {n = n} k {ids} m le p = record { within = λ w. Shown-le n k ids (m w) le (p.within w) }

  -- A statement that executes and shows nothing, before another.
  pub Shows-then :
      {A B : Type 0} {n : ℕ} {ids : List String} (m : Run W A) (f : A → Run W B)
      → Shows 0 [] m
      → ((x : A) → Shows n ids (f x))
      → Shows n ids (m >>= f)
  Shows-then {n = n} m f p q = Shows-le n _ (omega arith) (Shows-bind m f p q)

  pub Shows-pure : {A : Type 0} (x : A) → Shows 0 [] (pure x)
  unfolding pure
  Shows-pure x = record { within = λ w. (refl, omega arith) }

  pub Shows-call : {A : Type 0} (f : W → A × W) → Shows 0 [] (call f)
  unfolding call
  Shows-call f = record { within = λ w. (refl, omega arith) }

  pub Shows-record : (e : Effect) → Shows (executions (e ∷ [])) (shown (e ∷ [])) (record_effect e)
  unfolding record_effect
  Shows-record e = record { within = λ w. (refl, omega arith) }

  pub Shows-Option :
      {A B : Type 0} {n : ℕ} {ids : List String} (o : Option A) (m : Run W B) (f : A → Run W B)
      → Shows n ids m
      → ((x : A) → Shows n ids (f x))
      → Shows n ids (elim o [ none ↦ m | some x ↦ f x ])
  Shows-Option none m f p q = p
  Shows-Option (some x) m f p q = q x

  pub Shows-Result :
      {A B : Type 0} {n : ℕ} {ids : List String} (r : Result Error A) (f : A → Run W B)
      (g : Error → Run W B)
      → ((x : A) → Shows n ids (f x))
      → ((e : Error) → Shows n ids (g e))
      → Shows n ids (elim r [ ok x ↦ f x | err e ↦ g e ])
  Shows-Result (ok x) f g p q = p x
  Shows-Result (err e) f g p q = q e

module _ {W : Type 0} (a : Agent W) where
  pub persist_or_stop-Shows : (what : String) (s : Session) → Shows 0 [] (persist_or_stop a what s)
  unfolding persist_or_stop persist_session ◌>>=◌ pure call record_effect return_early
  persist_or_stop-Shows what s = elim (Bool-cases a.has_store) [
    | inl set ↦ record {
      within = λ w. elim (Result-cases (a.world.update_session s w).0) [
        | inl (s', p) ↦ rw (set, p) (refl, omega arith)
        | inr (e, p) ↦ rw (set, p) ([], refl, omega arith)
      ];
    }
    | inr unset ↦ record { within = λ w. rw unset ([], refl, omega arith) }
  ]

  pub execute_tool-Shows :
      (g : Registry) (name arguments : String) → Shows 1 [] (execute_tool a g name arguments)
  unfolding execute_tool
  execute_tool-Shows g name arguments =
      Shows-Option (get name g) _ _ (Shows-le 1 _ (omega arith) (Shows-pure _)) (λ t.
        Shows-Result (a.world.unmarshal arguments) _ _
          (λ input.
            Shows-bind _ _ (Shows-record (executed t input))
              (λ _. Shows-bind _ _ (Shows-call _) (λ r. Shows-pure _)))
          (λ e. Shows-le 1 _ (omega arith) (Shows-pure _)))

  -- The loop over the calls of a batch shows their results once each in the order of the calls, all
  -- of them where it goes on and the first ones where it ends early, and executes at most as many
  -- tools as there are calls.
  pub execute_calls-Shows :
      (g : Registry) (idx i : ℕ) (tcs : List ToolCall) (s : Session) (msgs : List ProviderMessage)
      → Shows (length tcs) (map (λ tc. tc.id) tcs) (execute_calls a g idx i tcs s msgs)
  unfolding execute_calls
  execute_calls-Shows g idx i [] s msgs = Shows-pure _
  execute_calls-Shows g idx i (tc ∷ tcs) s msgs = Shows-le _ _ (omega arith) (
      Shows-bind _ _ (execute_tool-Shows g tc.name tc.arguments) (λ r.
        Shows-then _ _ (persist_or_stop-Shows _ _) (λ s'.
          Shows-bind _ _ (Shows-record (emitted (Event.tool_result tc.id r.0)))
            (λ _. execute_calls-Shows g idx (suc i) tcs s' _))))
