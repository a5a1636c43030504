-- ===== src/Agent/Runner/Traces.antt =====
-- The effects of a run: its end, and how often it asks the provider.
use Prim.Native.Nat.{ℕ, suc, ◌+◌, ◌≤◌}
use rakit.Prelude.{
  ◌≡◌, Bool, true, false, not, ◌&&◌, ◌||◌, List, [], ◌∷◌, ◌++◌, Option, none, some, arith,
}
use rakit.Agent.Event.{run_finished, error_event}
use rakit.Agent.World.{
  Effect, emitted, saved, save_failed, requested, executed, Run, then_run, ◌>>=◌,
}

abbrev pub finishes : Effect → Bool
finishes (emitted (run_finished thread run outcome is result)) = true
finishes _ = false

abbrev pub fails : Effect → Bool
fails (emitted (error_event e)) = true
fails _ = false

-- No `RunFinishedEvent` among the effects.
abbrev pub unfinished : List Effect → Bool
unfinished [] = true
unfinished (e ∷ t) = not (finishes e) && unfinished t

-- The last effect is a `RunFinishedEvent` or an `ErrorEvent`, and none before it is a
-- `RunFinishedEvent`.
abbrev pub ended : List Effect → Bool
ended [] = false
ended (e ∷ []) = finishes e || fails e
ended (e ∷ f ∷ t) = not (finishes e) && ended (f ∷ t)

abbrev pub requests : List Effect → ℕ
requests [] = 0
requests (requested r ∷ t) = suc (requests t)
requests (_ ∷ t) = requests t

pub ended-append :
    (t u : List Effect) → unfinished t ≡ true → ended u ≡ true → ended (t ++ u) ≡ true
ended-append [] u p q = q
ended-append (e ∷ []) [] p q = ground arith
ended-append (e ∷ []) (f ∷ u) p q = ground arith
ended-append (e ∷ f ∷ t) u p q = ground (arith, ended-append (f ∷ t) u)

unfinished-append :
    (t u : List Effect) → unfinished t ≡ true → unfinished u ≡ true → unfinished (t ++ u) ≡ true
unfinished-append [] u p q = q
unfinished-append (e ∷ t) u p q = ground (arith, unfinished-append t u)

pub requests-append : (t u : List Effect) → requests (t ++ u) ≡ requests t + requests u
requests-append [] u = omega arith
requests-append (emitted e ∷ t) u = requests-append t u
requests-append (saved e ∷ t) u = requests-append t u
requests-append (save_failed e ∷ t) u = requests-append t u
requests-append (requested e ∷ t) u = omega (arith, requests-append t u)
requests-append (executed e f ∷ t) u = requests-append t u

module _ {W : Type 0} where
  -- At most `n` requests; a statement that goes on leaves no end behind, and an early return leaves one.
  abbrev pub Within : {A : Type 0} → ℕ → Option A × List Effect × W → Type 0
  Within n (some x, t, w) = (unfinished t ≡ true) × (requests t ≤ n)
  Within n (none, t, w) = (ended t ≡ true) × (requests t ≤ n)

  pub record Stays {A : Type 0} (n : ℕ) (m : Run W A) : Type 0 where
    pub within : (w : W) → Within n (m w)

  then_run-Within :
      {A B : Type 0} (n k l : ℕ) (r : Option A × List Effect × W) (f : A → Run W B)
      → n + k ≤ l
      → Within n r
      → ((x : A) (w : W) → Within k (f x w))
      → Within l (then_run r f)
  then_run-Within n k l (none, t, w) f le (p, q) g = (p, omega arith)
  then_run-Within {B = B} n k l (some x, t, w) f le (p, q) g = go (f x w) (g x w)
    where
      go : (r : Option B × List Effect × W) → Within k r → Within l (r.0, t ++ r.1, r.2)
      go (some y, u, v) (p', q') = (unfinished-append t u p p', omega (arith, requests-append t u))
      go (none, u, v) (p', q') = (ended-append t u p p', omega (arith, requests-append t u))

  pub Stays-bind :
      {A B : Type 0} {n k l : ℕ} (m : Run W A) (f : A → Run W B)
      → n + k ≤ l
      → Stays n m
      → ((x : A) → Stays k (f x))
      → Stays l (m >>= f)
  unfolding ◌>>=◌
  Stays-bind {n = n} {k} {l} m f le p q = record {
    within = λ w. then_run-Within n k l (m w) f le (p.within w) (λ x. (q x).within);
  }
