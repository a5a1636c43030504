-- ===== src/Agent/Conversation/Quiet.antt =====
-- Statements that send no event, and runs that are refused or end.
use Prim.Native.Nat.{ℕ, ◌+◌, ◌≤◌}
use rakit.Prelude.{
  if◌then◌else◌, ◌≡◌, refl, Bool, true, false, List, [], ◌∷◌, ◌++◌, Option, none, some, Result, ok,
  err, arith,
}
use rakit.Provider.{Error}
use rakit.Agent.World.{Effect, emitted, Run, then_run, ◌>>=◌, pure, call, record_effect}
use rakit.Agent.Runner.Traces.{unfinished, ended, requests, ended-append, requests-append}

-- No event is sent to the caller.
abbrev pub silent : List Effect → Bool
silent [] = true
silent (emitted e ∷ t) = false
silent (_ ∷ t) = silent t

pub silent→unfinished : (t : List Effect) → silent t ≡ true → unfinished t ≡ true
silent→unfinished [] h = refl
silent→unfinished (emitted e ∷ t) h = absurd (ground arith)
silent→unfinished (e ∷ t) h = silent→unfinished t h

pub silent-append : (t u : List Effect) → silent t ≡ true → silent u ≡ true → silent (t ++ u) ≡ true
silent-append [] u p q = q
silent-append (emitted e ∷ t) u p q = absurd (ground arith)
silent-append (e ∷ t) u p q = silent-append t u p q

module _ {W : Type 0} where
  -- The statement goes on, without an event and with at most `n` requests.
  abbrev pub Quiet : {A : Type 0} → ℕ → Option A × List Effect × W → Type 0
  Quiet n (some x, t, w) = (silent t ≡ true) × (requests t ≤ n)
  Quiet n (none, t, w) = ⊥

  pub record IsQuiet {A : Type 0} (n : ℕ) (m : Run W A) : Type 0 where
    pub within : (w : W) → Quiet n (m w)

  then_run-Quiet :
      {A B : Type 0} (n k l : ℕ) (r : Option A × List Effect × W) (f : A → Run W B)
      → n + k ≤ l
      → Quiet n r
      → ((x : A) (w : W) → Quiet k (f x w))
      → Quiet l (then_run r f)
  then_run-Quiet n k l (none, t, w) f le p g = absurd p
  then_run-Quiet {B = B} n k l (some x, t, w) f le (p, q) g = go (f x w) (g x w)
    where
      go : (r : Option B × List Effect × W) → Quiet k r → Quiet l (r.0, t ++ r.1, r.2)
      go (some y, u, v) (p', q') = (silent-append t u p p', omega (arith, requests-append t u))
      go (none, u, v) h = h

  pub IsQuiet-bind :
      {A B : Type 0} (n k : ℕ) {l : ℕ} (m : Run W A) (f : A → Run W B)
      → n + k ≤ l
      → IsQuiet n m
      → ((x : A) → IsQuiet k (f x))
      → IsQuiet l (m >>= f)
  unfolding ◌>>=◌
  IsQuiet-bind n k {l} m f le p q = record {
    within = λ w. then_run-Quiet n k l (m w) f le (p.within w) (λ x. (q x).within);
  }

  pub IsQuiet-pure : {A : Type 0} {n : ℕ} (x : A) → IsQuiet n (pure x)
  unfolding pure
  IsQuiet-pure x = record { within = λ w. (refl, omega arith) }

  pub IsQuiet-ask :
      {A B : Type 0} {n : ℕ} (f : W → A × W) (g : A → Run W B)
      → ((x : A) → IsQuiet n (g x))
      → IsQuiet n (call f >>= g)
  unfolding call
  IsQuiet-ask {n = n} f g p =
      IsQuiet-bind 0 n (call f) g (omega arith) (record { within = λ w. (refl, omega arith) }) p

  pub IsQuiet-record :
      {n : ℕ} (e : Effect)
      → silent (e ∷ []) ≡ true
      → requests (e ∷ []) ≤ n
      → IsQuiet n (record_effect e)
  unfolding record_effect
  IsQuiet-record e p q = record { within = λ w. (p, q) }

  pub IsQuiet-Result :
      {A B : Type 0} {n : ℕ} (r : Result Error A) (f : A → Run W B) (g : Error → Run W B)
      → ((x : A) → IsQuiet n (f x))
      → ((e : Error) → IsQuiet n (g e))
      → IsQuiet n (elim r [ ok x ↦ f x | err e ↦ g e ])
  IsQuiet-Result (ok x) f g p q = p x
  IsQuiet-Result (err e) f g p q = q e

  pub IsQuiet-Bool :
      {B : Type 0} {n : ℕ} (b : Bool) (m k : Run W B)
      → IsQuiet n m
      → IsQuiet n k
      → IsQuiet n (elim b [ true ↦ m | false ↦ k ])
  IsQuiet-Bool true m k p q = p
  IsQuiet-Bool false m k p q = q

  pub IsQuiet-if :
      {B : Type 0} {n : ℕ} (b : Bool) (m k : Run W B)
      → IsQuiet n m
      → IsQuiet n k
      → IsQuiet n (if b then m else k)
  IsQuiet-if true m k p q = p
  IsQuiet-if false m k p q = q

  -- How a run ends for its caller: it is refused without an event, or it ends with one of the two
  -- last events, after at most `n` requests.
  abbrev pub Answered : ℕ → Option (Result Error (Unit {0})) × List Effect × W → Type 0
  Answered n (some (ok u), t, w) = (ended t ≡ true) × (requests t ≤ n)
  Answered n (some (err e), t, w) = silent t ≡ true
  Answered n (none, t, w) = ⊥

  pub record IsAnswered (n : ℕ) (m : Run W (Result Error (Unit {0}))) : Type 0 where
    pub at : (w : W) → Answered n (m w)

  then_run-Answered :
      {A : Type 0} (n k l : ℕ) (r : Option A × List Effect × W)
      (f : A → Run W (Result Error (Unit {0})))
      → n + k ≤ l
      → Quiet n r
      → ((x : A) (w : W) → Answered k (f x w))
      → Answered l (then_run r f)
  then_run-Answered n k l (none, t, w) f le p g = absurd p
  then_run-Answered n k l (some x, t, w) f le (p, q) g = go (f x w) (g x w)
    where
      go :
          (r : Option (Result Error (Unit {0})) × List Effect × W)
          → Answered k r
          → Answered l (r.0, t ++ r.1, r.2)
      go (some (ok y), u, v) (p', q') =
          (ended-append t u (silent→unfinished t p) p', omega (arith, requests-append t u))
      go (some (err e), u, v) h = silent-append t u p h
      go (none, u, v) h = h

  pub IsAnswered-bind :
      {A : Type 0} (n k : ℕ) {l : ℕ} (m : Run W A) (f : A → Run W (Result Error (Unit {0})))
      → n + k ≤ l
      → IsQuiet n m
      → ((x : A) → IsAnswered k (f x))
      → IsAnswered l (m >>= f)
  unfolding ◌>>=◌
  IsAnswered-bind n k {l} m f le p q = record {
    at = λ w. then_run-Answered n k l (m w) f le (p.within w) (λ x. (q x).at);
  }

  pub IsAnswered-ask :
      {A : Type 0} {n : ℕ} (f : W → A × W) (g : A → Run W (Result Error (Unit {0})))
      → ((x : A) → IsAnswered n (g x))
      → IsAnswered n (call f >>= g)
  unfolding call
  IsAnswered-ask {n = n} f g p =
      IsAnswered-bind 0 n (call f) g (omega arith) (record { within = λ w. (refl, omega arith) }) p

  pub refused : {n : ℕ} (e : Error) → IsAnswered n (pure (err e))
  unfolding pure
  refused e = record { at = λ w. refl }

  pub IsAnswered-Result :
      {A : Type 0} {n : ℕ} (r : Result Error A) (f : A → Run W (Result Error (Unit {0})))
      (g : Error → Error)
      → ((x : A) → IsAnswered n (f x))
      → IsAnswered n (elim r [ ok x ↦ f x | err e ↦ pure (err (g e)) ])
  IsAnswered-Result (ok x) f g p = p x
  IsAnswered-Result (err e) f g p = refused (g e)
