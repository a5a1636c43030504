-- ===== src/Sqlite/Database/Steady.antt =====
-- Code that succeeds although statements could have failed does what it does without a failure.
use rakit.Prelude.{
  ◌≡◌, refl, Bool, true, false, Option, none, some, Result, ok, err, if◌then◌else◌, arith,
}
use rakit.Sqlite.Database.{
  fault_free, Error, Tables, Database, Db, ◌>>=◌, with_result, pure, lift, statement, next_of,
}

pub record Steady {Raw A : Type 0} (m : Db Raw A) : Type 0 where
  pub at :
      (d d' : Database Raw) (a : A)
      → m d ≡ (ok a, d')
      → m (fault_free d.tables) ≡ (ok a, fault_free d'.tables)

module _ {Raw : Type 0} where
  pub Steady-lift : {A : Type 0} (r : Result Error A) → Steady {Raw = Raw} (lift r)
  unfolding lift
  Steady-lift r = record { at = λ d d' a e. ground arith }

  pub Steady-pure : {A : Type 0} (a : A) → Steady {Raw = Raw} (pure a)
  unfolding pure
  Steady-pure a = record { at = λ d d' b e. ground arith }

  pub Steady-statement :
      {A : Type 0} (f : Tables Raw → Result Error A × Tables Raw) → Steady (statement f)
  unfolding statement next_of
  Steady-statement f = record { at = λ d d' a e. ground arith }

  pub Steady-bind :
      {A B : Type 0} (m : Db Raw A) (f : A → Db Raw B)
      → Steady m
      → ((a : A) → Steady (f a))
      → Steady (m >>= f)
  unfolding ◌>>=◌
  Steady-bind {A} {B} m f sm sf = record { at = λ d d' b e. go d d' b (m d) refl e }
    where
      go :
          (d d' : Database Raw) (b : B) (r : Result Error A × Database Raw)
          → m d ≡ r
          → with_result r f ≡ (ok b, d')
          → with_result (m (fault_free d.tables)) f ≡ (ok b, fault_free d'.tables)
      go d d' b (ok a, d1) p e = rw (sm.at d d1 a p) ((sf a).at d1 d' b e)
      go d d' b (err x, d1) p e = cc

  pub Steady-option :
      {A B : Type 0} (o : Option A) (f : A → Db Raw B) (m : Db Raw B)
      → Steady m
      → ((a : A) → Steady (f a))
      → Steady (elim o [ none ↦ m | some a ↦ f a ])
  Steady-option none f m s sf = s
  Steady-option (some a) f m s sf = sf a

  pub Steady-if :
      {B : Type 0} (b : Bool) (m n : Db Raw B) → Steady m → Steady n → Steady (if b then m else n)
  Steady-if true m n sm sn = sm
  Steady-if false m n sm sn = sn
